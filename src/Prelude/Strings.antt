-- ===== src/Prelude/Strings.antt =====
-- The methods of `str` and `bytes` that the scripts call.
use coffee_order_system.Prelude.Tests.{◌==◌, nat_eq, ltb, leb, if◌then◌else◌}
use coffee_order_system.Prelude.Texts.{Text, text_eq}
use Prim.Native.Nat.{ℕ, ◌+◌, ◌*◌, ◌-◌}
use mathlib.Core.Bool.{Bool, true, false, ◌&&◌, ◌||◌}
use mathlib.Core.Option
use mathlib.Core.Option.{Option, none, some}
use mathlib.Core.List.{List, [], ◌∷◌, ◌++◌}

-- `s.startswith(prefix)`
unfoldable pub starts_with : Text → Text → Bool
starts_with s [] = true
starts_with [] (p ∷ ps) = false
starts_with (c ∷ s) (p ∷ ps) = c == p && starts_with s ps

-- `s[: -len(suffix)]` if `s.endswith(suffix)`.
unfoldable pub remove_suffix : Text → Text → Option Text
remove_suffix [] suffix = if [] == suffix then some [] else none
remove_suffix (c ∷ s) suffix =
    let rest = remove_suffix s suffix in
    if (c ∷ s) == suffix then some [] else Option.map (λ body. c ∷ body) rest

-- `s.rstrip(…)` and `s.lstrip(…)`, over a test for the characters that go.
unfoldable pub rstrip : (ℕ → Bool) → Text → Text
rstrip p [] = []
rstrip p (c ∷ s) = let rest = rstrip p s in if p c && rest == [] then [] else c ∷ rest

unfoldable pub lstrip : (ℕ → Bool) → Text → Text
lstrip p [] = []
lstrip p (c ∷ s) = let rest = lstrip p s in if p c then rest else c ∷ s

-- `str.isspace` of one character.
unfoldable pub is_space : ℕ → Bool
is_space c =
    leb 9 c && leb c 13
    || leb 28 c && leb c 32
    || c == 0x85
    || c == 0xA0
    || c == 0x1680
    || leb 0x2000 c && leb c 0x200A
    || c == 0x2028
    || c == 0x2029
    || c == 0x202F
    || c == 0x205F
    || c == 0x3000

-- `s.strip()`
unfoldable pub strip : Text → Text
unfolding is_space lstrip rstrip
strip s = rstrip is_space (lstrip is_space s)

-- `unicodedata.category(c) == "Cc"`
unfoldable pub is_control : ℕ → Bool
is_control c = leb c 31 || leb 127 c && leb c 159

unfoldable pub extend_head : ℕ → List Text → List Text
extend_head c [] = (c ∷ []) ∷ []
extend_head c (seg ∷ segs) = (c ∷ seg) ∷ segs

-- `s.split(sep)`: never empty.
unfoldable pub split : ℕ → Text → List Text
unfolding extend_head
split sep [] = [] ∷ []
split sep (c ∷ s) = let rest = split sep s in if c == sep then [] ∷ rest else extend_head c rest

-- `sep.join(segments)`
unfoldable pub join : ℕ → List Text → Text
join sep [] = []
join sep (seg ∷ []) = seg
join sep (seg ∷ seg' ∷ segs) = seg ++ (sep ∷ join sep (seg' ∷ segs))

-- `part in s`
unfoldable pub has_part : Text → Text → Bool
unfolding starts_with
has_part [] part = starts_with [] part
has_part (c ∷ s) part = starts_with (c ∷ s) part || has_part s part

-- The order of `str`, by code points.
unfoldable pub text_ltb : Text → Text → Bool
text_ltb s [] = false
text_ltb [] (d ∷ t) = true
text_ltb (c ∷ s) (d ∷ t) = ltb c d || c == d && text_ltb s t

-- The value of a text of ASCII digits, `int(digits)`.
unfoldable pub decimal : ℕ → Text → ℕ
decimal n [] = n
decimal n (c ∷ s) = decimal (n * 10 + (c - 48)) s
