-- ===== src/Diff/Tokens.antt =====
-- Streams of NUL terminated tokens.
use coffee_order_system.Prelude.{
  ◌≡◌, refl, ◌≢◌, false, some, List, [], ◌∷◌, ◌++◌, arith, nat_eq, contains, Text, text_eq,
  remove_suffix, remove_suffix-append, split, extend_head, join, split-append, All,
}
use mathlib.Core.List.{append_assoc}

-- Each token with its NUL.
unfoldable pub terminate : List Text → Text
terminate [] = []
terminate (t ∷ ts) = t ++ (0 ∷ terminate ts)

abbrev pub NulFree : Text → Type 0
NulFree t = contains t 0 ≡ false

split-one : (t : Text) → NulFree t → split 0 t ≡ t ∷ []
unfolding split extend_head contains
split-one [] h = refl
split-one (c ∷ t) h = ground (arith, split-one t)

pub split-join :
    (t : Text) (ts : List Text) → All NulFree (t ∷ ts) → split 0 (join 0 (t ∷ ts)) ≡ t ∷ ts
unfolding join
split-join t [] h = split-one t h.0
split-join t (u ∷ ts) h =
    cc (split-append 0 t (join 0 (u ∷ ts)), split-one t h.0, split-join u ts h.1)

terminate-join : (t : Text) (ts : List Text) → terminate (t ∷ ts) ≡ join 0 (t ∷ ts) ++ (0 ∷ [])
unfolding terminate join
terminate-join t [] = refl
terminate-join t (u ∷ ts) = cc (terminate-join u ts, append_assoc t (0 ∷ join 0 (u ∷ ts)) (0 ∷ []))

-- The stream without its last NUL.
pub remove_suffix-terminate :
    (t : Text) (ts : List Text)
    → remove_suffix (terminate (t ∷ ts)) (0 ∷ []) ≡ some (join 0 (t ∷ ts))
remove_suffix-terminate t ts =
    rw (terminate-join t ts) (remove_suffix-append (join 0 (t ∷ ts)) (0 ∷ []))

pub terminate-ne-nil : (t : Text) (ts : List Text) → terminate (t ∷ ts) ≢ []
unfolding terminate
terminate-ne-nil [] ts h = cc
terminate-ne-nil (c ∷ t) ts h = cc
