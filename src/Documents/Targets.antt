-- ===== src/Documents/Targets.antt =====
-- scripts/check-doc-context.py: the targets of links and the suffixes of names, said of the text they are cut from.
use coffee_order_system.Prelude.{
  ℕ, ◌≡◌, ◌≢◌, refl, ap, sym, ◌∙◌, ◌⊎◌, inl, inr, subst, Bool, true, false, not, ◌&&◌, some, List,
  [], ◌∷◌, ◌++◌, ◌==◌, ==_iff, nat_eq, text_eq, Text, txt, All, any, keep, contains, is_space,
  starts_with, arith, Bool-cases, cond, if◌then◌else◌,
}
use mathlib.Core.List.{append-nil}
use coffee_order_system.System.{returned}
use coffee_order_system.Documents.{
  TreePath, ignored_parts, source_suffixes, text_before, bare_target, from_last_dot, suffix_of,
  is_source,
}

pub starts_with-rest : (s p : Text) → starts_with s p ≡ true → (rest : Text) × (s ≡ p ++ rest)
unfolding starts_with
starts_with-rest s [] h = (s, refl)
starts_with-rest [] (d ∷ p) h = absurd (ground (arith, h))
starts_with-rest (c ∷ s) (d ∷ p) h =
    let (rest, e) = starts_with-rest s p (ground (arith, h)) in (rest, ground (arith, h, e))

pub kept_of :
    {A : Type 0} (P : A → Type 0) (q : A → Bool) (xs : List A)
    → All P (keep q xs)
    → All (λ x. q x ≡ true → P x) xs
unfolding keep
kept_of P q [] h = tt
kept_of P q (x ∷ xs) h = elim (Bool-cases (q x)) [
  | inl stays ↦
      let both : P x × All P (keep q xs) =
        subst (λ b. All P (cond b (x ∷ keep q xs) (keep q xs))) stays h in
      ((λ e. both.0), kept_of P q xs both.1)
  | inr dropped ↦ (
    (λ e. absurd (ground (arith, e, dropped))),
    kept_of P q xs (subst (λ b. All P (cond b (x ∷ keep q xs) (keep q xs))) dropped h),
  )
]

-- The word stands first, and nothing or an end of words behind it.
abbrev pub IsCut : (ℕ → Bool) → Text → Text → Type 0
IsCut p s word =
    (rest : Text) × (s ≡ word ++ rest)
    × All (λ c. p c ≡ false) word
    × ((rest ≡ []) ⊎ ((c : ℕ) × (more : Text) × (rest ≡ c ∷ more) × (p c ≡ true)))

text_before-IsCut : (p : ℕ → Bool) (s : Text) → IsCut p s (text_before p s)
unfolding text_before
text_before-IsCut p [] = ([], refl, tt, inl refl)
text_before-IsCut p (c ∷ s) = elim (Bool-cases (p c)) [
  | inl e ↦
      subst (λ b. IsCut p (c ∷ s) (if b then [] else c ∷ text_before p s)) (sym e)
        (c ∷ s, refl, tt, inr (c, s, refl, e))
  | inr n ↦
      let (rest, same, none_there, end) = text_before-IsCut p s in
      subst (λ b. IsCut p (c ∷ s) (if b then [] else c ∷ text_before p s)) (sym n)
        (rest, ap (λ t. c ∷ t) same, (n, none_there), end)
]

-- The target of a link, stripped: between angle brackets, or else its first word.
abbrev pub IsTarget : Text → Text → Type 0
IsTarget s word =
    ((rest : Text) × (s ≡ b'<' ∷ word ++ (b'>' ∷ rest)) × All (λ c. c ≢ b'>') word)
    ⊎ (((c : ℕ) × (more : Text) × (s ≡ c ∷ more) × ((c ≡ b'<') → contains s b'>' ≡ false))
        × IsCut is_space s word)

not_angle : (word : Text) → All (λ c. (c == b'>') ≡ false) word → All (λ c. c ≢ b'>') word
not_angle [] h = tt
not_angle (c ∷ word) h =
    ((λ e. let t = (==_iff c b'>').1 e in ground (arith, h, t)), not_angle word h.1)

none_inside : (s : Text) → All (λ c. (c == b'>') ≡ false) s → contains s b'>' ≡ false
unfolding contains
none_inside [] h = refl
none_inside (c ∷ s) h = let rest = none_inside s h.1 in ground (arith, h, rest)

angle_target :
    (s : Text)
    → contains s b'>' ≡ true
    → (rest : Text) × (s ≡ text_before (λ d. d == b'>') s ++ (b'>' ∷ rest))
      × All (λ c. c ≢ b'>') (text_before (λ d. d == b'>') s)
angle_target s inside =
    let (rest, same, none_there, end) = text_before-IsCut (λ d. d == b'>') s in
    let word = text_before (λ d. d == b'>') s in
    elim end [
      | inl e ↦
          let whole = same ∙ ap (λ t. word ++ t) e ∙ append-nil word in
          let outside = ap (λ t. contains t b'>') whole ∙ none_inside word none_there in
          absurd (ground (arith, inside, outside))
      | inr (c, more, e, is_angle) ↦
          let angle = (==_iff c b'>').0 is_angle in
          (
            more,
            same ∙ ap (λ t. word ++ t) (e ∙ ap (λ d. d ∷ more) angle),
            not_angle word none_there,
          )
    ]

later_angle : (c : ℕ) (s : Text) → c ≡ b'<' → contains (c ∷ s) b'>' ≡ true → contains s b'>' ≡ true
unfolding contains
later_angle c s e h = ground (arith, e, h)

returned_injective : {A : Type 0} {a b : A} → returned a ≡ returned b → a ≡ b
returned_injective h = cc

first_word :
    (c : ℕ) (s : Text) {word : Text}
    → (c == b'<' && contains (c ∷ s) b'>') ≡ false
    → text_before is_space (c ∷ s) ≡ word
    → IsTarget (c ∷ s) word
first_word c s n e = inr (
  (c, s, refl, λ angle. let open_angle = (==_iff c b'<').1 angle in ground (arith, n, open_angle)),
  subst (IsCut is_space (c ∷ s)) e (text_before-IsCut is_space (c ∷ s)),
)

pub bare_target-IsTarget :
    (s : Text) {word : Text} → bare_target s ≡ returned word → IsTarget s word
unfolding bare_target
bare_target-IsTarget [] h = absurd (ground (arith, h))
bare_target-IsTarget (c ∷ s) {word} h = elim (Bool-cases (c == b'<' && contains (c ∷ s) b'>')) [
  | inr n ↦ first_word c s n (returned_injective (ground (arith, h, n)))
  | inl both ↦
      let angle : c ≡ b'<' = (==_iff c b'<').0 (ground (arith, both)) in
      let inside : contains (c ∷ s) b'>' ≡ true = ground (arith, both) in
      let (rest, same, none_there) = angle_target s (later_angle c s angle inside) in
      let found : text_before (λ d. d == b'>') s ≡ word =
        returned_injective (ground (arith, h, both)) in
      inl (
        rest,
        ap (λ d. d ∷ s) angle ∙ ap (λ t. b'<' ∷ t) (same ∙ ap (λ t. t ++ (b'>' ∷ rest)) found),
        subst (All (λ d. d ≢ b'>')) found none_there,
      )
]

-- A name that ends in one of the suffixes, behind something else.
abbrev pub IsSourceName : Text → Type 0
IsSourceName name =
    (stem : Text) × (suffix : Text) × (name ≡ stem ++ suffix)
    × (stem ≢ [])
    × ((suffix ≡ txt ".java")
        ⊎ ((suffix ≡ txt ".sql") ⊎ ((suffix ≡ txt ".yaml") ⊎ (suffix ≡ txt ".yml"))))

last_dot-append :
    (stem suffix : Text)
    → from_last_dot suffix ≡ some suffix
    → from_last_dot (stem ++ suffix) ≡ some suffix
unfolding from_last_dot
last_dot-append [] suffix h = h
last_dot-append (c ∷ stem) suffix h =
    let rest = last_dot-append stem suffix h in ground (arith, rest)

suffix_of-append :
    (stem suffix : Text)
    → stem ≢ []
    → from_last_dot suffix ≡ some suffix
    → (suffix == txt ".") ≡ false
    → suffix_of (stem ++ suffix) ≡ suffix
unfolding suffix_of
suffix_of-append [] suffix n h k = absurd (n refl)
suffix_of-append (c ∷ stem) suffix n h k =
    let found = last_dot-append stem suffix h in ground (arith, found, k)

source_suffix :
    (stem suffix : Text) (parent : TreePath)
    → stem ≢ []
    → (from_last_dot suffix ≡ some suffix)
      × ((suffix == txt ".") ≡ false)
      × (contains source_suffixes suffix ≡ true)
    → is_source ((stem ++ suffix) ∷ parent) ≡ true
unfolding is_source
source_suffix stem suffix parent n (dot, more, known) =
    ap (contains source_suffixes) (suffix_of-append stem suffix n dot more) ∙ known

pub named-is_source :
    (name : Text) (parent : TreePath) → IsSourceName name → is_source (name ∷ parent) ≡ true
unfolding from_last_dot txt contains text_eq nat_eq
named-is_source name parent (stem, suffix, e, n, inl k) =
    ap (λ t. is_source (t ∷ parent)) (e ∙ ap (λ t. stem ++ t) k)
    ∙ source_suffix stem (txt ".java") parent n (refl, refl, refl)
named-is_source name parent (stem, suffix, e, n, inr (inl k)) =
    ap (λ t. is_source (t ∷ parent)) (e ∙ ap (λ t. stem ++ t) k)
    ∙ source_suffix stem (txt ".sql") parent n (refl, refl, refl)
named-is_source name parent (stem, suffix, e, n, inr (inr (inl k))) =
    ap (λ t. is_source (t ∷ parent)) (e ∙ ap (λ t. stem ++ t) k)
    ∙ source_suffix stem (txt ".yaml") parent n (refl, refl, refl)
named-is_source name parent (stem, suffix, e, n, inr (inr (inr k))) =
    ap (λ t. is_source (t ∷ parent)) (e ∙ ap (λ t. stem ++ t) k)
    ∙ source_suffix stem (txt ".yml") parent n (refl, refl, refl)

-- A path with no part in a directory that is left out.
abbrev pub IsInside : TreePath → Type 0
IsInside = All (λ part.
    (part ≢ txt ".git") × (part ≢ txt ".gradle") × (part ≢ txt ".idea") × (part ≢ txt "build"))

part_inside :
    (part : Text)
    → (part ≢ txt ".git") × (part ≢ txt ".gradle") × (part ≢ txt ".idea") × (part ≢ txt "build")
    → contains ignored_parts part ≡ false
unfolding contains
part_inside part h = ground (arith, h)

pub inside-not_ignored :
    (path : TreePath) → IsInside path → not (any (λ part. contains ignored_parts part) path) ≡ true
unfolding any
inside-not_ignored [] h = refl
inside-not_ignored (part ∷ path) h =
    let rest = inside-not_ignored path h.1 in
    let first = part_inside part h.0 in ground (arith, rest, first)
