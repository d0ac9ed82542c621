-- ===== src/Paths/Cover.antt =====
-- What `path_matches` means: a pattern covers a path, by its segments.
use coffee_order_system.Prelude.{
  ℕ, ◌≡◌, refl, sym, ap, subst, ◌≢◌, ◌↔◌, ◌⊎◌, inl, inr, true, false, none, some, List, [], ◌∷◌,
  ◌++◌, arith, ◌==◌, nat_eq, Bool-cases, Option-cases, contains, Text, text_eq, txt, rstrip, split,
  extend_head, starts_with, split-prefix, starts_with-append, remove_suffix, remove_suffix-body,
  remove_suffix-append,
}
use mathlib.Core.Option.{some-ne-none}
use mathlib.Core.List.{append_assoc}
use coffee_order_system.Outcome.{ok}
use coffee_order_system.Paths.{slash, stars, body_of, path_matches, validate_repository_pattern}
use coffee_order_system.Paths.Safe.{validate_repository_pattern-IsSafe}

-- A pattern covers itself, and `d/**` covers each path whose segments begin with those of `d`.
pub data Covers (pattern path : Text) : Type 0 where
  exact : pattern ≡ path → Covers pattern path
  below :
      (d : Text) (rest : List Text)
      → pattern ≡ d ++ stars
      → split slash path ≡ split slash d ++ rest
      → Covers pattern path

abbrev TailNamed : List Text → Type 0
TailNamed [] = Unit
TailNamed (s ∷ segs) = (t : Text) → contains segs t ≡ true → t ≢ []

abbrev Named : List Text → Type 0
Named segs = (t : Text) → contains segs t ≡ true → t ≢ []

Named-TailNamed : (segs : List Text) → Named segs → TailNamed segs
unfolding contains
Named-TailNamed [] h = tt
Named-TailNamed (s ∷ segs) h = λ t m. h t (ground arith)

TailNamed-extend_head : (c : ℕ) (segs : List Text) → TailNamed (extend_head c segs) → TailNamed segs
unfolding extend_head
TailNamed-extend_head c [] h = tt
TailNamed-extend_head c (s ∷ segs) h = h

split-sep : (c : ℕ) (s : Text) → (c == slash) ≡ true → split slash (c ∷ s) ≡ [] ∷ split slash s
unfolding split
split-sep c s h = rw h

split-other :
    (c : ℕ) (s : Text) → (c == slash) ≡ false → split slash (c ∷ s) ≡ extend_head c (split slash s)
unfolding split
split-other c s h = rw h

Named-ne-nil : (s : Text) → Named (split slash s) → s ≢ []
unfolding split contains
Named-ne-nil [] h = absurd (h [] (ground arith) refl)
Named-ne-nil (c ∷ s) h = ground arith

-- No segment but the first is empty: no slash at the end.
rstrip-of_Named : (s : Text) → TailNamed (split slash s) → rstrip (λ c. c == slash) s ≡ s
unfolding rstrip
rstrip-of_Named [] h = refl
rstrip-of_Named (c ∷ s) h = elim (Bool-cases (c == slash)) [
  | inl sep ↦
      let n : Named (split slash s) = subst TailNamed (split-sep c s sep) h in
      ground (arith, rstrip-of_Named s (Named-TailNamed (split slash s) n), Named-ne-nil s n)
  | inr other ↦ ground (
    arith,
    rstrip-of_Named s
        (TailNamed-extend_head c (split slash s) (subst TailNamed (split-other c s other) h)),
  )
]

path_matches-below :
    (d path : Text)
    → rstrip (λ c. c == slash) d ≡ d
    → (path_matches (d ++ stars) path ≡ true)
      ↔ ((d ≡ path) ⊎ (starts_with path (d ++ (slash ∷ [])) ≡ true))
unfolding path_matches txt
path_matches-below d path h = ground (arith, remove_suffix-append d stars, h)

path_matches-exact :
    (pattern path : Text)
    → remove_suffix pattern stars ≡ none
    → (path_matches pattern path ≡ true) ↔ (pattern ≡ path)
unfolding path_matches
path_matches-exact pattern path h = ground arith

body_of-some : (pattern d : Text) → remove_suffix pattern stars ≡ some d → body_of pattern ≡ d
unfolding body_of
body_of-some pattern d h = ground arith

stars_below : (d : Text) → starts_with (d ++ stars) (d ++ (slash ∷ [])) ≡ true
unfolding txt
stars_below d =
    subst (λ (t : Text). starts_with t (d ++ (slash ∷ [])) ≡ true)
      (append_assoc d (slash ∷ []) (txt "**")) (starts_with-append (d ++ (slash ∷ [])) (txt "**"))

module _ (d path : Text) (clean : rstrip (λ c. c == slash) d ≡ d) where
  below-Covers : path_matches (d ++ stars) path ≡ true → Covers (d ++ stars) path
  below-Covers m =
      let (rest, e) = (split-prefix slash d path).0 ((path_matches-below d path clean).0 m) in
      below d rest refl e

  Covers-below : Covers (d ++ stars) path → path_matches (d ++ stars) path ≡ true
  Covers-below (exact e) = (path_matches-below d path clean).1 (inr (rw (sym e) (stars_below d)))
  Covers-below (below d' rest p e) =
      let same : d' ≡ d = cc (
        ap (λ (t : Text). remove_suffix t stars) p,
        remove_suffix-append d stars,
        remove_suffix-append d' stars,
      ) in
      (path_matches-below d path clean).1 ((split-prefix slash d path).1 (rest, rw (sym same) e))

module _ (pattern path check_id : Text)
    (valid : validate_repository_pattern pattern check_id ≡ ok tt) where
  clean_body : (d : Text) → remove_suffix pattern stars ≡ some d → rstrip (λ c. c == slash) d ≡ d
  clean_body d h =
      let safe = validate_repository_pattern-IsSafe pattern check_id valid in
      rstrip-of_Named d (
        Named-TailNamed (split slash d)
          (λ t m. (safe.segments t (rw (body_of-some pattern d h) m)).0))

  -- For a pattern that `_validate_repository_pattern` lets through, `path_matches` says exactly
  -- that the pattern covers the path: it is the path, or it is `d/**` and the path is `d` or lies
  -- below `d`, segment by segment.
  pub path_matches-Covers : (path_matches pattern path ≡ true) ↔ Covers pattern path
  path_matches-Covers = elim (Option-cases (remove_suffix pattern stars)) [
    | inl none_left ↦ (
      λ m. exact ((path_matches-exact pattern path none_left).0 m),
      elim [
        | exact e ↦ (path_matches-exact pattern path none_left).1 e
        | below d rest p e ↦ absurd (
            some-ne-none d (
              cc (
                none_left,
                remove_suffix-append d stars,
                ap (λ (t : Text). remove_suffix t stars) p,
              )))
      ],
    )
    | inr (d, found) ↦
        subst (λ (t : Text). (path_matches t path ≡ true) ↔ Covers t path)
          (sym (remove_suffix-body pattern stars d found))
          (below-Covers d path (clean_body d found), Covers-below d path (clean_body d found))
  ]
