-- ===== src/Checks/Contract.antt =====
-- What it means that the results of a check runner are accepted.
use coffee_order_system.Prelude.{
  ◌≡◌, refl, ◌↔◌, ◌≤◌, inl, inr, true, false, Option, none, some, List, [], ◌∷◌, arith, nat_eq,
  text_eq, texts_eq, Bool-cases, contains, Text, ltb, map, ℤ, All, txt,
}
use mathlib.Core.Option
use coffee_order_system.Outcome.{CheckResult}
use coffee_order_system.Gate.{difference}
use coffee_order_system.Gate.Differences.{sorted_keep-nil, difference-nil}
use coffee_order_system.PlanFile.Arrays.{IsNodup}
use coffee_order_system.Checks.{
  count, repeated_ids, required_ids, check_runner_ids, validate_check_runner_results, ids, typed,
  Candidate, candidate, good, is_bad_id, is_bad_duration, typed_texts, optional_int, read_candidate,
  read_command, read_numbers, read_candidates, iterable,
}

count-zero : (a : Text) (xs : List Text) → contains xs a ≡ false → count a xs ≡ 0
unfolding contains count
count-zero a [] h = refl
count-zero a (x ∷ xs) h = ground (arith, count-zero a xs)

count-pos : (a : Text) (xs : List Text) → contains xs a ≡ true → 1 ≤ count a xs
unfolding contains count
count-pos a [] h = absurd (ground arith)
count-pos a (x ∷ xs) h = ground (arith, count-pos a xs)

abbrev AtMostOnce : List Text → Type 0
AtMostOnce xs = (a : Text) → contains xs a ≡ true → ltb 1 (count a xs) ≡ false

IsNodup-of_once : (xs : List Text) → AtMostOnce xs → IsNodup xs
unfolding contains count
IsNodup-of_once [] h = tt
IsNodup-of_once (x ∷ xs) h = (
  (elim (Bool-cases (contains xs x)) [
    | inl again ↦ absurd (ground (arith, h x (ground arith), count-pos x xs again))
    | inr new ↦ new
  ]),
  IsNodup-of_once xs (λ a m. ground (arith, h a (ground arith))),
)

AtMostOnce-of_nodup : (xs : List Text) → IsNodup xs → AtMostOnce xs
unfolding contains count
AtMostOnce-of_nodup [] h a m = absurd (ground arith)
AtMostOnce-of_nodup (x ∷ xs) h a m = ground (arith, AtMostOnce-of_nodup xs h.1 a, count-zero a xs)

pub repeated_ids-nil : (xs : List Text) → (repeated_ids xs ≡ []) ↔ IsNodup xs
unfolding repeated_ids
repeated_ids-nil xs = (
  λ h. IsNodup-of_once xs ((sorted_keep-nil (λ id. ltb 1 (count id xs)) xs).0 h),
  λ n. (sorted_keep-nil (λ id. ltb 1 (count id xs)) xs).1 (AtMostOnce-of_nodup xs n),
)

-- Each required id once, and no other id.
abbrev pub IsComplete : List Text → List Text → Type 0
IsComplete check_ids requested =
    IsNodup check_ids
    × ((id : Text) → contains check_ids id ≡ true → contains (required_ids requested) id ≡ true)
    × ((id : Text) → contains (required_ids requested) id ≡ true → contains check_ids id ≡ true)

module _ (check_ids requested : List Text) where
  three_tests : (check_runner_ids check_ids requested ≡ none) ↔ (
      (repeated_ids check_ids ≡ [])
      × (difference check_ids (required_ids requested) ≡ [])
      × (difference (required_ids requested) check_ids ≡ []))
  unfolding check_runner_ids
  three_tests = (λ h. ground arith, λ h. ground arith)

  -- The tests on the ids pass exactly when each required id is there once and no other is.
  pub check_runner_ids-IsComplete :
      (check_runner_ids check_ids requested ≡ none) ↔ IsComplete check_ids requested
  check_runner_ids-IsComplete = (
    λ h.
        let (a, b, c) = three_tests.0 h in
        ((repeated_ids-nil check_ids).0 a, (difference-nil _ _).0 b, (difference-nil _ _).0 c),
    λ (n, b, c).
        three_tests.1
          ((repeated_ids-nil check_ids).1 n, (difference-nil _ _).1 b, (difference-nil _ _).1 c),
  )

-- A result as an object of its own class.
unfoldable pub as_candidate : CheckResult → Candidate
as_candidate c =
    candidate (typed c.check_id) (typed c.state) (typed c.reason) (typed (map typed c.command))
      (Option.map typed c.exit_code) (Option.map typed c.duration_ms)

abbrev pub IsWellFormed : CheckResult → Type 0
IsWellFormed c = (is_bad_id c.check_id ≡ false) × (is_bad_duration c.duration_ms ≡ false)

typed_texts-map : (ts : List Text) → typed_texts (map typed ts) ≡ some ts
unfolding typed_texts
typed_texts-map [] = refl
typed_texts-map (t ∷ ts) = ground (arith, typed_texts-map ts)

optional_int-map : (o : Option ℤ) → optional_int (Option.map typed o) ≡ some o
unfolding optional_int
optional_int-map none = refl
optional_int-map (some i) = refl

read_as_candidate :
    (label : Text) (c : CheckResult)
    → IsWellFormed c
    → read_candidate label (as_candidate c) ≡ good c
unfolding read_candidate as_candidate read_command read_numbers
read_as_candidate label c h =
    ground (
      arith,
      typed_texts-map c.command,
      optional_int-map c.exit_code,
      optional_int-map c.duration_ms,
    )

pub read_candidates-map :
    (label : Text) (cs : List CheckResult)
    → All IsWellFormed cs
    → read_candidates label (map as_candidate cs) ≡ (cs, none)
unfolding read_candidates
read_candidates-map label [] h = refl
read_candidates-map label (c ∷ cs) h =
    ground (arith, read_as_candidate label c h.0, read_candidates-map label cs h.1)

validated :
    (cs : List CheckResult) (requested : List Text)
    → All IsWellFormed cs
    → validate_check_runner_results (iterable (map as_candidate cs)) requested
      ≡ (cs, check_runner_ids (ids cs) requested)
unfolding validate_check_runner_results
validated cs requested h = ground (arith, read_candidates-map (txt "check runner") cs h)

-- Well-formed results are accepted as they stand, with no error, exactly when each required id is
-- among theirs once and no other id is.
pub validate_check_runner_results-IsComplete :
    (cs : List CheckResult) (requested : List Text)
    → All IsWellFormed cs
    → (validate_check_runner_results (iterable (map as_candidate cs)) requested ≡ (cs, none))
      ↔ IsComplete (ids cs) requested
validate_check_runner_results-IsComplete cs requested h =
    let e = validated cs requested h in
    (
      λ v. (check_runner_ids-IsComplete (ids cs) requested).0 (cc (e, v)),
      λ c. let n = (check_runner_ids-IsComplete (ids cs) requested).1 c in cc (e, n),
    )
