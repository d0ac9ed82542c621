-- ===== src/Runner/Accepted.antt =====
-- The default check runner meets the contract of check runners.
use coffee_order_system.Prelude.{
  ◌≡◌, refl, ◌∙◌, ap, sym, subst, inl, inr, true, false, none, List, [], ◌∷◌, ◌++◌, arith, ◌==◌,
  map, nat_eq, text_eq, texts_eq, int_eq, Bool-cases, ==_iff, contains, contains-append, Text, txt,
  All,
}
use coffee_order_system.Outcome.{ok, CheckResult, state_eq}
use coffee_order_system.Checks.{
  iterable, validate_check_runner_results, required_preflight_ids, required_ids, is_bad_id,
}
use coffee_order_system.Checks.Contract.{
  as_candidate, IsComplete, validate_check_runner_results-IsComplete,
}
use coffee_order_system.PlanFile.Arrays.{IsNodup}
use coffee_order_system.Runner.{Machine, run_required_checks}
use coffee_order_system.Runner.Complete.{all_expected, fixed_ids, run_required_checks_lem}

-- The ids that the runner gives before the ones that the policy chose.
abbrev pub fixed : List Text
fixed = txt "harness.unit" ∷ required_preflight_ids ++ (txt "gradle.test" ∷ [])

abbrev pub IsFresh : List Text → Type 0
IsFresh rest = All (λ id. contains fixed id ≡ false) rest

fresh-gradle : (id : Text) → contains fixed id ≡ false → (id == txt "gradle.test") ≡ false
unfolding contains
fresh-gradle id h = ground arith

fresh-expected : (rest : List Text) → IsFresh rest → all_expected rest ≡ rest
fresh-expected [] h = refl
fresh-expected (id ∷ rest) h =
    rw (fresh-gradle id h.0) (ap (λ more. id ∷ more) (fresh-expected rest h.1))

differ_by_test :
    (x y : Text) (xs : List Text) → contains xs x ≡ true → contains xs y ≡ false → (x == y) ≡ false
differ_by_test x y xs m n = elim (Bool-cases (x == y)) [
  | inl same ↦ absurd (cc (m, n, ap (λ a. contains xs a) ((==_iff x y).0 same)))
  | inr other ↦ other
]

fresh-avoids :
    (x : Text) (rest : List Text) → contains fixed x ≡ true → IsFresh rest → contains rest x ≡ false
unfolding contains
fresh-avoids x [] m h = refl
fresh-avoids x (id ∷ rest) m h = rw (differ_by_test x id fixed m h.0) (fresh-avoids x rest m h.1)

fixed-expected :
    (rest : List Text)
    → all_expected (txt "harness.unit" ∷ txt "gradle.test" ∷ rest) ≡ fixed ++ all_expected rest
unfolding txt text_eq nat_eq
fixed-expected rest = refl

fixed-IsNodup : (rest : List Text) → IsNodup rest → IsFresh rest → IsNodup (fixed ++ rest)
unfolding contains txt text_eq nat_eq
fixed-IsNodup rest n h = (
  fresh-avoids (txt "harness.unit") rest refl h,
  (
    fresh-avoids (txt "environment.python") rest refl h,
    (
      fresh-avoids (txt "environment.java") rest refl h,
      (
        fresh-avoids (txt "environment.docker") rest refl h,
        (
          fresh-avoids (txt "environment.java17-toolchain") rest refl h,
          (fresh-avoids (txt "gradle.test") rest refl h, n),
        ),
      ),
    ),
  ),
)

gradle_required :
    (rest : List Text)
    → required_ids (txt "harness.unit" ∷ txt "gradle.test" ∷ rest)
      ≡ (txt "harness.unit" ∷ txt "gradle.test" ∷ rest) ++ required_preflight_ids
unfolding required_ids contains txt text_eq nat_eq
gradle_required rest = refl

fixed-required :
    (rest : List Text) (x : Text)
    → contains (required_ids (txt "harness.unit" ∷ txt "gradle.test" ∷ rest)) x
      ≡ contains (fixed ++ rest) x
unfolding contains
fixed-required rest x =
    ap (λ xs. contains xs x) (gradle_required rest)
    ∙ contains-append (txt "harness.unit" ∷ txt "gradle.test" ∷ rest) required_preflight_ids x
    ∙ ground arith

expected-IsComplete :
    (rest : List Text)
    → IsNodup rest
    → IsFresh rest
    → IsComplete (fixed ++ rest) (txt "harness.unit" ∷ txt "gradle.test" ∷ rest)
expected-IsComplete rest n h = (
  fixed-IsNodup rest n h,
  λ x m. fixed-required rest x ∙ m,
  λ x m. sym (fixed-required rest x) ∙ m,
)

-- On any machine, for the ids "harness.unit" and "gradle.test" followed by distinct ids that are no bad
-- texts and none of these two or of the preflight's, the default runner returns results that the
-- validation of check runners accepts as they stand, with no error.
pub run_required_checks-accepted :
    (m : Machine) (w : m.World) (rest : List Text)
    → All (λ id. is_bad_id id ≡ false) rest
    → IsNodup rest
    → IsFresh rest
    → (cs : List CheckResult) × (w' : m.World) × (run_required_checks m w
          (txt "harness.unit" ∷ txt "gradle.test" ∷ rest)
        ≡ ok (cs, w'))
      × (validate_check_runner_results
            (iterable (map as_candidate cs))
            (txt "harness.unit" ∷ txt "gradle.test" ∷ rest)
          ≡ (cs, none))
run_required_checks-accepted m w rest valid n h =
    let requested = txt "harness.unit" ∷ txt "gradle.test" ∷ rest in
    let (cs, w', e, i, f) =
      run_required_checks_lem m w requested (fixed_ids.4, (fixed_ids.5, valid)) in
    (
      cs,
      w',
      e,
      (validate_check_runner_results-IsComplete cs requested f).1 (
          subst (λ xs. IsComplete xs requested)
            (sym (i ∙ fixed-expected rest ∙ ap (λ xs. fixed ++ xs) (fresh-expected rest h)))
            (expected-IsComplete rest n h)),
    )
