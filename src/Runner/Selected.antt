-- ===== src/Runner/Selected.antt =====
-- The default runner on the checks that a plan requires.
use coffee_order_system.Prelude.{
  ◌≡◌, sym, subst, ◌∙◌, inl, inr, true, false, not, ◌&&◌, none, List, [], ◌∷◌, ◌++◌, arith, ◌==◌,
  ==_iff, text_eq, Bool-cases, contains, Text, txt, map, any, any-witness, is_control, All,
  All-of_contains,
}
use coffee_order_system.Outcome.{ok, CheckResult}
use coffee_order_system.Model.{Plan, RiskPolicy}
use coffee_order_system.Gate.{classify_risks}
use coffee_order_system.PlanFile.Arrays.{IsTrimmed, IsArray}
use coffee_order_system.PolicyFile.WellFormed.{IsPolicy}
use coffee_order_system.Checks.{
  iterable, is_bad_id, required_check_ids, required_preflight_ids, set_apart,
  validate_check_runner_results,
}
use coffee_order_system.Checks.Contract.{as_candidate}
use coffee_order_system.Checks.Required.{asks, required_check_ids_lem}
use coffee_order_system.Runner.{Machine, run_required_checks}
use coffee_order_system.Runner.Accepted.{fixed, run_required_checks-accepted}

All-at : (P : Text → Type 0) (xs : List Text) (x : Text) → All P xs → contains xs x ≡ true → P x
unfolding contains
All-at P [] x h m = absurd (ground arith)
All-at P (y ∷ ys) x h m = elim (Bool-cases (x == y)) [
  | inl here ↦ subst P (sym ((==_iff x y).0 here)) h.0
  | inr there ↦ All-at P ys x h.1 (ground arith)
]

asks-IsTrimmed :
    (entries : List (Text × List Text)) (id risk : Text)
    → All (λ (entry : Text × List Text). IsArray true entry.1) entries
    → asks entries id risk ≡ true
    → IsTrimmed id
asks-IsTrimmed [] id risk h m = absurd (ground arith)
asks-IsTrimmed ((r, checks) ∷ entries) id risk h m = elim (Bool-cases (r == risk)) [
  | inl here ↦ All-at IsTrimmed checks id h.0.trimmed (ground (arith, here, m))
  | inr there ↦ asks-IsTrimmed entries id risk h.1 (ground (arith, there, m))
]

good_id : (id : Text) → IsTrimmed id → any is_control id ≡ false → is_bad_id id ≡ false
unfolding is_bad_id
good_id id h c = ground arith

not_fixed :
    (id : Text)
    → contains set_apart id ≡ false
    → contains required_preflight_ids id ≡ false
    → contains fixed id ≡ false
unfolding contains
not_fixed id s p = ground arith

module _ (m : Machine) (w : m.World) (policy : RiskPolicy) (plan : Plan) (changed : List Text)
    (valid : IsPolicy policy)
    (declared_known : (r : Text)
      → contains plan.declared_risks r ≡ true
      → contains policy.known_risks r ≡ true)
    (plain_ids : (risk id : Text)
      → asks policy.risk_checks id risk ≡ true
      → (any is_control id ≡ false) × (contains required_preflight_ids id ≡ false)) where
  abbrev all_risks : List Text
  all_risks =
      plan.declared_risks ++ (classify_risks changed policy plan.relative_path).detected_risks

  chosen_lem :
      (id : Text)
      → (not (contains set_apart id) && any (asks policy.risk_checks id) all_risks) ≡ true
      → (is_bad_id id ≡ false) × (contains fixed id ≡ false)
  chosen_lem id c =
      let (risk, _, a) = any-witness (asks policy.risk_checks id) all_risks (ground (arith, c)) in
      let (plain, other) = plain_ids risk id a in
      (
        good_id id (asks-IsTrimmed policy.risk_checks id risk valid.arrays a) plain,
        not_fixed id (ground (arith, c)) other,
      )

  -- For a well-formed policy whose check ids have no control character and are none of the preflight's,
  -- a plan that declares known risks only, any changed paths and any machine: the required checks are
  -- chosen, the default runner runs them, and the validation of check runners accepts its results as
  -- they stand.
  pub required_checks-accepted :
      (requested : List Text) × (cs : List CheckResult) × (w' : m.World) × (required_check_ids plan
          (classify_risks changed policy plan.relative_path)
          policy
        ≡ ok requested)
      × (run_required_checks m w requested ≡ ok (cs, w'))
      × (validate_check_runner_results (iterable (map as_candidate cs)) requested ≡ (cs, none))
  required_checks-accepted =
      let (rest, e, distinct, members) =
        required_check_ids_lem policy plan changed valid declared_known in
      let good =
        λ (id : Text) (c : contains rest id ≡ true). chosen_lem id (sym (members id) ∙ c) in
      let (cs, w', run, accepted) =
        run_required_checks-accepted m w rest
          (All-of_contains (λ id. is_bad_id id ≡ false) rest (λ id c. (good id c).0)) distinct
          (All-of_contains (λ id. contains fixed id ≡ false) rest (λ id c. (good id c).1)) in
      (txt "harness.unit" ∷ txt "gradle.test" ∷ rest, cs, w', e, run, accepted)
