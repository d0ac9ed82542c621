-- ===== src/Witnesses/Runs.antt =====
-- The default runner on the checks of a small plan.
use coffee_order_system.Prelude.{
  ℕ, ◌≡◌, refl, sym, subst, inl, inr, true, false, none, List, [], arith, ◌==◌, ==_iff, Bool-cases,
  Text, txt, text_eq, nat_eq, contains, is_control, any, map,
}
use coffee_order_system.Outcome.{ok, CheckResult}
use coffee_order_system.Gate.{classify_risks}
use coffee_order_system.PolicyFile.WellFormed.{parse_risk_policy-IsPolicy}
use coffee_order_system.Checks.{
  iterable, required_check_ids, required_preflight_ids, validate_check_runner_results,
}
use coffee_order_system.Checks.Contract.{as_candidate}
use coffee_order_system.Checks.Required.{asks}
use coffee_order_system.Runner.{run_required_checks}
use coffee_order_system.Runner.Selected.{required_checks-accepted}
use coffee_order_system.Witnesses.{a_plan, a_policy, a_change}
use coffee_order_system.Witnesses.Checks.{a_machine}
use coffee_order_system.Witnesses.Policies.{policy_library, a_policy_read}

oracle_id_plain :
    (any is_control (txt "oracle.transaction") ≡ false)
    × (contains required_preflight_ids (txt "oracle.transaction") ≡ false)
unfolding any is_control txt contains text_eq nat_eq
oracle_id_plain = (refl, refl)

asked_once :
    (risk id : Text) → asks a_policy.risk_checks id risk ≡ true → id ≡ txt "oracle.transaction"
asked_once risk id m = elim (Bool-cases (txt "transaction" == risk)) [
  | inl here ↦ (==_iff id (txt "oracle.transaction")).0 (unfold contains in ground (arith, here, m))
  | inr there ↦ absurd (ground (arith, there, m))
]

a_policy_plain :
    (risk id : Text)
    → asks a_policy.risk_checks id risk ≡ true
    → (any is_control id ≡ false) × (contains required_preflight_ids id ≡ false)
a_policy_plain risk id m =
    subst (λ (i : Text). (any is_control i ≡ false) × (contains required_preflight_ids i ≡ false))
      (sym (asked_once risk id m)) oracle_id_plain

required_checks-accepted_example :
    (requested : List Text) × (cs : List CheckResult) × (w' : ℕ) × (required_check_ids a_plan
        (classify_risks a_change a_policy a_plan.relative_path)
        a_policy
      ≡ ok requested)
    × (run_required_checks a_machine 0 requested ≡ ok (cs, w'))
    × (validate_check_runner_results (iterable (map as_candidate cs)) requested ≡ (cs, none))
required_checks-accepted_example =
    required_checks-accepted a_machine 0 a_policy a_plan a_change
      (parse_risk_policy-IsPolicy policy_library [] a_policy a_policy_read) (λ r m. m)
      a_policy_plain
