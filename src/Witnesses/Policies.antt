-- ===== src/Witnesses/Policies.antt =====
-- The reading of a policy and the choice of checks on small inputs.
use coffee_order_system.Prelude.{
  ◌≡◌, refl, not, ◌&&◌, some, List, [], ◌∷◌, ◌++◌, Text, txt, text_eq, texts_eq, int_eq, nat_eq,
  contains, ℤ, strip, keep, sorted_set, any, all, split, starts_with, has_part, is_control,
  remove_suffix,
}
use coffee_order_system.Outcome.{ok}
use coffee_order_system.Json.{
  Json, str, int, arr, obj, cons, nil, Fields, end, Library, parse_json_object, keys, get_item,
}
use coffee_order_system.Gate.{difference, classify_risks}
use coffee_order_system.Paths.{validate_repository_pattern}
use coffee_order_system.PlanFile.Arrays.{IsNodup}
use coffee_order_system.PolicyFile.{parse_risk_policy}
use coffee_order_system.PolicyFile.WellFormed.{IsPolicy, parse_risk_policy-IsPolicy}
use coffee_order_system.Checks.{required_check_ids, set_apart}
use coffee_order_system.Checks.Required.{asks, required_check_ids_lem}
use coffee_order_system.Witnesses.{order_pattern, a_plan, a_policy, a_change, some_hash}

abbrev one_text : Text → Json
one_text t = arr (cons (str t) nil)

abbrev rule_json : Json
rule_json = obj (
    Fields.field (txt "id") (str (txt "orders")) (
      Fields.field (txt "patterns") (one_text order_pattern)
        (Fields.field (txt "risks") (one_text (txt "transaction")) end)))

abbrev pub policy_json : Json
policy_json = obj (
    Fields.field (txt "schemaVersion") (int (ℤ.pos 1)) (
      Fields.field (txt "knownRisks") (one_text (txt "transaction")) (
        Fields.field (txt "rules") (arr (cons rule_json nil)) (
          Fields.field (txt "protectedPatterns") (one_text (txt "docs/api.md")) (
            Fields.field (txt "riskChecks")
              (obj (Fields.field (txt "transaction") (one_text (txt "oracle.transaction")) end))
              end)))))

abbrev pub policy_library : Library
policy_library = record { json = λ _. some policy_json; sha256 = λ _. some_hash }

pub a_policy_read : parse_risk_policy policy_library [] ≡ ok a_policy
unfolding parse_risk_policy txt parse_json_object contains text_eq texts_eq int_eq difference
    sorted_set keep keys get_item strip nat_eq remove_suffix all validate_repository_pattern split
    any starts_with has_part is_control coffee_order_system.PlanFile.checked_array
a_policy_read = refl

parse_risk_policy-IsPolicy_example : IsPolicy a_policy
parse_risk_policy-IsPolicy_example =
    parse_risk_policy-IsPolicy policy_library [] a_policy a_policy_read

required_check_ids_lem_example :
    (rest : List Text) × (required_check_ids a_plan
        (classify_risks a_change a_policy a_plan.relative_path)
        a_policy
      ≡ ok (txt "harness.unit" ∷ txt "gradle.test" ∷ rest))
    × IsNodup rest
    × ((id : Text)
        → contains rest id ≡ (
            not (contains set_apart id)
            && any (asks a_policy.risk_checks id) (
                a_plan.declared_risks
                ++ (classify_risks a_change a_policy a_plan.relative_path).detected_risks)))
required_check_ids_lem_example =
    required_check_ids_lem a_policy a_plan a_change
      (parse_risk_policy-IsPolicy policy_library [] a_policy a_policy_read) (λ r m. m)
