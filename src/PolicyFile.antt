-- ===== src/PolicyFile.antt =====
-- scripts/agent-harness.py: `load_risk_policy`, from the bytes of the policy file on.
pub mod Rules
pub mod WellFormed
use coffee_order_system.Prelude.{
  ℕ, Bool, true, false, not, ◌&&◌, List, [], ◌∷◌, ◌++◌, ◌==◌, nat_eq, text_eq, texts_eq, contains,
  Text, txt, keep, sorted_set, ℤ, int_eq,
}
use coffee_order_system.Outcome.{
  Result, ok, violation, Reason, about, value, values, two_lists, HarnessViolation, violation_of,
  fail, ◌>>=◌, ◌>>◌, reject_if, rethrow,
}
use coffee_order_system.Json.{
  Json, int, arr, obj, Items, nil, cons, Fields, Library, keys, get_item, parse_json_object,
}
use coffee_order_system.Paths.{validate_repository_pattern}
use coffee_order_system.Gate.{difference}
use coffee_order_system.Model.{RiskRule, RiskPolicy}
use coffee_order_system.PlanFile.{check_string, checked_array, check_each, require_known}

-- `policy_error`
abbrev pub policy_error : Reason → HarnessViolation
policy_error reason = violation_of fail (txt "policy.schema") reason

abbrev as_policy_error : HarnessViolation → HarnessViolation
as_policy_error error = policy_error error.reason

unfoldable pub policy_string_array : Json → Text → Bool → Result (List Text)
policy_string_array raw field allow_empty = checked_array policy_error field (not allow_empty) raw

unfoldable pub validate_policy_pattern : Text → Result (Unit {0})
validate_policy_pattern pattern =
    rethrow as_policy_error (validate_repository_pattern pattern (txt "policy.schema"))

-- `set(xs) == set(ys)`
unfoldable pub same_set : List Text → List Text → Bool
same_set xs ys = difference xs ys == [] && difference ys xs == []

abbrev policy_fields : List Text
policy_fields =
    txt "schemaVersion"
    ∷ txt "knownRisks"
    ∷ txt "rules"
    ∷ txt "protectedPatterns"
    ∷ txt "riskChecks"
    ∷ []

abbrev rule_fields : List Text
rule_fields = txt "id" ∷ txt "patterns" ∷ txt "risks" ∷ []

-- `type(schema_version) is not int or schema_version != 1`
unfoldable pub is_version_one : Json → Bool
is_version_one (int i) = i == ℤ.pos 1
is_version_one _ = false

unfoldable pub object_of : HarnessViolation → Json → Result Fields
object_of error (obj fs) = ok fs
object_of error _ = violation error

unfoldable pub items_of : HarnessViolation → Json → Result Items
items_of error (arr (cons x xs)) = ok (cons x xs)
items_of error _ = violation error

-- The loop over the patterns of a rule; the result is `all_patterns`.
unfoldable pub check_rule_patterns : List Text → List Text → Result (List Text)
unfolding validate_policy_pattern
check_rule_patterns all_patterns [] = ok all_patterns
check_rule_patterns all_patterns (pattern ∷ patterns) = do
  validate_policy_pattern pattern
  reject_if (contains all_patterns pattern) (policy_error (value (txt "duplicate pattern") pattern))
  check_rule_patterns (pattern ∷ all_patterns) patterns

-- One round of the loop over `rules`: the rule, and `all_patterns` after it.
unfoldable pub parse_rule : List Text → List Text → List Text → Json → Result (RiskRule × List Text)
unfolding object_of same_set policy_string_array check_rule_patterns check_string require_known
parse_rule known_risks rule_ids all_patterns raw_rule = do
  fields ← object_of (policy_error (about (txt "rule fields"))) raw_rule
  reject_if (not (same_set (keys fields) rule_fields)) (policy_error (about (txt "rule fields")))
  rule_id ← check_string policy_error (txt "rules.id") (← get_item (txt "id") fields)
  reject_if (contains rule_ids rule_id) (policy_error (value (txt "duplicate rule id") rule_id))
  patterns ← policy_string_array (← get_item (txt "patterns") fields) (txt "rules.patterns") false
  all_patterns' ← check_rule_patterns all_patterns patterns
  risks ← policy_string_array (← get_item (txt "risks") fields) (txt "rules.risks") true
  require_known policy_error risks known_risks
  ok (record { rule_id = rule_id; patterns = patterns; risks = risks }, all_patterns')

unfoldable pub parse_rules : List Text → List Text → List Text → Items → Result (List RiskRule)
unfolding parse_rule
parse_rules known_risks rule_ids all_patterns nil = ok []
parse_rules known_risks rule_ids all_patterns (cons raw_rule raw_rules) = do
  parsed ← parse_rule known_risks rule_ids all_patterns raw_rule
  rules ← parse_rules known_risks (parsed.0.rule_id ∷ rule_ids) parsed.1 raw_rules
  ok (parsed.0 ∷ rules)

-- The loop over `riskChecks`, in the order of `knownRisks`.
unfoldable pub parse_risk_checks : Fields → List Text → List Text → Result (List (Text × List Text))
unfolding policy_string_array
parse_risk_checks raw_risk_checks all_check_ids [] = ok []
parse_risk_checks raw_risk_checks all_check_ids (risk ∷ risks) = do
  checks ← policy_string_array (← get_item risk raw_risk_checks) (txt "riskChecks." ++ risk) false
  let duplicates = sorted_set (keep (contains all_check_ids) checks)
  reject_if (not (duplicates == [])) (policy_error (values (txt "duplicate check ids") duplicates))
  entries ← parse_risk_checks raw_risk_checks (checks ++ all_check_ids) risks
  ok ((risk, checks) ∷ entries)

unfoldable pub parse_policy_fields : Fields → Result RiskPolicy
unfolding same_set is_version_one policy_string_array items_of parse_rules check_each object_of
    parse_risk_checks
parse_policy_fields payload = do
  reject_if (not (same_set (keys payload) policy_fields)) (
      policy_error (
        two_lists (txt "policy fields") (difference (keys payload) policy_fields)
          (difference policy_fields (keys payload))))
  schema_version ← get_item (txt "schemaVersion") payload
  reject_if (not (is_version_one schema_version)) (policy_error (about (txt "schemaVersion")))
  known_risks ← policy_string_array (← get_item (txt "knownRisks") payload) (txt "knownRisks") false
  raw_rules ← items_of (policy_error (about (txt "rules"))) (← get_item (txt "rules") payload)
  rules ← parse_rules known_risks [] [] raw_rules
  protected_patterns ←
      policy_string_array (← get_item (txt "protectedPatterns") payload) (txt "protectedPatterns")
        false
  check_each validate_policy_pattern protected_patterns
  raw_risk_checks ←
      object_of (policy_error (about (txt "riskChecks"))) (← get_item (txt "riskChecks") payload)
  reject_if (not (same_set (keys raw_risk_checks) known_risks))
      (policy_error (about (txt "riskChecks")))
  risk_checks ← parse_risk_checks raw_risk_checks [] known_risks
  ok (record {
    schema_version = 1;
    known_risks = known_risks;
    rules = rules;
    protected_patterns = protected_patterns;
    risk_checks = risk_checks;
  })

-- `load_risk_policy` after its `read_bytes`.
unfoldable pub parse_risk_policy : Library → List ℕ → Result RiskPolicy
unfolding parse_policy_fields
parse_risk_policy library raw = do
  payload ←
      rethrow as_policy_error
        (parse_json_object library raw (txt "policy.schema") (txt "risk policy"))
  parse_policy_fields payload
