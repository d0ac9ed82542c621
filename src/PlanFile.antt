-- ===== src/PlanFile.antt =====
-- scripts/agent-harness.py: `parse_plan`, from the bytes of a plan file to a `Plan`.
pub mod Arrays
pub mod WellFormed
use coffee_order_system.Prelude.{
  ℕ, Bool, true, false, not, ◌&&◌, Option, none, some, List, [], ◌∷◌, ◌==◌, nat_eq, text_eq,
  texts_eq, if◌then◌else◌, Text, txt, length, strip, sorted_set, ℤ, below_one,
}
use coffee_order_system.Outcome.{
  Result, ok, violation, Reason, about, value, values, HarnessViolation, violation_of, fail,
  replan_required, ◌>>=◌, ◌>>◌, reject_if,
}
use coffee_order_system.Json.{
  Json, int, str, arr, Items, nil, cons, Fields, Library, keys, get_item, parse_json_object,
}
use coffee_order_system.Paths.{validate_plan_pattern, plan_path_matches_issue, contract_change_path}
use coffee_order_system.Gate.{difference}
use coffee_order_system.Model.{Plan}

abbrev pub plan_error : Reason → HarnessViolation
plan_error reason = violation_of fail (txt "plan.schema") reason

-- `value` must be a text that is not empty and has no outer whitespace.
unfoldable pub check_string : (Reason → HarnessViolation) → Text → Json → Result Text
check_string error field (str s) = do
  reject_if (s == []) (error (value (txt "not a non-empty string") field))
  reject_if (not (s == strip s)) (error (value (txt "outer whitespace") field))
  ok s
check_string error field _ = violation (error (value (txt "not a non-empty string") field))

-- The loop over an array.
unfoldable pub check_strings : (Reason → HarnessViolation) → Text → Items → Result (List Text)
unfolding check_string
check_strings error field nil = ok []
check_strings error field (cons x xs) = do
  s ← check_string error field x
  ss ← check_strings error field xs
  ok (s ∷ ss)

-- `len(values) == len(set(values))`
unfoldable pub is_distinct : List Text → Bool
is_distinct strings = length strings == length (sorted_set strings)

-- `string_array` and `policy_string_array`, over the error that they raise.
unfoldable pub checked_array : (Reason → HarnessViolation) → Text → Bool → Json → Result (List Text)
unfolding check_strings is_distinct
checked_array error field require_non_empty (arr raw) = do
  strings ← check_strings error field raw
  reject_if (require_non_empty && strings == []) (error (value (txt "empty") field))
  reject_if (not (is_distinct strings)) (error (value (txt "repeated value") field))
  ok strings
checked_array error field require_non_empty _ = violation (error (value (txt "not an array") field))

unfoldable pub string_array : Json → Text → Bool → Result (List Text)
unfolding checked_array
string_array raw field require_non_empty = checked_array plan_error field require_non_empty raw

-- `_non_empty_string`
unfoldable pub non_empty_string : Json → Text → Result Text
unfolding check_string
non_empty_string raw field = check_string plan_error field raw

-- `for item in items: check(item)`
unfoldable pub check_each : (Text → Result (Unit {0})) → List Text → Result (Unit {0})
check_each check [] = ok tt
check_each check (x ∷ xs) = do check x; check_each check xs

-- `type(issue) is not int or issue < 1`
unfoldable pub positive_int : Json → Option ℕ
positive_int (int (ℤ.pos n)) = if below_one (ℤ.pos n) then none else some n
positive_int _ = none

unfoldable pub require_positive : HarnessViolation → Json → Result ℕ
unfolding positive_int
require_positive error raw = elim (positive_int raw) [ none ↦ violation error | some n ↦ ok n ]

abbrev pub plan_fields : List Text
plan_fields =
    txt "issue"
    ∷ txt "targetBranch"
    ∷ txt "objective"
    ∷ txt "allowedPaths"
    ∷ txt "acceptanceCriteria"
    ∷ txt "declaredRisks"
    ∷ txt "contractChanges"
    ∷ txt "nonGoals"
    ∷ []

-- The tests on the names of the fields.
unfoldable pub check_plan_fields : Fields → Result (Unit {0})
check_plan_fields payload = do
  let unknown = difference (keys payload) plan_fields
  reject_if (not (unknown == [])) (plan_error (values (txt "unknown fields") unknown))
  let missing = difference plan_fields (keys payload)
  reject_if (not (missing == [])) (plan_error (values (txt "missing fields") missing))

unfoldable pub require_known :
    (Reason → HarnessViolation) → List Text → List Text → Result (Unit {0})
require_known error risks known_risks = do
  let unknown = difference risks known_risks
  reject_if (not (unknown == [])) (error (values (txt "unknown risks") unknown))

unfoldable pub ignore_path : Text → Result (Unit {0})
ignore_path declaration = do _ ← contract_change_path declaration; ok tt

-- The issue, the target branch and the place of the plan.
unfoldable pub parse_identity : Fields → Text → Result (ℕ × Text)
unfolding non_empty_string require_positive
parse_identity payload relative_path = do
  issue ← require_positive (plan_error (about (txt "issue"))) (← get_item (txt "issue") payload)
  target_branch ← non_empty_string (← get_item (txt "targetBranch") payload) (txt "targetBranch")
  reject_if (not (target_branch == txt "main"))
      (violation_of replan_required (txt "plan.target") (about (txt "targetBranch")))
  reject_if (not (plan_path_matches_issue relative_path issue))
      (violation_of fail (txt "plan.path") (about (txt "plan path form")))
  ok (issue, target_branch)

-- The objective and the allowed patterns.
unfoldable pub parse_scope : Fields → Result (Text × List Text)
unfolding non_empty_string string_array check_each
parse_scope payload = do
  objective ← non_empty_string (← get_item (txt "objective") payload) (txt "objective")
  allowed_paths ← string_array (← get_item (txt "allowedPaths") payload) (txt "allowedPaths") true
  check_each validate_plan_pattern allowed_paths
  ok (objective, allowed_paths)

-- The acceptance criteria and the declared risks.
unfoldable pub parse_risks : Fields → List Text → Result (List Text × List Text)
unfolding string_array require_known
parse_risks payload known_risks = do
  acceptance_criteria ←
      string_array (← get_item (txt "acceptanceCriteria") payload) (txt "acceptanceCriteria") true
  declared_risks ←
      string_array (← get_item (txt "declaredRisks") payload) (txt "declaredRisks") false
  require_known plan_error declared_risks known_risks
  ok (acceptance_criteria, declared_risks)

-- The contract changes and the non-goals.
unfoldable pub parse_limits : Fields → Result (List Text × List Text)
unfolding string_array check_each ignore_path
parse_limits payload = do
  contract_changes ←
      string_array (← get_item (txt "contractChanges") payload) (txt "contractChanges") false
  check_each ignore_path contract_changes
  non_goals ← string_array (← get_item (txt "nonGoals") payload) (txt "nonGoals") true
  ok (contract_changes, non_goals)

unfoldable pub parse_plan : Library → List ℕ → Text → List Text → Result Plan
unfolding check_plan_fields parse_identity parse_scope parse_risks parse_limits
parse_plan library raw relative_path known_risks = do
  payload ← parse_json_object library raw (txt "plan.schema") (txt "plan")
  check_plan_fields payload
  identity ← parse_identity payload relative_path
  scope ← parse_scope payload
  risks ← parse_risks payload known_risks
  limits ← parse_limits payload
  ok (record {
    issue = identity.0;
    target_branch = identity.1;
    objective = scope.0;
    allowed_paths = scope.1;
    acceptance_criteria = risks.0;
    declared_risks = risks.1;
    contract_changes = limits.0;
    non_goals = limits.1;
    relative_path = relative_path;
    plan_hash = library.sha256 raw;
  })
