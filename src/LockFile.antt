-- ===== src/LockFile.antt =====
-- scripts/agent-harness.py: the plan lock, its JSON form, its reader and its comparison.
pub mod RoundTrip
pub mod Identity
use coffee_order_system.Prelude.{
  ℕ, Bool, not, ◌||◌, Option, List, [], ◌∷◌, ◌==◌, nat_eq, text_eq, texts_eq, if◌then◌else◌, Text,
  txt, strip, ℤ, any, is_control, text_ltb,
}
use coffee_order_system.Outcome.{
  Result, ok, violation, Reason, about, value, values, two_lists, HarnessViolation, violation_of,
  replan_required, ◌>>=◌, ◌>>◌, reject_if, rethrow,
}
use coffee_order_system.Json.{
  Json, int, str, Fields, end, field, Library, keys, get_item, parse_json_object,
}
use coffee_order_system.Paths.{plan_path_matches_issue, validate_branch, is_sha, is_plan_hash}
use coffee_order_system.Gate.{difference}
use coffee_order_system.Model.{Plan, GitContext, PlanLock}
use coffee_order_system.PlanFile.{require_positive}
use coffee_order_system.PolicyFile.{same_set, is_version_one}

-- What `sort_keys=True` makes of the items of a dict, which has each key once.
unfoldable pub insert_field : Text → Json → Fields → Fields
unfolding text_ltb
insert_field k v end = Fields.field k v end
insert_field k v (Fields.field j x fs) =
    let rest = insert_field k v fs in
    if text_ltb k j then Fields.field k v (Fields.field j x fs) else Fields.field j x rest

unfoldable pub sort_fields : Fields → Fields
unfolding insert_field
sort_fields end = end
sort_fields (Fields.field k v fs) = insert_field k v (sort_fields fs)

-- `plan_lock_payload`
unfoldable pub plan_lock_payload : PlanLock → Fields
plan_lock_payload lock = field (txt "schemaVersion") (int (ℤ.pos lock.schema_version)) (
    field (txt "issue") (int (ℤ.pos lock.issue)) (
      field (txt "planPath") (str lock.plan_path) (
        field (txt "planHash") (str lock.plan_hash) (
          field (txt "targetBranch") (str lock.target_branch) (
            field (txt "branch") (str lock.branch) (
              field (txt "baseTipSha") (str lock.base_tip_sha)
                (field (txt "mergeBaseSha") (str lock.merge_base_sha) end)))))))

unfoldable pub make_plan_lock : Plan → GitContext → PlanLock
make_plan_lock plan context = record {
  schema_version = 1;
  issue = plan.issue;
  plan_path = plan.relative_path;
  plan_hash = plan.plan_hash;
  target_branch = plan.target_branch;
  branch = context.branch;
  base_tip_sha = context.base_tip_sha;
  merge_base_sha = context.merge_base_sha;
}

-- `_plan_lock_error`
abbrev pub plan_lock_error : Reason → HarnessViolation
plan_lock_error reason = violation_of replan_required (txt "plan.lock") reason

abbrev plan_lock_fields : List Text
plan_lock_fields =
    txt "schemaVersion"
    ∷ txt "issue"
    ∷ txt "planPath"
    ∷ txt "planHash"
    ∷ txt "targetBranch"
    ∷ txt "branch"
    ∷ txt "baseTipSha"
    ∷ txt "mergeBaseSha"
    ∷ []

-- `_lock_string`
unfoldable pub lock_string : Text → Json → Result Text
lock_string name (str s) = do
  reject_if (s == []) (plan_lock_error (value (txt "not a non-empty string") name))
  reject_if (not (s == strip s) || any is_control s)
      (plan_lock_error (value (txt "untrusted whitespace") name))
  ok s
lock_string name _ = violation (plan_lock_error (value (txt "not a non-empty string") name))

-- The reading of the fields, before the tests that relate them.
unfoldable pub read_lock_fields : Fields → Result PlanLock
unfolding lock_string is_version_one require_positive
read_lock_fields payload = do
  version ← get_item (txt "schemaVersion") payload
  raw_issue ← get_item (txt "issue") payload
  reject_if (not (is_version_one version)) (plan_lock_error (about (txt "schemaVersion")))
  issue ← require_positive (plan_lock_error (about (txt "issue"))) raw_issue
  plan_path ← lock_string (txt "planPath") (← get_item (txt "planPath") payload)
  plan_hash ← lock_string (txt "planHash") (← get_item (txt "planHash") payload)
  target_branch ← lock_string (txt "targetBranch") (← get_item (txt "targetBranch") payload)
  branch ← lock_string (txt "branch") (← get_item (txt "branch") payload)
  base_tip_sha ← lock_string (txt "baseTipSha") (← get_item (txt "baseTipSha") payload)
  merge_base_sha ← lock_string (txt "mergeBaseSha") (← get_item (txt "mergeBaseSha") payload)
  ok (record {
    schema_version = 1;
    issue = issue;
    plan_path = plan_path;
    plan_hash = plan_hash;
    target_branch = target_branch;
    branch = branch;
    base_tip_sha = base_tip_sha;
    merge_base_sha = merge_base_sha;
  })

abbrev as_lock_error : HarnessViolation → HarnessViolation
as_lock_error error = plan_lock_error error.reason

-- The tests on the values that were read.
unfoldable pub check_lock : PlanLock → Result (Unit {0})
check_lock lock = do
  reject_if (not (plan_path_matches_issue lock.plan_path lock.issue))
      (plan_lock_error (about (txt "planPath")))
  reject_if (not (lock.target_branch == txt "main")) (plan_lock_error (about (txt "targetBranch")))
  rethrow as_lock_error (validate_branch lock.branch lock.issue)
  reject_if (not (is_plan_hash lock.plan_hash)) (plan_lock_error (about (txt "planHash")))
  reject_if (not (is_sha lock.base_tip_sha)) (plan_lock_error (about (txt "baseTipSha")))
  reject_if (not (is_sha lock.merge_base_sha)) (plan_lock_error (about (txt "mergeBaseSha")))

-- `load_plan_lock` after its `read_bytes`.
unfoldable pub parse_plan_lock : Library → List ℕ → Result PlanLock
unfolding read_lock_fields check_lock same_set
parse_plan_lock library raw = do
  payload ←
      rethrow as_lock_error (parse_json_object library raw (txt "plan.lock") (txt "plan lock"))
  reject_if (not (same_set (keys payload) plan_lock_fields)) (
      plan_lock_error (
        two_lists (txt "plan lock fields") (difference (keys payload) plan_lock_fields)
          (difference plan_lock_fields (keys payload))))
  lock ← read_lock_fields payload
  check_lock lock
  ok lock

-- The labels of the pairs that differ.
unfoldable pub changed_labels : List (Text × Bool) → List Text
changed_labels [] = []
changed_labels ((label, same) ∷ rest) =
    let labels = changed_labels rest in if same then labels else label ∷ labels

-- `comparisons`
unfoldable pub lock_comparisons : PlanLock → Plan → GitContext → List (Text × Bool)
lock_comparisons lock plan context =
    (txt "issue", lock.issue == plan.issue)
    ∷ (txt "plan path", lock.plan_path == plan.relative_path)
    ∷ (txt "plan hash", lock.plan_hash == plan.plan_hash)
    ∷ (txt "target branch", lock.target_branch == plan.target_branch)
    ∷ (txt "branch", lock.branch == context.branch)
    ∷ (txt "base tip", lock.base_tip_sha == context.base_tip_sha)
    ∷ (txt "merge-base", lock.merge_base_sha == context.merge_base_sha)
    ∷ []

unfoldable pub validate_plan_lock : PlanLock → Plan → GitContext → Result (Unit {0})
unfolding lock_comparisons changed_labels
validate_plan_lock lock plan context =
    let changed = changed_labels (lock_comparisons lock plan context) in
    reject_if (not (changed == [])) (plan_lock_error (values (txt "changed since prepare") changed))
