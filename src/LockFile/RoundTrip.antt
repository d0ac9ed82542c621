-- ===== src/LockFile/RoundTrip.antt =====
-- scripts/agent-harness.py: `plan_lock_payload`, sorted by `write_json_atomic`, and `parse_plan_lock`.
use coffee_order_system.Prelude.{
  ℕ, ◌≡◌, refl, ◌≢◌, ◌≤◌, true, false, none, some, List, [], arith, nat_eq, text_eq, texts_eq,
  int_eq, Text, txt, strip, any, is_control, text_ltb, ℤ, below_one, contains, sorted_set, keep,
}
use coffee_order_system.Outcome.{ok, about, HarnessViolation}
use coffee_order_system.Json.{
  int, str, obj, Fields, keys, get_item, Library, parse_json_object, as_object, repeated_key,
  duplicate_in,
}
use coffee_order_system.Paths.{
  plan_path_matches_issue, branch_issue, validate_branch, is_sha, is_plan_hash,
}
use coffee_order_system.Gate.{difference}
use coffee_order_system.Model.{PlanLock}
use coffee_order_system.PlanFile.{require_positive, positive_int}
use coffee_order_system.PolicyFile.{same_set, is_version_one}
use coffee_order_system.LockFile.{
  plan_lock_error, sort_fields, plan_lock_payload, plan_lock_fields, lock_string, read_lock_fields,
  check_lock, parse_plan_lock,
}

abbrev pub IsLockText : Text → Type 0
IsLockText s = (s ≢ []) × (strip s ≡ s) × (any is_control s ≡ false)

pub record IsLock (lock : PlanLock) : Type 0 where
  pub version : lock.schema_version ≡ 1
  pub issue : 1 ≤ lock.issue
  pub plan_path : IsLockText lock.plan_path
  pub plan_hash : IsLockText lock.plan_hash
  pub target_branch : IsLockText lock.target_branch
  pub branch : IsLockText lock.branch
  pub base_tip_sha : IsLockText lock.base_tip_sha
  pub merge_base_sha : IsLockText lock.merge_base_sha
  pub place : plan_path_matches_issue lock.plan_path lock.issue ≡ true
  pub target : lock.target_branch ≡ txt "main"
  pub branch_number : branch_issue lock.branch ≡ some lock.issue
  pub plan_hash_form : is_plan_hash lock.plan_hash ≡ true
  pub base_tip_form : is_sha lock.base_tip_sha ≡ true
  pub merge_base_form : is_sha lock.merge_base_sha ≡ true

lock_string_lem : (name s : Text) → IsLockText s → lock_string name (str s) ≡ ok s
unfolding lock_string
lock_string_lem name s h = ground arith

fields_same :
    (lock : PlanLock)
    → same_set (keys (sort_fields (plan_lock_payload lock))) plan_lock_fields ≡ true
unfolding same_set keys sort_fields text_ltb plan_lock_payload txt difference keep contains
    sorted_set text_eq texts_eq nat_eq
fields_same lock = refl

no_duplicate : (lock : PlanLock) → duplicate_in (obj (sort_fields (plan_lock_payload lock))) ≡ none
unfolding duplicate_in repeated_key sort_fields text_ltb plan_lock_payload txt contains text_eq
    nat_eq
no_duplicate lock = refl

version_lem : (n : ℕ) → n ≡ 1 → is_version_one (int (ℤ.pos n)) ≡ true
unfolding is_version_one
version_lem n h = ground arith

issue_lem :
    (error : HarnessViolation) (n : ℕ) → 1 ≤ n → require_positive error (int (ℤ.pos n)) ≡ ok n
unfolding require_positive positive_int below_one
issue_lem error n h = ground arith

parse_lem :
    (library : Library) (raw : List ℕ) (id label : Text) (fs : Fields)
    → library.json raw ≡ some (obj fs)
    → duplicate_in (obj fs) ≡ none
    → parse_json_object library raw id label ≡ ok fs
unfolding parse_json_object as_object
parse_lem library raw id label fs e n = rw (e, n, parse_json_object) refl

module _ (lock : PlanLock) (h : IsLock lock) where
  abbrev payload : Fields
  payload = sort_fields (plan_lock_payload lock)

  items :
      (get_item (txt "schemaVersion") payload ≡ ok (int (ℤ.pos lock.schema_version)))
      × (get_item (txt "issue") payload ≡ ok (int (ℤ.pos lock.issue)))
      × (get_item (txt "planPath") payload ≡ ok (str lock.plan_path))
      × (get_item (txt "planHash") payload ≡ ok (str lock.plan_hash))
      × (get_item (txt "targetBranch") payload ≡ ok (str lock.target_branch))
      × (get_item (txt "branch") payload ≡ ok (str lock.branch))
      × (get_item (txt "baseTipSha") payload ≡ ok (str lock.base_tip_sha))
      × (get_item (txt "mergeBaseSha") payload ≡ ok (str lock.merge_base_sha))
  unfolding sort_fields text_ltb plan_lock_payload get_item txt text_eq nat_eq
  items = (refl, refl, refl, refl, refl, refl, refl, refl)

  read_lem : read_lock_fields payload ≡ ok lock
  unfolding read_lock_fields
  read_lem = ground (
    arith,
    items,
    version_lem lock.schema_version h.version,
    issue_lem (plan_lock_error (about (txt "issue"))) lock.issue h.issue,
  )

  check_lem : check_lock lock ≡ ok tt
  unfolding check_lock validate_branch
  check_lem = ground arith

  -- A well-formed lock is read back as the same lock from any bytes that decode to the fields that `plan_lock_payload`
  -- makes of it, in the order of their names, in which the file has them.
  pub parse_plan_lock-payload :
      (library : Library) (raw : List ℕ)
      → library.json raw ≡ some (obj payload)
      → parse_plan_lock library raw ≡ ok lock
  unfolding parse_plan_lock
  parse_plan_lock-payload library raw e = ground (
    arith,
    parse_lem library raw (txt "plan.lock") (txt "plan lock") payload e (no_duplicate lock),
    fields_same lock,
    read_lem,
    check_lem,
  )
