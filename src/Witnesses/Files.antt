-- ===== src/Witnesses/Files.antt =====
-- The readers of plans, locks and git's output on small inputs.
use coffee_order_system.Prelude.{
  ℕ, ◌≡◌, refl, ◌↔◌, true, false, none, some, List, [], ◌∷◌, arith, ◌≢◌, Text, txt, text_eq,
  texts_eq, nat_eq, contains, ℤ, All, map, decode_surrogateescape, strip, keep, sorted_set,
  below_one, remove_suffix, all, any, decimal, split, starts_with, has_part, is_control, length,
  ◌≤◌, inl,
}
use mathlib.Core.Option.{bind}
use coffee_order_system.Gate.{difference}
use coffee_order_system.Paths.{
  plan_path_matches_issue, contract_change_path, validate_repository_pattern, branch_issue, is_sha,
  is_plan_hash,
}
use coffee_order_system.Outcome.{ok, Reason, HarnessViolation, violation_of, fail}
use coffee_order_system.Json.{
  Json, str, int, arr, obj, cons, nil, Fields, end, Library, parse_json_object, keys, get_item,
}
use coffee_order_system.Model.{PlanLock}
use coffee_order_system.PlanFile.{parse_plan, checked_array}
use coffee_order_system.PlanFile.Arrays.{IsArray, checked_array-IsArray}
use coffee_order_system.PlanFile.WellFormed.{IsPlan, parse_plan-IsPlan}
use coffee_order_system.LockFile.{
  sort_fields, plan_lock_payload, parse_plan_lock, validate_plan_lock,
}
use coffee_order_system.LockFile.Identity.{Locks, validate_plan_lock-Locks}
use coffee_order_system.LockFile.RoundTrip.{IsLock, IsLockText, parse_plan_lock-payload}
use coffee_order_system.Diff.{parse_name_status}
use coffee_order_system.Diff.Tokens.{terminate}
use coffee_order_system.Diff.RoundTrip.{
  Change, single, double, IsChange, change_tokens, change_paths, parse_name_status-terminate,
}
use coffee_order_system.Witnesses.{a_plan, a_context, some_hash, some_sha, order_pattern}

abbrev one_text : Text → Json
one_text t = arr (cons (str t) nil)

abbrev pub plan_json : Json
plan_json = obj (
    Fields.field (txt "issue") (int (ℤ.pos 7)) (
      Fields.field (txt "targetBranch") (str (txt "main")) (
        Fields.field (txt "objective") (str (txt "orders")) (
          Fields.field (txt "allowedPaths") (one_text order_pattern) (
            Fields.field (txt "acceptanceCriteria") (one_text (txt "passes")) (
              Fields.field (txt "declaredRisks") (one_text (txt "transaction")) (
                Fields.field (txt "contractChanges") (one_text (txt "docs/api.md v2"))
                  (Fields.field (txt "nonGoals") (one_text (txt "payments")) end))))))))

abbrev plan_library : Library
plan_library = record { json = λ _. some plan_json; sha256 = λ _. some_hash }

a_plan_read :
    parse_plan plan_library [] (txt "harness/plans/7.json") (txt "transaction" ∷ []) ≡ ok a_plan
unfolding parse_plan txt parse_json_object contains text_eq texts_eq difference sorted_set keep keys
    get_item below_one strip nat_eq plan_path_matches_issue bind remove_suffix all decimal
    contract_change_path validate_repository_pattern split any starts_with has_part is_control
    coffee_order_system.Paths.validate_plan_pattern
a_plan_read = refl

parse_plan-IsPlan_example :
    IsPlan (txt "transaction" ∷ []) a_plan
    × (a_plan.relative_path ≡ txt "harness/plans/7.json")
    × (a_plan.plan_hash ≡ some_hash)
parse_plan-IsPlan_example =
    parse_plan-IsPlan plan_library [] (txt "harness/plans/7.json") (txt "transaction" ∷ []) a_plan
      a_plan_read

abbrev array_error : Reason → HarnessViolation
array_error reason = violation_of fail (txt "plan.schema") reason

array_read :
    checked_array array_error (txt "nonGoals") true (one_text (txt "payments"))
    ≡ ok (txt "payments" ∷ [])
unfolding checked_array txt text_eq strip nat_eq texts_eq coffee_order_system.Prelude.sorted_set
array_read = refl

checked_array-IsArray_example : IsArray true (txt "payments" ∷ [])
checked_array-IsArray_example =
    checked_array-IsArray array_error (txt "nonGoals") true (one_text (txt "payments"))
      (txt "payments" ∷ []) array_read

abbrev pub a_lock : PlanLock
a_lock = record {
  schema_version = 1;
  issue = 7;
  plan_path = txt "harness/plans/7.json";
  plan_hash = some_hash;
  target_branch = txt "main";
  branch = txt "feature/7-orders";
  base_tip_sha = some_sha;
  merge_base_sha = some_sha;
}

abbrev lock_library : Library
lock_library = record {
  json = λ _. some (obj (sort_fields (plan_lock_payload a_lock)));
  sha256 = λ _. some_hash;
}

trimmed_lock_texts :
    IsLockText a_lock.plan_path
    × IsLockText some_hash
    × IsLockText (txt "main")
    × IsLockText a_lock.branch
    × IsLockText some_sha
unfolding txt strip any is_control nat_eq
trimmed_lock_texts = (
  ((λ e. ground (arith, e)), refl, refl),
  ((λ e. ground (arith, e)), refl, refl),
  ((λ e. ground (arith, e)), refl, refl),
  ((λ e. ground (arith, e)), refl, refl),
  ((λ e. ground (arith, e)), refl, refl),
)

lock_forms :
    (plan_path_matches_issue a_lock.plan_path 7 ≡ true)
    × (branch_issue a_lock.branch ≡ some 7)
    × (is_plan_hash some_hash ≡ true)
    × (is_sha some_sha ≡ true)
unfolding plan_path_matches_issue branch_issue is_plan_hash is_sha txt text_eq nat_eq contains bind
    remove_suffix all decimal split
lock_forms = (refl, refl, refl, refl)

a_lock_valid : IsLock a_lock
a_lock_valid = record {
  version = refl;
  issue = omega arith;
  plan_path = trimmed_lock_texts.0;
  plan_hash = trimmed_lock_texts.1;
  target_branch = trimmed_lock_texts.2;
  branch = trimmed_lock_texts.3;
  base_tip_sha = trimmed_lock_texts.4;
  merge_base_sha = trimmed_lock_texts.4;
  place = lock_forms.0;
  target = refl;
  branch_number = lock_forms.1;
  plan_hash_form = lock_forms.2;
  base_tip_form = lock_forms.3;
  merge_base_form = lock_forms.3;
}

parse_plan_lock-payload_example : parse_plan_lock lock_library [] ≡ ok a_lock
parse_plan_lock-payload_example = parse_plan_lock-payload a_lock a_lock_valid lock_library [] refl

validate_plan_lock-Locks_example :
    (validate_plan_lock a_lock a_plan a_context ≡ ok tt) ↔ Locks a_lock a_plan a_context
validate_plan_lock-Locks_example = validate_plan_lock-Locks a_lock a_plan a_context

abbrev some_changes : List Change
some_changes = single (txt "M") (txt "a.py") ∷ double (txt "R100") (txt "b") (txt "c") ∷ []

some_changes_valid : All IsChange some_changes
unfolding txt contains nat_eq
some_changes_valid = (
  ((b'M', refl, refl), ((λ e. ground (arith, e)), refl)),
  (
    (
      (
        b'R',
        txt "100",
        refl,
        inl refl,
        (
          (omega arith, omega arith),
          ((omega arith, omega arith), ((omega arith, omega arith), tt)),
        ),
        omega arith,
      ),
      ((λ e. ground (arith, e)), refl),
      ((λ e. ground (arith, e)), refl),
    ),
    tt,
  ),
)

parse_name_status-terminate_example :
    parse_name_status (terminate (change_tokens some_changes))
    ≡ ok (map decode_surrogateescape (change_paths some_changes))
parse_name_status-terminate_example = parse_name_status-terminate some_changes some_changes_valid
