-- ===== src/Violations/Readers.antt =====
-- scripts/agent-harness.py: the rules of Effect.NoPass for the readers of JSON and of plans.
use coffee_order_system.Prelude.{
  ◌≢◌, Bool, none, some, List, [], ◌∷◌, Text, txt, ℕ, texts_eq, text_eq, inl, inr, Option-cases,
}
use coffee_order_system.Outcome.{Result, ok, exception, Reason, HarnessViolation, State}
use coffee_order_system.Effect.NoPass.{
  RaisesNoPass, RaisesNoPass-violation, RaisesNoPass-ok, RaisesNoPass-bind, fail-ne-pass,
  pass_rules,
}
use coffee_order_system.Json.{
  Json, str, arr, obj, Items, nil, cons, Fields, Library, get_item, get, as_object,
  parse_json_object, duplicate_in,
}
use coffee_order_system.Paths.{
  validate_plan_pattern, validate_repository_pattern, contract_change_path, rpartition,
}
use coffee_order_system.PlanFile.{
  plan_error, check_string, check_strings, checked_array, string_array, non_empty_string,
  check_each, positive_int, require_positive, check_plan_fields, require_known, ignore_path,
  parse_identity, parse_scope, parse_risks, parse_limits, parse_plan,
}

pub get_item_real : (k : Text) (fs : Fields) → RaisesNoPass (get_item k fs)
unfolding get_item
get_item_real k fs =
    elim (get k fs)
      as (λ o. RaisesNoPass (elim o [ none ↦ exception (txt "KeyError") | some v ↦ ok v ])) [
        | none ↦ search pass_rules
        | some v ↦ search pass_rules
      ]

pub repository_pattern_real : (p id : Text) → RaisesNoPass (validate_repository_pattern p id)
unfolding validate_repository_pattern
repository_pattern_real p id = search pass_rules

plan_pattern_real : (p : Text) → RaisesNoPass (validate_plan_pattern p)
unfolding validate_plan_pattern
plan_pattern_real p = search (pass_rules, repository_pattern_real)

as_object_real : (id label : Text) (j : Json) → RaisesNoPass (as_object id label j)
unfolding as_object
as_object_real id label (obj fs) = search pass_rules
as_object_real id label j = search pass_rules

pub contract_change_path_real : (d : Text) → RaisesNoPass (contract_change_path d)
unfolding contract_change_path
contract_change_path_real d = elim (Option-cases (rpartition b' ' d)) [
  | inl e ↦ rw (e, contract_change_path) (search pass_rules)
  | inr (p, e) ↦ rw (e, contract_change_path) (search (pass_rules, repository_pattern_real))
]

pub parse_json_object_real :
    (library : Library) (raw : List ℕ) (id label : Text)
    → RaisesNoPass (parse_json_object library raw id label)
unfolding parse_json_object
parse_json_object_real library raw id label = elim (Option-cases (library.json raw)) [
  | inl e ↦ rw (e, parse_json_object) (search pass_rules)
  | inr (payload, e) ↦ elim (Option-cases (duplicate_in payload)) [
    | inl f ↦ rw (e, f, parse_json_object) (as_object_real id label payload)
    | inr (key, f) ↦ rw (e, f, parse_json_object) (search pass_rules)
  ]
]

module _ (error : Reason → HarnessViolation)
    (real : (r : Reason) → (error r).state ≢ State.pass) where
  pub check_string_real : (field : Text) (j : Json) → RaisesNoPass (check_string error field j)
  unfolding check_string
  check_string_real field (str s) = search (pass_rules, real)
  check_string_real field j = search (pass_rules, real)

  check_strings_real : (field : Text) (js : Items) → RaisesNoPass (check_strings error field js)
  unfolding check_strings
  check_strings_real field nil = search pass_rules
  check_strings_real field (cons j js) =
      RaisesNoPass-bind _ _ (check_string_real field j)
        (λ s. search (pass_rules, check_strings_real field js))

  pub checked_array_real :
      (field : Text) (non_empty : Bool) (j : Json)
      → RaisesNoPass (checked_array error field non_empty j)
  unfolding checked_array
  checked_array_real field non_empty (arr js) = search (pass_rules, check_strings_real, real)
  checked_array_real field non_empty j = search (pass_rules, real)

  pub require_known_real :
      (risks known : List Text) → RaisesNoPass (require_known error risks known)
  unfolding require_known
  require_known_real risks known = search (pass_rules, real)

string_array_real :
    (j : Json) (field : Text) (non_empty : Bool) → RaisesNoPass (string_array j field non_empty)
unfolding string_array
string_array_real j field non_empty =
    checked_array_real plan_error (λ r. fail-ne-pass) field non_empty j

non_empty_string_real : (j : Json) (field : Text) → RaisesNoPass (non_empty_string j field)
unfolding non_empty_string
non_empty_string_real j field = check_string_real plan_error (λ r. fail-ne-pass) field j

pub check_each_real :
    (check : Text → Result (Unit {0})) (xs : List Text)
    → ((x : Text) → RaisesNoPass (check x))
    → RaisesNoPass (check_each check xs)
unfolding check_each
check_each_real check [] h = search pass_rules
check_each_real check (x ∷ xs) h = RaisesNoPass-bind _ _ (h x) (λ u. check_each_real check xs h)

ignore_path_real : (d : Text) → RaisesNoPass (ignore_path d)
unfolding ignore_path
ignore_path_real d = search (pass_rules, contract_change_path_real)

pub require_positive_real :
    (error : HarnessViolation) (j : Json)
    → error.state ≢ State.pass
    → RaisesNoPass (require_positive error j)
unfolding require_positive
require_positive_real error j h = elim (Option-cases (positive_int j)) [
  | inl e ↦ rw (e, require_positive) (RaisesNoPass-violation error h)
  | inr (n, e) ↦ rw (e, require_positive) (RaisesNoPass-ok n)
]

ruleset reader_rules = (
  pass_rules, get_item_real, parse_json_object_real, string_array_real, non_empty_string_real,
  require_positive_real, check_each_real, plan_pattern_real, ignore_path_real,
  contract_change_path_real, repository_pattern_real,
)

check_plan_fields_real : (fs : Fields) → RaisesNoPass (check_plan_fields fs)
unfolding check_plan_fields
check_plan_fields_real fs = search pass_rules

parse_identity_real : (fs : Fields) (path : Text) → RaisesNoPass (parse_identity fs path)
unfolding parse_identity
parse_identity_real fs path = search reader_rules depth 40

parse_scope_real : (fs : Fields) → RaisesNoPass (parse_scope fs)
unfolding parse_scope
parse_scope_real fs = search reader_rules depth 40

parse_risks_real : (fs : Fields) (known : List Text) → RaisesNoPass (parse_risks fs known)
unfolding parse_risks
parse_risks_real fs known =
    search (reader_rules, require_known_real plan_error (λ r. fail-ne-pass)) depth 40

parse_limits_real : (fs : Fields) → RaisesNoPass (parse_limits fs)
unfolding parse_limits
parse_limits_real fs = search reader_rules depth 40

-- `parse_plan` raises no violation in state PASS.
pub parse_plan-RaisesNoPass :
    (library : Library) (raw : List ℕ) (path : Text) (known : List Text)
    → RaisesNoPass (parse_plan library raw path known)
unfolding parse_plan
parse_plan-RaisesNoPass library raw path known =
    search
      (
        reader_rules, check_plan_fields_real, parse_identity_real, parse_scope_real,
        parse_risks_real, parse_limits_real,
      )
      depth 40
