-- ===== src/Violations/Files.antt =====
-- scripts/agent-harness.py: the rules of Effect.NoPass for the readers of the policy, the lock and the output of git, and the gates.
use coffee_order_system.Prelude.{
  ◌≢◌, Bool, true, false, List, [], ◌∷◌, ◌++◌, Text, ℕ, inl, inr, Option-cases, remove_suffix,
  split,
}
use coffee_order_system.Outcome.{HarnessViolation, State}
use coffee_order_system.Effect.NoPass.{
  RaisesNoPass, RaisesNoPass-violation, RaisesNoPass-ok, RaisesNoPass-bind, RaisesNoPass-if,
  fail-ne-pass, pass_rules,
}
use coffee_order_system.Json.{Json, str, arr, obj, Items, nil, cons, Fields, Library}
use coffee_order_system.Model.{Plan, RiskPolicy, RiskClassification, GitContext, PlanLock}
use coffee_order_system.Paths.{validate_branch, branch_issue}
use coffee_order_system.PolicyFile.{
  policy_error, policy_string_array, validate_policy_pattern, object_of, items_of,
  check_rule_patterns, parse_rule, parse_rules, parse_risk_checks, parse_policy_fields,
  parse_risk_policy,
}
use coffee_order_system.LockFile.{
  lock_string, read_lock_fields, check_lock, parse_plan_lock, validate_plan_lock,
}
use coffee_order_system.Gate.{
  validate_risk_declarations, declared_contract_paths, validate_contract_changes,
}
use coffee_order_system.Checks.{checks_of_risk, select_checks, required_check_ids}
use coffee_order_system.Diff.{
  decode_git_path, check_status, parse_tokens, parse_name_status, decode_all, parse_nul_paths,
}
use coffee_order_system.Violations.Readers.{
  get_item_real, parse_json_object_real, require_positive_real, check_each_real,
  contract_change_path_real, checked_array_real, check_string_real, require_known_real,
}

policy_string_array_real :
    (j : Json) (field : Text) (empty : Bool) → RaisesNoPass (policy_string_array j field empty)
unfolding policy_string_array
policy_string_array_real j field empty =
    checked_array_real policy_error (λ r. fail-ne-pass) field _ j

policy_pattern_real : (p : Text) → RaisesNoPass (validate_policy_pattern p)
unfolding validate_policy_pattern
policy_pattern_real p = search pass_rules

object_of_real :
    (error : HarnessViolation) (j : Json)
    → error.state ≢ State.pass
    → RaisesNoPass (object_of error j)
unfolding object_of
object_of_real error (obj fs) h = search pass_rules
object_of_real error j h = RaisesNoPass-violation error h

items_of_real :
    (error : HarnessViolation) (j : Json)
    → error.state ≢ State.pass
    → RaisesNoPass (items_of error j)
unfolding items_of
items_of_real error (arr (cons x xs)) h = search pass_rules
items_of_real error j h = RaisesNoPass-violation error h

rule_patterns_real : (seen ps : List Text) → RaisesNoPass (check_rule_patterns seen ps)
unfolding check_rule_patterns
rule_patterns_real seen [] = search pass_rules
rule_patterns_real seen (p ∷ ps) =
    RaisesNoPass-bind _ _ (policy_pattern_real p)
      (λ u. RaisesNoPass-bind _ _ (search pass_rules) (λ v. rule_patterns_real (p ∷ seen) ps))

ruleset policy_rules = (
  pass_rules, get_item_real, policy_string_array_real, policy_pattern_real, object_of_real,
  items_of_real, rule_patterns_real, check_each_real, parse_json_object_real,
)

parse_rule_real :
    (known ids seen : List Text) (j : Json) → RaisesNoPass (parse_rule known ids seen j)
unfolding parse_rule
parse_rule_real known ids seen j =
    search
      (
        policy_rules,
        check_string_real policy_error (λ r. fail-ne-pass),
        require_known_real policy_error (λ r. fail-ne-pass),
      )
      depth 60

parse_rules_real :
    (known ids seen : List Text) (js : Items) → RaisesNoPass (parse_rules known ids seen js)
unfolding parse_rules
parse_rules_real known ids seen nil = search pass_rules
parse_rules_real known ids seen (cons j js) =
    RaisesNoPass-bind _ _ (parse_rule_real known ids seen j) (λ parsed.
      RaisesNoPass-bind _ _ (parse_rules_real known (parsed.0.rule_id ∷ ids) parsed.1 js)
        (λ rules. search pass_rules))

parse_risk_checks_real :
    (fs : Fields) (seen risks : List Text) → RaisesNoPass (parse_risk_checks fs seen risks)
unfolding parse_risk_checks
parse_risk_checks_real fs seen [] = search pass_rules
parse_risk_checks_real fs seen (risk ∷ risks) = RaisesNoPass-bind _ _ (get_item_real risk fs) (λ j.
    RaisesNoPass-bind _ _ (policy_string_array_real j _ false) (λ checks.
      RaisesNoPass-bind _ _ (search pass_rules) (λ u.
        RaisesNoPass-bind _ _ (parse_risk_checks_real fs (checks ++ seen) risks)
          (λ rest. search pass_rules))))

parse_policy_fields_real : (fs : Fields) → RaisesNoPass (parse_policy_fields fs)
unfolding parse_policy_fields
parse_policy_fields_real fs =
    search (policy_rules, parse_rules_real, parse_risk_checks_real) depth 80

pub parse_risk_policy-RaisesNoPass :
    (library : Library) (raw : List ℕ) → RaisesNoPass (parse_risk_policy library raw)
unfolding parse_risk_policy
parse_risk_policy-RaisesNoPass library raw = search (pass_rules, parse_policy_fields_real) depth 20

lock_string_real : (name : Text) (j : Json) → RaisesNoPass (lock_string name j)
unfolding lock_string
lock_string_real name (str s) = search pass_rules
lock_string_real name j = search pass_rules

pub validate_branch-RaisesNoPass :
    (branch : Text) (issue : ℕ) → RaisesNoPass (validate_branch branch issue)
unfolding validate_branch
validate_branch-RaisesNoPass branch issue = elim (Option-cases (branch_issue branch)) [
  | inl e ↦ rw (e, validate_branch) (search pass_rules)
  | inr (n, e) ↦ rw (e, validate_branch) (search pass_rules)
]

read_lock_fields_real : (fs : Fields) → RaisesNoPass (read_lock_fields fs)
unfolding read_lock_fields
read_lock_fields_real fs =
    search (pass_rules, get_item_real, lock_string_real, require_positive_real) depth 80

check_lock_real : (lock : PlanLock) → RaisesNoPass (check_lock lock)
unfolding check_lock
check_lock_real lock = search pass_rules depth 40

pub parse_plan_lock-RaisesNoPass :
    (library : Library) (raw : List ℕ) → RaisesNoPass (parse_plan_lock library raw)
unfolding parse_plan_lock
parse_plan_lock-RaisesNoPass library raw =
    search (pass_rules, read_lock_fields_real, check_lock_real) depth 40

pub validate_plan_lock-RaisesNoPass :
    (lock : PlanLock) (plan : Plan) (context : GitContext)
    → RaisesNoPass (validate_plan_lock lock plan context)
unfolding validate_plan_lock
validate_plan_lock-RaisesNoPass lock plan context = search pass_rules

pub validate_risk_declarations-RaisesNoPass :
    (plan : Plan) (c : RiskClassification) → RaisesNoPass (validate_risk_declarations plan c)
unfolding validate_risk_declarations
validate_risk_declarations-RaisesNoPass plan c = search pass_rules

declared_paths_real : (ds : List Text) → RaisesNoPass (declared_contract_paths ds)
unfolding declared_contract_paths
declared_paths_real [] = search pass_rules
declared_paths_real (d ∷ ds) =
    RaisesNoPass-bind _ _ (contract_change_path_real d)
      (λ p. search (pass_rules, declared_paths_real ds))

pub validate_contract_changes-RaisesNoPass :
    (changed : List Text) (plan : Plan) (policy : RiskPolicy)
    → RaisesNoPass (validate_contract_changes changed plan policy)
unfolding validate_contract_changes
validate_contract_changes-RaisesNoPass changed plan policy =
    search (pass_rules, declared_paths_real)

checks_of_risk_real :
    (entries : List (Text × List Text)) (risk : Text) → RaisesNoPass (checks_of_risk entries risk)
unfolding checks_of_risk
checks_of_risk_real [] risk = search pass_rules
checks_of_risk_real ((r, checks) ∷ entries) risk =
    RaisesNoPass-if _ _ _ (RaisesNoPass-ok checks) (checks_of_risk_real entries risk)

select_checks_real :
    (entries : List (Text × List Text)) (risks : List Text)
    → RaisesNoPass (select_checks entries risks)
unfolding select_checks
select_checks_real entries [] = search pass_rules
select_checks_real entries (risk ∷ risks) =
    RaisesNoPass-bind _ _ (checks_of_risk_real entries risk)
      (λ c. search (pass_rules, select_checks_real entries risks))

pub required_check_ids-RaisesNoPass :
    (plan : Plan) (c : RiskClassification) (policy : RiskPolicy)
    → RaisesNoPass (required_check_ids plan c policy)
unfolding required_check_ids
required_check_ids-RaisesNoPass plan c policy = search (pass_rules, select_checks_real)

git_path_real : (raw : Text) → RaisesNoPass (decode_git_path raw)
unfolding decode_git_path
git_path_real [] = search pass_rules
git_path_real (b ∷ raw) = search pass_rules

status_real : (raw : Text) → RaisesNoPass (check_status raw)
unfolding check_status
status_real raw = search pass_rules

tokens_real : (ts : List Text) → RaisesNoPass (parse_tokens ts)
unfolding parse_tokens
tokens_real [] = search pass_rules
tokens_real (s ∷ []) = RaisesNoPass-bind _ _ (status_real s) (λ two. search pass_rules)
tokens_real (s ∷ a ∷ []) =
    RaisesNoPass-bind _ _ (status_real s)
      (elim [ true ↦ search pass_rules | false ↦ search (pass_rules, git_path_real) ])
tokens_real (s ∷ a ∷ b ∷ ts) = RaisesNoPass-bind _ _ (status_real s) (elim [
  | true ↦ RaisesNoPass-bind _ _ (git_path_real a) (λ p.
      RaisesNoPass-bind _ _ (git_path_real b)
        (λ q. RaisesNoPass-bind _ _ (tokens_real ts) (λ more. search pass_rules)))
  | false ↦
      RaisesNoPass-bind _ _ (git_path_real a)
        (λ p. RaisesNoPass-bind _ _ (tokens_real (b ∷ ts)) (λ more. search pass_rules))
])

pub parse_name_status-RaisesNoPass : (raw : Text) → RaisesNoPass (parse_name_status raw)
unfolding parse_name_status
parse_name_status-RaisesNoPass [] = search pass_rules
parse_name_status-RaisesNoPass (b ∷ raw) = elim (Option-cases (remove_suffix (b ∷ raw) (0 ∷ []))) [
  | inl e ↦ rw (e, parse_name_status) (search pass_rules)
  | inr (body, e) ↦ rw (e, parse_name_status) (tokens_real (split 0 body))
]

decode_all_real : (ts : List Text) → RaisesNoPass (decode_all ts)
unfolding decode_all
decode_all_real [] = search pass_rules
decode_all_real (t ∷ ts) =
    RaisesNoPass-bind _ _ (git_path_real t) (λ p. search (pass_rules, decode_all_real ts))

pub parse_nul_paths-RaisesNoPass : (raw : Text) → RaisesNoPass (parse_nul_paths raw)
unfolding parse_nul_paths
parse_nul_paths-RaisesNoPass [] = search pass_rules
parse_nul_paths-RaisesNoPass (b ∷ raw) = elim (Option-cases (remove_suffix (b ∷ raw) (0 ∷ []))) [
  | inl e ↦ rw (e, parse_nul_paths) (search pass_rules)
  | inr (body, e) ↦ rw (e, parse_nul_paths) (decode_all_real (split 0 body))
]
