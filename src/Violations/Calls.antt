-- ===== src/Violations/Calls.antt =====
-- scripts/agent-harness.py: the rules of Effect.NoPass for the calls of git and the reading of files.
use coffee_order_system.Prelude.{◌≢◌, Bool, List, [], ◌∷◌, Text, inl, inr, Option-cases}
use coffee_order_system.Outcome.{HarnessViolation, State}
use coffee_order_system.Effect.NoPass.{
  RaisesNoPass, RunsNoPass, RaisesNoPass-violation, RaisesNoPass-ok, RaisesNoPass-exception,
  RaisesNoPass-if, RunsNoPass-lift, RunsNoPass-bind, fail-ne-pass, blocked-ne-pass, replan-ne-pass,
  pass_rules,
}
use coffee_order_system.System.{
  System, Raised, Try, returned, raised, attempt, Call, act, guarded, relative_to,
}
use coffee_order_system.Commands.{Finished, os_error, completed}
use coffee_order_system.Model.{Plan, GitContext, RiskPolicy}
use coffee_order_system.Git.{
  git_result, run_git, name_status, nul_paths, resolve_local_git_context, collect_worktree_paths,
  collect_local_changed_paths, encode_path, untracked_bytes, diff_parts, diff_input,
  compute_diff_hash,
}
use coffee_order_system.Migrations.{check_migrations, validate_existing_migrations_immutable}
use coffee_order_system.Loading.{
  path_below, load_risk_policy, load_plan, load_plan_lock, validate_evaluate_clean_state,
}
use coffee_order_system.Violations.Readers.{parse_plan-RaisesNoPass}
use coffee_order_system.Violations.Files.{
  parse_name_status-RaisesNoPass, parse_nul_paths-RaisesNoPass, validate_branch-RaisesNoPass,
  parse_risk_policy-RaisesNoPass, parse_plan_lock-RaisesNoPass,
}

pub attempt_real :
    {A : Type 0} (catches : Raised → Bool) (error : Text → HarnessViolation) (t : Try A)
    → ((e : Text) → (error e).state ≢ State.pass)
    → RaisesNoPass (attempt catches error t)
unfolding attempt
attempt_real catches error (returned a) h = search pass_rules
attempt_real catches error (raised e) h = search pass_rules

pub act_real : {W A : Type 0} (call : Call W A) → RunsNoPass (act call)
act_real call = record { at = λ w. RaisesNoPass-ok (call w).0 }

pub guarded_real :
    {W A : Type 0} (catches : Raised → Bool) (error : Text → HarnessViolation)
    (call : Call W (Try A))
    → ((e : Text) → (error e).state ≢ State.pass)
    → RunsNoPass (guarded catches error call)
guarded_real catches error call h = search (pass_rules, act_real, attempt_real)

pub git_result_real : (arguments : List Text) (f : Finished) → RaisesNoPass (git_result arguments f)
unfolding git_result
git_result_real arguments (os_error e) = search pass_rules
git_result_real arguments (completed code stdout stderr) = search pass_rules

pub ruleset call_rules = (
  pass_rules, act_real, guarded_real, git_result_real, parse_name_status-RaisesNoPass,
  parse_nul_paths-RaisesNoPass,
)

module _ (sys : System) where
  run_git_real : (root : Text) (arguments : List Text) → RunsNoPass (run_git sys root arguments)
  unfolding run_git
  run_git_real root arguments = search call_rules

  name_status_real :
      (root : Text) (arguments : List Text) → RunsNoPass (name_status sys root arguments)
  unfolding name_status
  name_status_real root arguments = search (call_rules, run_git_real)

  nul_paths_real : (root : Text) (arguments : List Text) → RunsNoPass (nul_paths sys root arguments)
  unfolding nul_paths
  nul_paths_real root arguments = search (call_rules, run_git_real)

  pub context-RunsNoPass :
      (root : Text) (plan : Plan) → RunsNoPass (resolve_local_git_context sys root plan)
  unfolding resolve_local_git_context
  context-RunsNoPass root plan =
      search (call_rules, run_git_real, validate_branch-RaisesNoPass) depth 60

  pub worktree_real : (root : Text) → RunsNoPass (collect_worktree_paths sys root)
  unfolding collect_worktree_paths
  worktree_real root = search (call_rules, name_status_real, nul_paths_real) depth 30

  pub changed-RunsNoPass :
      (root base : Text) → RunsNoPass (collect_local_changed_paths sys root base)
  unfolding collect_local_changed_paths
  changed-RunsNoPass root base = search (call_rules, name_status_real, nul_paths_real) depth 30

  encode_path_real : (path : Text) → RaisesNoPass (encode_path sys path)
  encode_path_real path = elim (Option-cases (sys.encode_surrogateescape path)) [
    | inl e ↦ rw (e, encode_path) (search pass_rules)
    | inr (bytes, e) ↦ rw (e, encode_path) (search pass_rules)
  ]

  untracked_real : (root : Text) (paths : List Text) → RunsNoPass (untracked_bytes sys root paths)
  unfolding untracked_bytes
  untracked_real root [] = search pass_rules
  untracked_real root (path ∷ paths) =
      RunsNoPass-bind _ _ (guarded_real _ _ _ (λ e. fail-ne-pass)) (λ kind.
        RunsNoPass-bind _ _ (guarded_real _ _ _ (λ e. fail-ne-pass)) (λ content.
          RunsNoPass-bind _ _ (RunsNoPass-lift _ (encode_path_real path))
            (λ name. RunsNoPass-bind _ _ (untracked_real root paths) (λ more. search pass_rules))))

  diff_input_real : (root : Text) (context : GitContext) → RunsNoPass (diff_input sys root context)
  unfolding diff_input diff_parts
  diff_input_real root context = search (call_rules, run_git_real, nul_paths_real) depth 30

  pub digest-RunsNoPass :
      (root : Text) (context : GitContext) (paths : List Text)
      → RunsNoPass (compute_diff_hash sys root context paths)
  unfolding compute_diff_hash
  digest-RunsNoPass root context paths =
      search (call_rules, diff_input_real, untracked_real) depth 30

  check_migrations_real : (a b c : List Text) → RaisesNoPass (check_migrations a b c)
  unfolding check_migrations
  check_migrations_real a b c = search pass_rules

  pub migrations-RunsNoPass :
      (root : Text) (context : GitContext) (paths : List Text)
      → RunsNoPass (validate_existing_migrations_immutable sys root context paths)
  unfolding validate_existing_migrations_immutable
  migrations-RunsNoPass root context paths =
      search (call_rules, name_status_real, nul_paths_real, check_migrations_real) depth 40

  pub policy-RunsNoPass : (path : Text) → RunsNoPass (load_risk_policy sys path)
  unfolding load_risk_policy
  policy-RunsNoPass path = search (call_rules, parse_risk_policy-RaisesNoPass) depth 20

  path_below_real : (root path : Text) → RaisesNoPass (path_below root path)
  unfolding path_below
  path_below_real root path = elim (Option-cases (relative_to path root)) [
    | inl e ↦ rw (e, path_below) (search pass_rules)
    | inr (inside, e) ↦ rw (e, path_below) (search pass_rules)
  ]

  pub plan-RunsNoPass :
      (root path : Text) (policy : RiskPolicy) → RunsNoPass (load_plan sys root path policy)
  unfolding load_plan
  plan-RunsNoPass root path policy =
      search (call_rules, path_below_real, parse_plan-RaisesNoPass) depth 40

  pub lock-RunsNoPass : (path : Text) → RunsNoPass (load_plan_lock sys path)
  unfolding load_plan_lock
  lock-RunsNoPass path = search (call_rules, parse_plan_lock-RaisesNoPass) depth 20

  pub clean-RunsNoPass :
      (root phase : Text) → RunsNoPass (validate_evaluate_clean_state sys root phase)
  unfolding validate_evaluate_clean_state
  clean-RunsNoPass root phase = search (call_rules, worktree_real) depth 20
