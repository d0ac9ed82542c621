-- ===== src/Loading.antt =====
-- scripts/agent-harness.py: the reading of the files and the tests for a clean worktree.
use coffee_order_system.Prelude.{
  not, none, some, [], ◌==◌, text_eq, texts_eq, nat_eq, if◌then◌else◌, Text, txt, keep, starts_with,
}
use coffee_order_system.Outcome.{
  Result, ok, violation, value, values, HarnessViolation, violation_of, fail, replan_required,
  reject_if,
}
use coffee_order_system.Model.{Plan, RiskPolicy, PlanLock}
use coffee_order_system.PlanFile.{parse_plan}
use coffee_order_system.PolicyFile.{policy_error, parse_risk_policy}
use coffee_order_system.LockFile.{plan_lock_error, parse_plan_lock}
use coffee_order_system.Effect.{Exec, ◌>>=◌, lift}
use coffee_order_system.System.{
  System, is_os_error, is_os_or_value_error, act, guarded, join_path, relative_to,
}
use coffee_order_system.Git.{collect_worktree_paths}

abbrev policy_unreadable : Text → HarnessViolation
policy_unreadable error = policy_error (value (txt "cannot read policy") error)

abbrev plan_unreadable : Text → HarnessViolation
plan_unreadable error = violation_of fail (txt "plan.path") (value (txt "cannot read plan") error)

abbrev lock_unreadable : Text → HarnessViolation
lock_unreadable error = plan_lock_error (value (txt "cannot read plan lock") error)

-- The `ValueError` of `relative_to` is caught with the others.
unfoldable pub path_below : Text → Text → Result Text
unfolding relative_to
path_below resolved_root resolved_plan = elim (relative_to resolved_plan resolved_root) [
  | none ↦ violation (plan_unreadable (txt "not below the root"))
  | some relative_path ↦ ok relative_path
]

module _ (sys : System) where
  open sys use {machine, library, resolve, resolve_any, read_bytes}
  open machine use {World}

  unfoldable pub load_risk_policy : Text → Exec World RiskPolicy
  load_risk_policy path = do
    raw ← guarded is_os_error policy_unreadable (read_bytes path)
    lift (parse_risk_policy library raw)

  unfoldable pub load_plan : Text → Text → RiskPolicy → Exec World Plan
  unfolding path_below join_path
  load_plan root plan_path policy = do
    resolved_root ← act (resolve_any root)
    let candidate =
        if starts_with plan_path (txt "/") then plan_path else join_path resolved_root plan_path
    resolved_plan ← guarded is_os_or_value_error plan_unreadable (resolve candidate)
    relative_path ← lift (path_below resolved_root resolved_plan)
    raw ← guarded is_os_or_value_error plan_unreadable (read_bytes resolved_plan)
    lift (parse_plan library raw relative_path policy.known_risks)

  unfoldable pub load_plan_lock : Text → Exec World PlanLock
  load_plan_lock path = do
    raw ← guarded is_os_error lock_unreadable (read_bytes path)
    lift (parse_plan_lock library raw)

  -- `root / "harness" / "risk-policy.json"`
  abbrev pub policy_path : Text → Text
  policy_path root = join_path (join_path root (txt "harness")) (txt "risk-policy.json")

  unfoldable pub validate_prepare_clean_state : Text → Plan → Exec World (Unit {0})
  validate_prepare_clean_state root plan = do
    dirty_paths ← collect_worktree_paths sys root
    let unexpected_paths = keep (λ path. not (path == plan.relative_path)) dirty_paths
    lift (
        reject_if (not (unexpected_paths == [])) (
          violation_of replan_required (txt "git.clean")
            (values (txt "changes beside the plan") unexpected_paths)))

  unfoldable pub validate_evaluate_clean_state : Text → Text → Exec World (Unit {0})
  validate_evaluate_clean_state root phase = do
    dirty_paths ← collect_worktree_paths sys root
    lift (
        reject_if (not (dirty_paths == []))
          (violation_of replan_required (txt "git.clean") (values phase dirty_paths)))
