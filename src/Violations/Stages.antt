-- ===== src/Violations/Stages.antt =====
-- scripts/agent-harness.py: the rules of Effect.NoPass for the evidence paths and the stages of `evaluate`.
use coffee_order_system.Prelude.{Option, none, some, List, Text, inl, inr, Option-cases}
use coffee_order_system.Effect.{Exec}
use coffee_order_system.Effect.NoPass.{
  RaisesNoPass, RunsNoPass, RaisesNoPass-ok, fail-ne-pass, pass_rules,
}
use coffee_order_system.System.{
  System, Try, returned, raised, attempt, relative_to, Kind, directory, regular, symlink, special,
  file_not_found, file_exists, other_os_error, value_error, other_exception,
}
use coffee_order_system.Evidence.{
  strict_repository_root, require_root, directory_made, make_directory, kind_or_make,
  directory_kind, accept_path, remove_found, require_directory, require_regular, require_inside,
  ensure_safe_evidence_directory, safe_evidence_path, safe_evidence_lock_path,
  safe_evidence_evaluation_path, remove_stale_evidence, remove_stale_evaluation,
}
use coffee_order_system.Model.{RiskClassification, PlanLock}
use coffee_order_system.Checks.{RawChecks}
use coffee_order_system.Freshness.{read_final_identity}
use coffee_order_system.Evaluate.{
  Locals, on_world, assign, Subject, identify, measure, gate, run_checks, evaluate_body,
}
use coffee_order_system.Conclude.{start, recheck_lock_path, recheck_paths}
use coffee_order_system.Violations.Files.{
  validate_plan_lock-RaisesNoPass, validate_risk_declarations-RaisesNoPass,
  validate_contract_changes-RaisesNoPass, required_check_ids-RaisesNoPass,
}
use coffee_order_system.Violations.Calls.{
  attempt_real, call_rules, context-RunsNoPass, changed-RunsNoPass, digest-RunsNoPass,
  migrations-RunsNoPass, policy-RunsNoPass, plan-RunsNoPass, lock-RunsNoPass, clean-RunsNoPass,
}

on_world_real : {W A : Type 0} (call : Exec W A) → RunsNoPass call → RunsNoPass (on_world call)
on_world_real call h = record { at = λ s. h.at s.1 }

assign_real : {W : Type 0} (f : Locals → Locals) → RunsNoPass {S = Locals × W} (assign f)
assign_real f = record { at = λ s. RaisesNoPass-ok tt }

directory_only : (path : Text) (kind : Kind) → RaisesNoPass (require_directory path kind)
unfolding require_directory
directory_only path directory = search pass_rules
directory_only path regular = search pass_rules
directory_only path symlink = search pass_rules
directory_only path special = search pass_rules

regular_only : (path : Text) (kind : Kind) → RaisesNoPass (require_regular path kind)
unfolding require_regular
regular_only path directory = search pass_rules
regular_only path regular = search pass_rules
regular_only path symlink = search pass_rules
regular_only path special = search pass_rules

module _ (sys : System) where
  require_root_real : (path : Text) (kind : Kind) → RaisesNoPass (require_root sys path kind)
  unfolding require_root
  require_root_real path directory = search pass_rules
  require_root_real path regular = search pass_rules
  require_root_real path symlink = search pass_rules
  require_root_real path special = search pass_rules

  pub root_real : (root : Text) → RunsNoPass (strict_repository_root sys root)
  unfolding strict_repository_root
  root_real root = search (call_rules, require_root_real) depth 20

  inside_real :
      (root path : Text) (tried : Try Text) → RaisesNoPass (require_inside sys root path tried)
  unfolding require_inside
  inside_real root path (raised e) = attempt_real _ _ _ (λ m. fail-ne-pass)
  inside_real root path (returned resolved) = elim (Option-cases (relative_to resolved root)) [
    | inl e ↦ rw (e, require_inside) (search pass_rules)
    | inr (inside, e) ↦ rw (e, require_inside) (search pass_rules)
  ]

  directory_made_real :
      (path : Text) (made : Try Unit) → RaisesNoPass (directory_made sys path made)
  unfolding directory_made attempt
  directory_made_real path (returned x) = search pass_rules
  directory_made_real path (raised (file_exists e)) = search pass_rules
  directory_made_real path (raised (file_not_found e)) = search pass_rules
  directory_made_real path (raised (other_os_error e)) = search pass_rules
  directory_made_real path (raised (value_error e)) = search pass_rules
  directory_made_real path (raised (other_exception e)) = search pass_rules

  made_real : (path : Text) → RunsNoPass (make_directory sys path)
  unfolding make_directory
  made_real path = search (call_rules, directory_made_real) depth 20

  kind_or_make_real : (path : Text) (status : Try Kind) → RunsNoPass (kind_or_make sys path status)
  unfolding kind_or_make attempt
  kind_or_make_real path (returned x) = search pass_rules
  kind_or_make_real path (raised (file_exists e)) = search pass_rules
  kind_or_make_real path (raised (file_not_found e)) = made_real path
  kind_or_make_real path (raised (other_os_error e)) = search pass_rules
  kind_or_make_real path (raised (value_error e)) = search pass_rules
  kind_or_make_real path (raised (other_exception e)) = search pass_rules

  kind_real : (path : Text) → RunsNoPass (directory_kind sys path)
  unfolding directory_kind
  kind_real path = search (call_rules, kind_or_make_real)

  ensure_real : (root path : Text) → RunsNoPass (ensure_safe_evidence_directory sys root path)
  unfolding ensure_safe_evidence_directory
  ensure_real root path = search (call_rules, kind_real, directory_only, inside_real) depth 30

  accept_real : (path : Text) (status : Try Kind) → RaisesNoPass (accept_path sys path status)
  unfolding accept_path attempt
  accept_real path (returned x) = search (pass_rules, regular_only)
  accept_real path (raised (file_exists e)) = search pass_rules
  accept_real path (raised (file_not_found e)) = search pass_rules
  accept_real path (raised (other_os_error e)) = search pass_rules
  accept_real path (raised (value_error e)) = search pass_rules
  accept_real path (raised (other_exception e)) = search pass_rules

  path_real : (root filename : Text) → RunsNoPass (safe_evidence_path sys root filename)
  unfolding safe_evidence_path
  path_real root filename = search (call_rules, root_real, ensure_real, accept_real) depth 40

  found_real :
      (path label : Text) (status : Try Kind) → RunsNoPass (remove_found sys path label status)
  unfolding remove_found attempt
  found_real path label (returned regular) = search call_rules
  found_real path label (returned directory) = search call_rules
  found_real path label (returned symlink) = search call_rules
  found_real path label (returned special) = search call_rules
  found_real path label (raised (file_exists e)) = search pass_rules
  found_real path label (raised (file_not_found e)) = search pass_rules
  found_real path label (raised (other_os_error e)) = search pass_rules
  found_real path label (raised (value_error e)) = search pass_rules
  found_real path label (raised (other_exception e)) = search pass_rules

  pub removed_real : (path label : Text) → RunsNoPass (remove_stale_evidence sys path label)
  unfolding remove_stale_evidence
  removed_real path label = search (call_rules, found_real)

  pub lock_path_real : (root : Text) → RunsNoPass (safe_evidence_lock_path sys root)
  unfolding safe_evidence_lock_path
  lock_path_real root = path_real root _

  pub start-RunsNoPass : (root : Text) → RunsNoPass (start sys root)
  unfolding start remove_stale_evaluation safe_evidence_evaluation_path
  start-RunsNoPass root = search (call_rules, root_real, path_real, removed_real) depth 30

  recheck_lock_real :
      (root : Text) (lock : Option PlanLock) → RunsNoPass (recheck_lock_path sys root lock)
  unfolding recheck_lock_path
  recheck_lock_real root none = search pass_rules
  recheck_lock_real root (some lock) = search (call_rules, lock_path_real)

  pub recheck-RunsNoPass :
      (root evaluation_path : Text) (lock : Option PlanLock)
      → RunsNoPass (recheck_paths sys root evaluation_path lock)
  unfolding recheck_paths safe_evidence_evaluation_path
  recheck-RunsNoPass root evaluation_path lock =
      search (call_rules, path_real, recheck_lock_real) depth 30

  pub final_identity-RunsNoPass :
      (root plan_path : Text) → RunsNoPass (read_final_identity sys root plan_path)
  unfolding read_final_identity
  final_identity-RunsNoPass root plan_path =
      search
        (
          call_rules, clean-RunsNoPass, policy-RunsNoPass, plan-RunsNoPass, context-RunsNoPass,
          changed-RunsNoPass, digest-RunsNoPass,
        )
        depth 60

  ruleset stage_rules = (call_rules, on_world_real, assign_real)

  identify_real : (root plan_path : Text) → RunsNoPass (identify sys root plan_path)
  unfolding identify
  identify_real root plan_path =
      search
        (
          stage_rules, clean-RunsNoPass, policy-RunsNoPass, plan-RunsNoPass, context-RunsNoPass,
          lock_path_real, lock-RunsNoPass, validate_plan_lock-RaisesNoPass,
        )
        depth 80

  measure_real :
      (root plan_path : Text) (subject : Subject) → RunsNoPass (measure sys root plan_path subject)
  unfolding measure
  measure_real root plan_path subject =
      search (stage_rules, changed-RunsNoPass, digest-RunsNoPass, migrations-RunsNoPass) depth 60

  gate_real :
      (root plan_path : Text) (subject : Subject) (changed : List Text)
      → RunsNoPass (gate sys root plan_path subject changed)
  unfolding gate
  gate_real root plan_path subject changed =
      search
        (
          stage_rules, validate_risk_declarations-RaisesNoPass,
          validate_contract_changes-RaisesNoPass,
        )
        depth 80

  module _ (check_runner : List Text → Exec sys.machine.World RawChecks) where
    checks_real :
        (root plan_path : Text) (subject : Subject) (c : RiskClassification)
        → ((ids : List Text) → RunsNoPass (check_runner ids))
        → RunsNoPass (run_checks sys root plan_path check_runner subject c)
    unfolding run_checks
    checks_real root plan_path subject c h =
        search (stage_rules, required_check_ids-RaisesNoPass, h) depth 40

    -- Nothing in the `try` block of `evaluate` raises a violation in state PASS, where the check runner raises none.
    pub evaluate_body-RunsNoPass :
        (root plan_path : Text)
        → ((ids : List Text) → RunsNoPass (check_runner ids))
        → RunsNoPass (evaluate_body sys root plan_path check_runner)
    unfolding evaluate_body
    evaluate_body-RunsNoPass root plan_path h =
        search (pass_rules, identify_real, measure_real, gate_real, checks_real _ _ _ _ h) depth 30
