-- ===== src/Prepare.antt =====
-- scripts/agent-harness.py: `prepare`.
pub mod Files
pub mod Locked
use coffee_order_system.Prelude.{
  Option, none, some, List, [], ◌∷◌, ◌++◌, ◌==◌, text_eq, if◌then◌else◌, Text, txt,
}
use coffee_order_system.Outcome.{
  Result, ok, violation, exception, about, value, HarnessViolation, fail, State, state_eq,
  CheckResult, plain_check,
}
use coffee_order_system.Model.{Plan, GitContext, PlanLock}
use coffee_order_system.Json.{obj}
use coffee_order_system.LockFile.{make_plan_lock, plan_lock_payload, validate_plan_lock}
use coffee_order_system.Checks.{RawChecks, validate_preflight_results}
use coffee_order_system.Effect.{Exec, ◌>>=◌, ◌>>◌, lift, give}
use coffee_order_system.System.{System}
use coffee_order_system.Git.{resolve_local_git_context}
use coffee_order_system.Evidence.{
  strict_repository_root, remove_stale_plan_lock, safe_evidence_lock_path, write_json_atomic,
}
use coffee_order_system.Loading.{
  load_risk_policy, load_plan, policy_path, validate_prepare_clean_state,
}

-- The result of a violation, and of any other exception.
abbrev pub check_of : HarnessViolation → CheckResult
check_of error = plain_check error.check_id error.state error.reason

abbrev pub internal_check : Text → CheckResult
internal_check error = plain_check (txt "harness.internal") fail (value (txt "exception") error)

-- The first check that did not pass.
unfoldable pub first_unpassed : List CheckResult → Option CheckResult
first_unpassed [] = none
first_unpassed (check ∷ checks) =
    let rest = first_unpassed checks in if check.state == State.pass then rest else some check

abbrev pub prepare_check : CheckResult
prepare_check = plain_check (txt "prepare") State.pass (about (txt "locked"))

abbrev pub Report : Type 0
Report = State × List CheckResult

-- The handlers of `prepare`.
abbrev pub report_of : Result Report → Report
report_of (ok report) = report
report_of (violation error) = (error.state, check_of error ∷ [])
report_of (exception error) = (fail, internal_check error ∷ [])

module _ (sys : System) where
  open sys use {machine}
  open machine use {World}

  -- What `prepare` reads, once before the preflight and once after it.
  unfoldable pub read_identity : Text → Text → Exec World (Plan × GitContext)
  unfolding load_risk_policy load_plan
  read_identity root plan_path = do
    policy ← load_risk_policy sys (policy_path sys root)
    plan ← load_plan sys root plan_path policy
    context ← resolve_local_git_context sys root plan
    give (plan, context)

  -- The part behind a preflight that passed.
  unfoldable pub write_lock : Text → Text → PlanLock → List CheckResult → Exec World Report
  unfolding read_identity
  write_lock root plan_path initial_snapshot environment_checks = do
    current ← read_identity root plan_path
    validate_prepare_clean_state sys root current.0
    lift (validate_plan_lock initial_snapshot current.0 current.1)
    lock_path ← safe_evidence_lock_path sys root
    write_json_atomic sys lock_path (obj (plan_lock_payload (make_plan_lock current.0 current.1)))
    give (State.pass, environment_checks ++ (prepare_check ∷ []))

  -- The return behind the first check that did not pass, or the rest.
  unfoldable pub after_preflight :
      Text → Text → PlanLock → List CheckResult → Option CheckResult → Exec World Report
  unfolding write_lock
  after_preflight root plan_path initial_snapshot environment_checks (some check) =
      give (check.state, environment_checks)
  after_preflight root plan_path initial_snapshot environment_checks none =
      write_lock root plan_path initial_snapshot environment_checks

  unfoldable pub prepare_body : Text → Text → (Text → Exec World RawChecks) → Exec World Report
  unfolding after_preflight first_unpassed
  prepare_body root plan_path preflight = do
    resolved_root ← strict_repository_root sys root
    lock_path ← remove_stale_plan_lock sys resolved_root
    initial ← read_identity resolved_root plan_path
    let initial_snapshot = make_plan_lock initial.0 initial.1
    validate_prepare_clean_state sys resolved_root initial.0
    raw ← preflight resolved_root
    environment_checks ← lift (validate_preflight_results raw)
    after_preflight resolved_root plan_path initial_snapshot environment_checks
        (first_unpassed environment_checks)

  unfoldable pub prepare : Text → Text → (Text → Exec World RawChecks) → World → Report × World
  unfolding prepare_body
  prepare root plan_path preflight w =
      let (r, w') = prepare_body root plan_path preflight w in (report_of r, w')
