-- ===== src/Evaluate.antt =====
-- scripts/agent-harness.py: `evaluate`, `_evaluation_from_values` and `Evaluation`. The local variables
-- that the handlers read after a raise are a part of the state.
use coffee_order_system.Prelude.{
  ℕ, not, Option, none, some, List, [], ◌∷◌, ◌++◌, ◌==◌, text_eq, texts_eq, Text, txt,
}
use coffee_order_system.Outcome.{
  Result, ok, violation, exception, about, values, HarnessViolation, violation_of, replan_required,
  State, CheckResult, plain_check, reject_if,
}
use coffee_order_system.Outcome.Aggregate.{aggregate_state}
use coffee_order_system.Model.{Plan, GitContext, RiskPolicy, RiskClassification, PlanLock}
use coffee_order_system.Gate.{
  scope_violations, classify_risks, validate_risk_declarations, validate_contract_changes,
}
use coffee_order_system.LockFile.{validate_plan_lock}
use coffee_order_system.Checks.{RawChecks, required_check_ids, validate_check_runner_results}
use coffee_order_system.Effect.{Exec, ◌>>=◌, ◌>>◌, lift, give}
use coffee_order_system.System.{System}
use coffee_order_system.Git.{
  resolve_local_git_context, collect_local_changed_paths, compute_diff_hash,
}
use coffee_order_system.Migrations.{validate_existing_migrations_immutable}
use coffee_order_system.Evidence.{safe_evidence_lock_path}
use coffee_order_system.Loading.{
  load_risk_policy, load_plan, load_plan_lock, policy_path, validate_evaluate_clean_state,
}
use coffee_order_system.Prepare.{check_of, internal_check}

pub record Evaluation : Type 0 where
  pub schema_version : ℕ
  pub state : State
  pub base_tip_sha : Option Text
  pub merge_base_sha : Option Text
  pub candidate_head_sha : Option Text
  pub tested_revision_sha : Option Text
  pub plan_path : Text
  pub plan_hash : Option Text
  pub declared_risks : List Text
  pub detected_risks : List Text
  pub changed_paths : List Text
  pub diff_hash : Option Text
  pub checks : List CheckResult

-- The local variables of `evaluate` that a raise leaves as they are.
pub record Locals : Type 0 where
  pub checks : List CheckResult
  pub plan : Option Plan
  pub context : Option GitContext
  pub lock : Option PlanLock
  pub classification : Option RiskClassification
  pub changed_paths : List Text
  pub diff_hash : Option Text

abbrev pub no_locals : Locals
no_locals = record {
  checks = [];
  plan = none;
  context = none;
  lock = none;
  classification = none;
  changed_paths = [];
  diff_hash = none;
}

abbrev pub add_check : CheckResult → Locals → Locals
add_check check l = record l { checks = l.checks ++ (check ∷ []) }

abbrev pub add_checks : List CheckResult → Locals → Locals
add_checks checks l = record l { checks = l.checks ++ checks }

abbrev pub from : {A B : Type 0} → Option A → (A → B) → Option B
from none f = none
from (some a) f = some (f a)

abbrev pub either : {A B : Type 0} → Option A → B → (A → B) → B
either none b f = b
either (some a) b f = f a

-- `_evaluation_from_values`
unfoldable pub evaluation_from_values : Text → Locals → Evaluation
evaluation_from_values plan_path l = record {
  schema_version = 1;
  state = aggregate_state l.checks;
  base_tip_sha = from l.context (λ c. c.base_tip_sha);
  merge_base_sha = from l.context (λ c. c.merge_base_sha);
  candidate_head_sha = from l.context (λ c. c.candidate_head_sha);
  tested_revision_sha = from l.context (λ c. c.tested_revision_sha);
  plan_path = either l.plan plan_path (λ p. p.relative_path);
  plan_hash = from l.plan (λ p. p.plan_hash);
  declared_risks = either l.plan [] (λ p. p.declared_risks);
  detected_risks = either l.classification [] (λ c. c.detected_risks);
  changed_paths = l.changed_paths;
  diff_hash = l.diff_hash;
  checks = l.checks;
}

-- A call that leaves the local variables alone, and an assignment to them.
abbrev pub on_world : {W A : Type 0} → Exec W A → Exec (Locals × W) A
on_world call (l, w) = let (r, w') = call w in (r, (l, w'))

abbrev pub assign : {W : Type 0} → (Locals → Locals) → Exec (Locals × W) (Unit {0})
assign f (l, w) = (ok tt, (f l, w))

abbrev pub passed_check : Text → CheckResult
passed_check id = plain_check id State.pass (about id)

abbrev pub note_pass : {W : Type 0} → Text → Exec (Locals × W) (Unit {0})
note_pass id = assign (add_check (passed_check id))

abbrev pub outside_error : List Text → HarnessViolation
outside_error outside_paths =
    violation_of replan_required (txt "scope.allowed-paths")
      (values (txt "outside the allowed paths") outside_paths)

abbrev pub unclassified_error : List Text → HarnessViolation
unclassified_error paths =
    violation_of replan_required (txt "risk.classification")
      (values (txt "unclassified paths") paths)

abbrev pub add_error : Option CheckResult → Locals → Locals
add_error none l = l
add_error (some error) l = add_check error l

-- The policy, the plan and the context of an evaluation.
pub record Subject : Type 0 where
  pub policy : RiskPolicy
  pub plan : Plan
  pub context : GitContext

module _ (sys : System) (root plan_path : Text) where
  open sys use {machine}
  open machine use {World}

  -- The first part of the `try` block: the identity and the lock.
  unfoldable pub identify : Exec (Locals × World) Subject
  identify = do
    on_world (validate_evaluate_clean_state sys root (txt "start"))
    policy ← on_world (load_risk_policy sys (policy_path sys root))
    plan ← on_world (load_plan sys root plan_path policy)
    assign (λ l. record l { plan = some plan })
    context ← on_world (resolve_local_git_context sys root plan)
    assign (λ l. record l { context = some context })
    lock_path ← on_world (safe_evidence_lock_path sys root)
    lock ← on_world (load_plan_lock sys lock_path)
    assign (λ l. record l { lock = some lock })
    lift (validate_plan_lock lock plan context)
    note_pass (txt "plan.lock")
    give (record { policy = policy; plan = plan; context = context })

  -- The second part: the changed paths, the digest and the migrations.
  unfoldable pub measure : Subject → Exec (Locals × World) (List Text)
  measure subject = do
    changed_paths ← on_world (collect_local_changed_paths sys root subject.context.merge_base_sha)
    assign (λ l. record l { changed_paths = changed_paths })
    diff_hash ← on_world (compute_diff_hash sys root subject.context changed_paths)
    assign (λ l. record l { diff_hash = some diff_hash })
    on_world (validate_existing_migrations_immutable sys root subject.context changed_paths)
    note_pass (txt "migration.immutable")
    give changed_paths

  -- The third part: scope, risks and contract changes.
  unfoldable pub gate : Subject → List Text → Exec (Locals × World) RiskClassification
  gate subject changed_paths = do
    let outside_paths = scope_violations changed_paths subject.plan
    lift (reject_if (not (outside_paths == [])) (outside_error outside_paths))
    note_pass (txt "scope.allowed-paths")
    let classification = classify_risks changed_paths subject.policy subject.plan.relative_path
    assign (λ l. record l { classification = some classification })
    lift (
        reject_if (not (classification.unclassified_paths == []))
          (unclassified_error classification.unclassified_paths))
    note_pass (txt "risk.classification")
    lift (validate_risk_declarations subject.plan classification)
    note_pass (txt "risk.declaration")
    lift (validate_contract_changes changed_paths subject.plan subject.policy)
    note_pass (txt "trust-root.contract")
    give classification

  -- The last part: the required checks.
  unfoldable pub run_checks :
      (List Text → Exec World RawChecks)
      → Subject
      → RiskClassification
      → Exec (Locals × World) (Unit {0})
  run_checks check_runner subject classification = do
    requested_ids ← lift (required_check_ids subject.plan classification subject.policy)
    raw ← on_world (check_runner requested_ids)
    let outcome = validate_check_runner_results raw requested_ids
    assign (add_checks outcome.0)
    assign (add_error outcome.1)

  unfoldable pub evaluate_body :
      (List Text → Exec World RawChecks) → Exec (Locals × World) (Unit {0})
  unfolding identify measure gate run_checks
  evaluate_body check_runner = do
    subject ← identify
    changed_paths ← measure subject
    classification ← gate subject changed_paths
    run_checks check_runner subject classification

-- The handlers of the `try` block.
unfoldable pub note_raise : Result (Unit {0}) → Locals → Locals
note_raise (ok u) l = l
note_raise (violation error) l = add_check (check_of error) l
note_raise (exception error) l = add_check (internal_check error) l
