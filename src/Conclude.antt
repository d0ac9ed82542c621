-- ===== src/Conclude.antt =====
-- scripts/agent-harness.py: `Evaluation.to_dict`, the end of `evaluate` and the whole of it, and `main`.
use coffee_order_system.Prelude.{
  not, Option, none, some, List, [], ◌∷◌, ◌==◌, text_eq, Text, txt, ℤ,
}
use coffee_order_system.Outcome.{
  Result, ok, violation, exception, Reason, about, value, caused, HarnessViolation, fail, blocked,
  replan_required, State, CheckResult, plain_check, reject_if,
}
use coffee_order_system.Json.{Json, null, int, str, arr, obj, Items, nil, cons, Fields, end}
use coffee_order_system.Model.{Plan, GitContext, PlanLock}
use coffee_order_system.LockFile.{validate_plan_lock, plan_lock_payload}
use coffee_order_system.Checks.{RawChecks}
use coffee_order_system.Effect.{Exec, ◌>>=◌, ◌>>◌, lift, give}
use coffee_order_system.System.{System, join_path}
use coffee_order_system.Evidence.{
  strict_repository_root, remove_stale_evaluation, safe_evidence_lock_path,
  safe_evidence_evaluation_path, write_json_atomic, evidence_path_error,
}
use coffee_order_system.Prepare.{check_of}
use coffee_order_system.Freshness.{Identity, freshness_check}
use coffee_order_system.Evaluate.{
  Evaluation, Locals, no_locals, add_check, evaluation_from_values, evaluate_body, note_raise,
}

-- `state.name`
unfoldable pub state_name : State → Text
state_name State.pass = txt "PASS"
state_name fail = txt "FAIL"
state_name blocked = txt "BLOCKED"
state_name replan_required = txt "REPLAN_REQUIRED"

abbrev optional_text : Option Text → Json
optional_text none = null
optional_text (some t) = str t

abbrev optional_number : Option ℤ → Json
optional_number none = null
optional_number (some i) = int i

abbrev text_items : List Text → Items
text_items [] = nil
text_items (t ∷ ts) = cons (str t) (text_items ts)

unfoldable pub check_payload : (Reason → Text) → CheckResult → Json
unfolding state_name
check_payload wording check = obj (
    Fields.field (txt "id") (str check.check_id) (
      Fields.field (txt "state") (str (state_name check.state)) (
        Fields.field (txt "reason") (str (wording check.reason)) (
          Fields.field (txt "command") (arr (text_items check.command)) (
            Fields.field (txt "exitCode") (optional_number check.exit_code)
              (Fields.field (txt "durationMs") (optional_number check.duration_ms) end))))))

unfoldable pub check_items : (Reason → Text) → List CheckResult → Items
unfolding check_payload
check_items wording [] = nil
check_items wording (check ∷ checks) =
    cons (check_payload wording check) (check_items wording checks)

-- `Evaluation.to_dict`
unfoldable pub to_dict : (Reason → Text) → Evaluation → Json
unfolding state_name check_items
to_dict wording e = obj (
    Fields.field (txt "schemaVersion") (int (ℤ.pos e.schema_version)) (
      Fields.field (txt "state") (str (state_name e.state)) (
        Fields.field (txt "baseTipSha") (optional_text e.base_tip_sha) (
          Fields.field (txt "mergeBaseSha") (optional_text e.merge_base_sha) (
            Fields.field (txt "candidateHeadSha") (optional_text e.candidate_head_sha) (
              Fields.field (txt "testedRevisionSha") (optional_text e.tested_revision_sha) (
                Fields.field (txt "planPath") (str e.plan_path) (
                  Fields.field (txt "planHash") (optional_text e.plan_hash) (
                    Fields.field (txt "declaredRisks") (arr (text_items e.declared_risks)) (
                      Fields.field (txt "detectedRisks") (arr (text_items e.detected_risks)) (
                        Fields.field (txt "changedPaths") (arr (text_items e.changed_paths)) (
                          Fields.field (txt "diffHash") (optional_text e.diff_hash) (
                            Fields.field (txt "checks") (arr (check_items wording e.checks))
                              end)))))))))))))

-- What `evaluate` knows at its end: the local variables, and the lock if it is to be written again.
abbrev pub Ending : Type 0
Ending = Locals × Option PlanLock

-- The identity that a freshness check compares, when all of it was read.
unfoldable pub identity_of : Locals → Option Identity
identity_of l = elim l.plan [
  | none ↦ none
  | some plan ↦ elim l.context [
    | none ↦ none
    | some context ↦ elim l.diff_hash [
      | none ↦ none
      | some diff_hash ↦ some (record {
        plan = plan;
        context = context;
        changed_paths = l.changed_paths;
        diff_hash = diff_hash;
      })
    ]
  ]
]

abbrev restore_id : Text
restore_id = txt "plan.lock.restore"

-- The end of a test of the lock against the ending identity. It raises violations only.
unfoldable pub restore_of : PlanLock → Locals → Result (Unit {0}) → Ending
restore_of lock l (ok u) = (l, some lock)
restore_of lock l (violation error) = (
  add_check (plain_check restore_id error.state (caused (txt "stale plan lock") [] error.reason)) l,
  none,
)
restore_of lock l (exception error) = (l, none)

unfoldable pub restore_with : Option PlanLock → Option (Plan × GitContext) → Locals → Ending
unfolding restore_of
restore_with none ending l = (l, none)
restore_with (some lock) none l =
    (add_check (plain_check restore_id blocked (about (txt "no ending plan"))) l, none)
restore_with (some lock) (some (plan, context)) l =
    restore_of lock l (validate_plan_lock lock plan context)

unfoldable pub restore_lock : Option (Plan × GitContext) → Locals → Ending
unfolding restore_with
restore_lock ending l = restore_with l.lock ending l

abbrev write_error : Text → CheckResult
write_error error =
    plain_check (txt "evidence.write") fail (value (txt "cannot write evaluation") error)

abbrev path_check : Text → CheckResult
path_check error = plain_check (txt "evidence.path") fail (value (txt "exception") error)

abbrev moved : Text → HarnessViolation
moved what = evidence_path_error (value (txt "path changed") what)

module _ (sys : System) where
  open sys use {machine, wording}
  open machine use {World}

  -- The freshness check runs when the identity is known.
  unfoldable pub freshen :
      Option Identity → Text → Text → Locals → World → (Locals × Option (Plan × GitContext)) × World
  freshen none root plan_path l w = ((l, none), w)
  freshen (some before) root plan_path l w =
      let (fresh, w') = freshness_check sys root plan_path before w in
      ((add_check fresh.0 l, fresh.1), w')

  unfoldable pub check_freshness :
      Text → Text → Locals → World → (Locals × Option (Plan × GitContext)) × World
  unfolding identity_of freshen
  check_freshness root plan_path l w = freshen (identity_of l) root plan_path l w

  abbrev lock_path_of : Text → Text
  lock_path_of root =
      join_path (join_path (join_path root (txt "build")) (txt "harness")) (txt "plan.lock.json")

  unfoldable pub recheck_lock_path : Text → Option PlanLock → Exec World (Unit {0})
  recheck_lock_path root none = give tt
  recheck_lock_path root (some lock) = do
    final_lock_path ← safe_evidence_lock_path sys root
    lift (reject_if (not (final_lock_path == lock_path_of root)) (moved (txt "plan lock")))

  -- The paths are checked again before anything is written.
  unfoldable pub recheck_paths : Text → Text → Option PlanLock → Exec World (Unit {0})
  unfolding recheck_lock_path
  recheck_paths root evaluation_path restore = do
    final_evaluation_path ← safe_evidence_evaluation_path sys root
    lift (reject_if (not (final_evaluation_path == evaluation_path)) (moved (txt "evaluation")))
    recheck_lock_path root restore

  unfoldable pub write_lock_again : Text → Option PlanLock → Exec World (Unit {0})
  write_lock_again root none = give tt
  write_lock_again root (some lock) =
      write_json_atomic sys (lock_path_of root) (obj (plan_lock_payload lock))

  unfoldable pub write_evidence : Text → Text → Option PlanLock → Evaluation → Exec World (Unit {0})
  unfolding write_lock_again
  write_evidence root evaluation_path restore evaluation = do
    write_lock_again root restore
    write_json_atomic sys evaluation_path (to_dict wording evaluation)

  -- What `evaluate` returns after its attempt to write.
  unfoldable pub written : Text → Locals → Result (Unit {0}) → Evaluation
  written plan_path l (ok u) = evaluation_from_values plan_path l
  written plan_path l (violation error) =
      evaluation_from_values plan_path
        (add_check (plain_check (txt "evidence.write") fail error.reason) l)
  written plan_path l (exception error) =
      evaluation_from_values plan_path (add_check (write_error error) l)

  -- From the second test of the paths on.
  unfoldable pub finish_paths :
      Text → Text → Text → Ending → Result (Unit {0}) → World → Evaluation × World
  unfolding write_evidence written
  finish_paths root plan_path evaluation_path (l, restore) (ok u) w =
      let (r, w') =
        write_evidence root evaluation_path restore (evaluation_from_values plan_path l) w in
      (written plan_path l r, w')
  finish_paths root plan_path evaluation_path (l, restore) (violation error) w =
      (evaluation_from_values plan_path (add_check (check_of error) l), w)
  finish_paths root plan_path evaluation_path (l, restore) (exception error) w =
      (evaluation_from_values plan_path (add_check (path_check error) l), w)

  -- Everything behind the `try` block.
  unfoldable pub conclude : Text → Text → Text → Locals → World → Evaluation × World
  unfolding check_freshness restore_lock recheck_paths finish_paths
  conclude root plan_path evaluation_path l w =
      let (fresh, w1) = check_freshness root plan_path l w in
      let ending = restore_lock fresh.1 fresh.0 in
      let (paths, w2) = recheck_paths root evaluation_path ending.1 w1 in
      finish_paths root plan_path evaluation_path ending paths w2

  -- The first `try` block: the root and the path of the evaluation.
  unfoldable pub start : Text → Exec World (Text × Text)
  start root = do
    resolved_root ← strict_repository_root sys root
    evaluation_path ← remove_stale_evaluation sys resolved_root
    give (resolved_root, evaluation_path)

  unfoldable pub after_start :
      Text
      → (Text → List Text → Exec World RawChecks)
      → Result (Text × Text)
      → World
      → Evaluation × World
  unfolding conclude
  after_start plan_path check_runner (ok (root, evaluation_path)) w =
      let (r, s) = evaluate_body sys root plan_path (check_runner root) (no_locals, w) in
      conclude root plan_path evaluation_path (note_raise r s.0) s.1
  after_start plan_path check_runner (violation error) w =
      (evaluation_from_values plan_path (note_raise (violation error) no_locals), w)
  after_start plan_path check_runner (exception error) w =
      (evaluation_from_values plan_path (note_raise (exception error) no_locals), w)

  unfoldable pub evaluate :
      Text → Text → (Text → List Text → Exec World RawChecks) → World → Evaluation × World
  unfolding start after_start
  evaluate root plan_path check_runner w =
      let (r, w') = start root w in after_start plan_path check_runner r w'
