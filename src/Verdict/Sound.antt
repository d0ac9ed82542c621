-- ===== src/Verdict/Sound.antt =====
-- scripts/agent-harness.py, `evaluate`: an evaluation in state PASS.
use coffee_order_system.Prelude.{◌≡◌, refl, ap, sym, ◌∙◌, subst, Option, some, List, Text, arith}
use coffee_order_system.Outcome.{Result, ok, violation, exception, State, plain_check}
use coffee_order_system.Model.{RiskClassification, PlanLock}
use coffee_order_system.Checks.{RawChecks, ids, validate_check_runner_results}
use coffee_order_system.Checks.Contract.{IsComplete}
use coffee_order_system.Effect.{Exec, bind-eq-ok}
use coffee_order_system.Effect.NoPass.{RaisesNoPass, RunsNoPass}
use coffee_order_system.System.{System}
use coffee_order_system.Prepare.{check_of, internal_check}
use coffee_order_system.Freshness.{Identity}
use coffee_order_system.Freshness.Same.{IsSame}
use coffee_order_system.Evaluate.{
  Evaluation, Locals, no_locals, add_checks, Subject, identify, measure, gate, evaluate_body,
  note_raise,
}
use coffee_order_system.Conclude.{
  recheck_paths, write_evidence, conclude, start, after_start, evaluate,
}
use coffee_order_system.Violations.Stages.{evaluate_body-RunsNoPass, start-RunsNoPass}
use coffee_order_system.Verdict.Again.{ReadAgain}
use coffee_order_system.Verdict.Body.{
  Identified, Measured, Gated, Ran, identify-eq-ok, measure-eq-ok, gate-eq-ok, run_checks-eq-ok,
}
use coffee_order_system.Verdict.Results.{
  AllPassed, last_check, evaluation-AllPassed, results-AllPassed, results-IsComplete,
}
use coffee_order_system.Verdict.Conclusion.{conclude-Concluded, conclude-AllPassed}
use coffee_order_system.Verdict.Records.{
  Records, facts, facts-add_error, known_identity, known-Records,
}

module _ (sys : System) (root plan_path : Text) where
  open sys use {machine}
  open machine use {World}

  -- All that was read, checked and run from `w` to `w'` for an evaluation that passed, one step after the other.
  pub record Accepted (evaluation_path : Text) (check_runner : List Text → Exec World RawChecks)
      (w : World) (e : Evaluation) (w' : World) : Type 0 where
    pub subject : Subject
    pub changed_paths : List Text
    pub classification : RiskClassification
    pub s1 : Locals × World
    pub s2 : Locals × World
    pub s3 : Locals × World
    pub s4 : Locals × World
    pub identified : Identified sys root plan_path subject (no_locals, w) s1
    pub measured : Measured sys root plan_path subject changed_paths s1 s2
    pub gated : Gated sys root plan_path subject changed_paths classification s2 s3
    pub ran : Ran sys root plan_path check_runner subject classification s3 s4
    pub complete :
        IsComplete
          (ids (validate_check_runner_results ran.raw ran.requested_ids).0)
          ran.requested_ids
    pub passed : AllPassed (validate_check_runner_results ran.raw ran.requested_ids).0
    pub final : Identity
    pub w1 : World
    pub read_again : ReadAgain sys root plan_path final s4.1 w1
    pub same :
        IsSame
          (record {
            plan = subject.plan;
            context = subject.context;
            changed_paths = changed_paths;
            diff_hash = measured.diff_hash;
          })
          final
    pub recorded : Records subject changed_paths measured.diff_hash classification e
    pub lock_again : Option PlanLock
    pub w2 : World
    pub rechecked : recheck_paths sys root evaluation_path lock_again w1 ≡ (ok tt, w2)
    pub kept : write_evidence sys root evaluation_path lock_again e w2 ≡ (ok tt, w')

  module _ (evaluation_path : Text) (check_runner : List Text → Exec World RawChecks) where
    facts_lem :
        {s : Subject} {paths : List Text} {c : RiskClassification} {w : World}
        {s1 s2 s3 s4 : Locals × World}
        → Identified sys root plan_path s (no_locals, w) s1
        → (m : Measured sys root plan_path s paths s1 s2) → Gated sys root plan_path s paths c s2 s3
        → Ran sys root plan_path check_runner s c s3 s4
        → facts s4.0 ≡ (some s.plan, some s.context, some c, paths, some m.diff_hash)
    facts_lem {s} {paths} {c} {w} {s1} {s2} {s3} {s4} i m g r =
        ap facts r.after
        ∙ facts-add_error _ (add_checks _ s3.0)
        ∙ ap facts g.after
        ∙ ap (λ (l : Locals). (l.plan, l.context, some c, l.changed_paths, l.diff_hash)) m.after
        ∙ ap (λ (l : Locals). (l.plan, l.context, some c, paths, some m.diff_hash)) i.after

    body-Accepted :
        (w : World) (l : Locals) (w1 : World)
        → evaluate_body sys root plan_path check_runner (no_locals, w) ≡ (ok tt, (l, w1))
        → (conclude sys root plan_path evaluation_path l w1).0.state ≡ State.pass
        → Accepted evaluation_path check_runner w
            (conclude sys root plan_path evaluation_path l w1).0
            (conclude sys root plan_path evaluation_path l w1).1
    unfolding evaluate_body
    body-Accepted w l w1 returned h =
        let (s, s1, identified, h1) =
          bind-eq-ok (identify sys root plan_path) _ (no_locals, w) returned in
        let (paths, s2, measured, h2) = bind-eq-ok (measure sys root plan_path s) _ s1 h1 in
        let (c, s3, gated, h3) = bind-eq-ok (gate sys root plan_path s paths) _ s2 h2 in
        let i = identify-eq-ok sys root plan_path no_locals w identified in
        let m = measure-eq-ok sys root plan_path s s1.0 s1.1 measured in
        let g = gate-eq-ok sys root plan_path s paths s2.0 s2.1 gated in
        let r = run_checks-eq-ok sys root plan_path check_runner s c s3.0 s3.1 h3 in
        let known = facts_lem i m g r in
        let end =
          conclude-Concluded sys root plan_path evaluation_path _ l w1 (known_identity l known) h in
        let (none_left, passed, before) =
          results-AllPassed r.raw r.requested_ids s3.0
            (subst (λ (k : Locals). AllPassed k.checks) r.after end.passed) in
        record {
          subject = s;
          changed_paths = paths;
          classification = c;
          s1 = s1;
          s2 = s2;
          s3 = s3;
          s4 = (l, w1);
          identified = i;
          measured = m;
          gated = g;
          ran = r;
          complete = results-IsComplete r.raw r.requested_ids none_left;
          passed = passed;
          final = end.after;
          w1 = end.w1;
          read_again = end.read_again;
          same = end.same;
          recorded =
              subst (Records s paths m.diff_hash c) (sym end.made)
                (known-Records plan_path end.check l s paths m.diff_hash c known);
          lock_again = end.lock_again;
          w2 = end.w2;
          rechecked = end.rechecked;
          kept = end.kept;
        }

    -- The end of the `try` block, whichever way it ended.
    body_end :
        (r : Result Unit) (l : Locals) (w w1 : World)
        → RaisesNoPass r
        → evaluate_body sys root plan_path check_runner (no_locals, w) ≡ (r, (l, w1))
        → (conclude sys root plan_path evaluation_path (note_raise r l) w1).0.state ≡ State.pass
        → Accepted evaluation_path check_runner w
            (conclude sys root plan_path evaluation_path (note_raise r l) w1).0
            (conclude sys root plan_path evaluation_path (note_raise r l) w1).1
    unfolding note_raise plain_check
    body_end (ok u) l w w1 n e h = body-Accepted w l w1 e h
    body_end (violation v) l w w1 n e h = absurd (
        n.real
          (last_check (check_of v) l
            (conclude-AllPassed sys root plan_path evaluation_path _ w1 h)).0)
    body_end (exception m) l w w1 n e h = absurd (
        ground (
          arith,
          (last_check (internal_check m) l
              (conclude-AllPassed sys root plan_path evaluation_path _ w1 h)).0,
        ))

-- What `evaluate`, run from `w` to `w'`, rests on at the repository root that it resolved.
pub record IsSound (sys : System) (root plan_path : Text)
    (check_runner : Text → List Text → Exec sys.machine.World RawChecks) (w : sys.machine.World)
    (e : Evaluation) (w' : sys.machine.World) : Type 0 where
  pub resolved_root : Text
  pub evaluation_path : Text
  pub w1 : sys.machine.World
  pub started : start sys root w ≡ (ok (resolved_root, evaluation_path), w1)
  pub accepted :
      Accepted sys resolved_root plan_path evaluation_path (check_runner resolved_root) w1 e w'

module _ (sys : System) (root plan_path : Text)
    (check_runner : Text → List Text → Exec sys.machine.World RawChecks) where
  open sys use {machine}
  open machine use {World}

  after_start-IsSound :
      (r : Result (Text × Text)) (w w1 : World)
      → RaisesNoPass r
      → start sys root w ≡ (r, w1)
      → ((at_root : Text) (ids : List Text) → RunsNoPass (check_runner at_root ids))
      → (after_start sys plan_path check_runner r w1).0.state ≡ State.pass
      → IsSound sys root plan_path check_runner w
          (after_start sys plan_path check_runner r w1).0
          (after_start sys plan_path check_runner r w1).1
  unfolding after_start note_raise plain_check
  after_start-IsSound (ok (at_root, path)) w w1 n e real h =
      let (r, s) = evaluate_body sys at_root plan_path (check_runner at_root) (no_locals, w1) in
      record {
        resolved_root = at_root;
        evaluation_path = path;
        w1 = w1;
        started = e;
        accepted =
            body_end sys at_root plan_path path (check_runner at_root) r s.0 w1 s.1
              ((evaluate_body-RunsNoPass sys (check_runner at_root) at_root plan_path
                  (real at_root)).at
                (no_locals, w1))
              refl h;
      }
  after_start-IsSound (violation v) w w1 n e real h =
      absurd (n.real (last_check (check_of v) no_locals (evaluation-AllPassed plan_path _ h)).0)
  after_start-IsSound (exception m) w w1 n e real h = absurd (
      ground
        (arith, (last_check (internal_check m) no_locals (evaluation-AllPassed plan_path _ h)).0))

  pub evaluate-IsSound :
      (w : World)
      → ((at_root : Text) (ids : List Text) → RunsNoPass (check_runner at_root ids))
      → (evaluate sys root plan_path check_runner w).0.state ≡ State.pass
      → IsSound sys root plan_path check_runner w
          (evaluate sys root plan_path check_runner w).0
          (evaluate sys root plan_path check_runner w).1
  unfolding evaluate
  evaluate-IsSound w real h =
      after_start-IsSound (start sys root w).0 w (start sys root w).1
        ((start-RunsNoPass sys root).at w) refl real h
