-- ===== src/Verdict/Conclusion.antt =====
-- The end of `evaluate` behind the `try` block, where the evaluation is a PASS.
use coffee_order_system.Prelude.{◌≡◌, refl, ap, sym, ◌∙◌, subst, Option, none, some, Text, arith}
use coffee_order_system.Outcome.{Result, ok, violation, exception, CheckResult, State, plain_check}
use coffee_order_system.Model.{Plan, GitContext, PlanLock}
use coffee_order_system.LockFile.{validate_plan_lock}
use coffee_order_system.Verdict.Again.{ReadAgain, read_final_identity-ReadAgain}
use coffee_order_system.Effect.NoPass.{RaisesNoPass}
use coffee_order_system.System.{System}
use coffee_order_system.Freshness.{Identity, freshness_check, freshness_of, read_final_identity}
use coffee_order_system.Freshness.Same.{IsSame, freshness_of-pass}
use coffee_order_system.Evaluate.{Evaluation, Locals, add_check, evaluation_from_values}
use coffee_order_system.Conclude.{
  Ending, identity_of, restore_of, restore_with, restore_lock, freshen, check_freshness,
  recheck_paths, write_evidence, written, finish_paths, conclude,
}
use coffee_order_system.Violations.Files.{validate_plan_lock-RaisesNoPass}
use coffee_order_system.Violations.Stages.{final_identity-RunsNoPass, recheck-RunsNoPass}
use coffee_order_system.Verdict.Results.{AllPassed, last_check, evaluation-AllPassed}

restore_of-passed :
    (lock : PlanLock) (l : Locals) (r : Result Unit)
    → RaisesNoPass r
    → AllPassed (restore_of lock l r).0.checks
    → (restore_of lock l r).0 ≡ l
unfolding restore_of plain_check
restore_of-passed lock l (ok u) n h = refl
restore_of-passed lock l (violation v) n h = absurd (n.real (last_check _ l h).0)
restore_of-passed lock l (exception e) n h = refl

restore_with-passed :
    (lock : Option PlanLock) (ending : Option (Plan × GitContext)) (l : Locals)
    → AllPassed (restore_with lock ending l).0.checks
    → (restore_with lock ending l).0 ≡ l
unfolding restore_with plain_check
restore_with-passed none ending l h = refl
restore_with-passed (some lock) none l h = absurd (ground (arith, (last_check _ l h).0))
restore_with-passed (some lock) (some (plan, context)) l h =
    restore_of-passed lock l (validate_plan_lock lock plan context)
      (validate_plan_lock-RaisesNoPass lock plan context) h

module _ (sys : System) where
  open sys use {machine}
  open machine use {World}

  written-passed :
      (plan_path : Text) (l : Locals) (r : Result Unit)
      → (written sys plan_path l r).state ≡ State.pass
      → (r ≡ ok tt) × (written sys plan_path l r ≡ evaluation_from_values plan_path l)
  unfolding written plain_check
  written-passed plan_path l (ok u) h = (refl, refl)
  written-passed plan_path l (violation v) h =
      absurd (ground (arith, (last_check _ l (evaluation-AllPassed plan_path _ h)).0))
  written-passed plan_path l (exception e) h =
      absurd (ground (arith, (last_check _ l (evaluation-AllPassed plan_path _ h)).0))

  finish-passed :
      (root plan_path evaluation_path : Text) (ending : Ending) (r : Result Unit) (w : World)
      → RaisesNoPass r
      → (finish_paths sys root plan_path evaluation_path ending r w).0.state ≡ State.pass
      → ((finish_paths sys root plan_path evaluation_path ending r w).0
          ≡ evaluation_from_values plan_path ending.0)
        × (r ≡ ok tt)
        × (write_evidence sys root evaluation_path ending.1
              (evaluation_from_values plan_path ending.0)
              w
            ≡ (ok tt, (finish_paths sys root plan_path evaluation_path ending r w).1))
  unfolding finish_paths plain_check
  finish-passed root plan_path evaluation_path (l, restore) (ok u) w n h =
      let call =
        write_evidence sys root evaluation_path restore (evaluation_from_values plan_path l) w in
      let (returned, same) = written-passed plan_path l call.0 h in
      (same, refl, ap (λ r. (r, call.1)) returned)
  finish-passed root plan_path evaluation_path (l, restore) (violation v) w n h =
      absurd (n.real (last_check _ l (evaluation-AllPassed plan_path _ h)).0)
  finish-passed root plan_path evaluation_path (l, restore) (exception e) w n h =
      absurd (ground (arith, (last_check _ l (evaluation-AllPassed plan_path _ h)).0))

  -- What the end of `evaluate` did from `w` to `w'` for an evaluation that passed.
  pub record Concluded (root plan_path evaluation_path : Text) (before : Identity) (l : Locals)
      (w : World) (e : Evaluation) (w' : World) : Type 0 where
    pub after : Identity
    pub w1 : World
    pub read_again : ReadAgain sys root plan_path after w w1
    pub same : IsSame before after
    pub passed : AllPassed l.checks
    pub check : CheckResult
    pub made : e ≡ evaluation_from_values plan_path (add_check check l)
    pub lock_again : Option PlanLock
    pub w2 : World
    pub rechecked : recheck_paths sys root evaluation_path lock_again w1 ≡ (ok tt, w2)
    pub kept : write_evidence sys root evaluation_path lock_again e w2 ≡ (ok tt, w')

  module _ (root plan_path evaluation_path : Text) where
    -- The part of `conclude` behind the freshness check.
    abbrev ended : (Locals × Option (Plan × GitContext)) × World → Evaluation × World
    ended (fresh, w1) =
        let ending = restore_lock fresh.1 fresh.0 in
        let (paths, w2) = recheck_paths sys root evaluation_path ending.1 w1 in
        finish_paths sys root plan_path evaluation_path ending paths w2

    ended-passed :
        (fresh : Locals × Option (Plan × GitContext)) (w1 : World)
        → (ended (fresh, w1)).0.state ≡ State.pass
        → AllPassed fresh.0.checks
          × ((ended (fresh, w1)).0 ≡ evaluation_from_values plan_path fresh.0)
          × (lock : Option PlanLock) × (w2 : World) × (recheck_paths sys root evaluation_path lock
                w1
              ≡ (ok tt, w2))
          × (write_evidence sys root evaluation_path lock (ended (fresh, w1)).0 w2
              ≡ (ok tt, (ended (fresh, w1)).1))
    unfolding restore_lock
    ended-passed fresh w1 h =
        let ending = restore_lock fresh.1 fresh.0 in
        let (paths, w2) = recheck_paths sys root evaluation_path ending.1 w1 in
        let (made, returned, kept) =
          finish-passed root plan_path evaluation_path ending paths w2
            ((recheck-RunsNoPass sys root evaluation_path ending.1).at w1) h in
        let all =
          evaluation-AllPassed plan_path ending.0
            (subst (λ (e : Evaluation). e.state ≡ State.pass) made h) in
        let same = restore_with-passed fresh.0.lock fresh.1 fresh.0 all in
        (
          subst (λ (l : Locals). AllPassed l.checks) same all,
          made ∙ ap (evaluation_from_values plan_path) same,
          ending.1,
          w2,
          ap (λ r. (r, w2)) returned,
          subst
              (λ e.
                write_evidence sys root evaluation_path ending.1 e w2
                ≡ (ok tt, (ended (fresh, w1)).1))
              (sym made) kept,
        )

    fresh-passed :
        (before : Identity) (l : Locals) (w : World)
        → (ended (freshen sys (some before) root plan_path l w)).0.state ≡ State.pass
        → Concluded root plan_path evaluation_path before l w
            (ended (freshen sys (some before) root plan_path l w)).0
            (ended (freshen sys (some before) root plan_path l w)).1
    unfolding freshen freshness_check
    fresh-passed before l w h =
        let (r, w1) = read_final_identity sys root plan_path w in
        let fresh = freshness_of before r in
        let (all, made, lock, w2, rechecked, kept) =
          ended-passed (add_check fresh.0 l, fresh.1) w1 h in
        let (last, passed) = last_check fresh.0 l all in
        let (after, found, same) =
          freshness_of-pass before r ((final_identity-RunsNoPass sys root plan_path).at w) last in
        record {
          after = after;
          w1 = w1;
          read_again = read_final_identity-ReadAgain sys root plan_path w (ap (λ q. (q, w1)) found);
          same = same;
          passed = passed;
          check = fresh.0;
          made = made;
          lock_again = lock;
          w2 = w2;
          rechecked = rechecked;
          kept = kept;
        }

    pub conclude-Concluded :
        (before : Identity) (l : Locals) (w : World)
        → identity_of l ≡ some before
        → (conclude sys root plan_path evaluation_path l w).0.state ≡ State.pass
        → Concluded root plan_path evaluation_path before l w
            (conclude sys root plan_path evaluation_path l w).0
            (conclude sys root plan_path evaluation_path l w).1
    unfolding conclude check_freshness
    conclude-Concluded before l w known h =
        let goal = λ (o : Option Identity).
          (ended (freshen sys o root plan_path l w)).0.state ≡ State.pass
          → Concluded root plan_path evaluation_path before l w
              (ended (freshen sys o root plan_path l w)).0
              (ended (freshen sys o root plan_path l w)).1 in
        subst goal (sym known) (fresh-passed before l w) h

    freshen-AllPassed :
        (o : Option Identity) (l : Locals) (w : World)
        → (ended (freshen sys o root plan_path l w)).0.state ≡ State.pass
        → AllPassed l.checks
    unfolding freshen
    freshen-AllPassed none l w h = (ended-passed (l, none) w h).0
    freshen-AllPassed (some before) l w h =
        let (fresh, w1) = freshness_check sys root plan_path before w in
        (last_check fresh.0 l (ended-passed (add_check fresh.0 l, fresh.1) w1 h).0).1

    pub conclude-AllPassed :
        (l : Locals) (w : World)
        → (conclude sys root plan_path evaluation_path l w).0.state ≡ State.pass
        → AllPassed l.checks
    unfolding conclude check_freshness
    conclude-AllPassed l w h = freshen-AllPassed (identity_of l) l w h
