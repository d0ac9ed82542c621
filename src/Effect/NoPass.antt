-- ===== src/Effect/NoPass.antt =====
-- Calls that raise no violation in state PASS, one rule for each way to build a call.
use coffee_order_system.Prelude.{◌≢◌, Bool, true, false, if◌then◌else◌, Text, arith}
use coffee_order_system.Outcome.{
  Result, ok, violation, exception, HarnessViolation, State, fail, blocked, replan_required,
  reject_if, rethrow,
}
use coffee_order_system.Outcome
use coffee_order_system.Effect.{
  Exec, proceed, ◌>>=◌, lift, handle, catch, rename_exception, renaming,
}

abbrev IsReal : {A : Type 0} → Result A → Type 0
IsReal (ok a) = Unit
IsReal (violation v) = v.state ≢ State.pass
IsReal (exception e) = Unit

-- A violation that the function raises is not in state PASS.
pub record RaisesNoPass {A : Type 0} (r : Result A) : Type 0 where
  pub real : IsReal r

-- So too for a call, from every state.
pub record RunsNoPass {S A : Type 0} (call : Exec S A) : Type 0 where
  pub at : (s : S) → RaisesNoPass (call s).0

pub fail-ne-pass : fail ≢ State.pass
fail-ne-pass e = ground (arith, e)

pub blocked-ne-pass : blocked ≢ State.pass
blocked-ne-pass e = ground (arith, e)

pub replan-ne-pass : replan_required ≢ State.pass
replan-ne-pass e = ground (arith, e)

module _ {A : Type 0} where
  pub RaisesNoPass-ok : (a : A) → RaisesNoPass (ok a)
  RaisesNoPass-ok a = record { real = tt }

  pub RaisesNoPass-exception : (e : Text) → RaisesNoPass {A = A} (exception e)
  RaisesNoPass-exception e = record { real = tt }

  pub RaisesNoPass-violation :
      (v : HarnessViolation) → v.state ≢ State.pass → RaisesNoPass {A = A} (violation v)
  RaisesNoPass-violation v h = record { real = h }

  pub RaisesNoPass-rethrow :
      (f : HarnessViolation → HarnessViolation) (r : Result A)
      → ((v : HarnessViolation) → (f v).state ≢ State.pass)
      → RaisesNoPass (rethrow f r)
  RaisesNoPass-rethrow f (ok a) h = RaisesNoPass-ok a
  RaisesNoPass-rethrow f (violation v) h = RaisesNoPass-violation (f v) (h v)
  RaisesNoPass-rethrow f (exception e) h = RaisesNoPass-exception e

  pub RaisesNoPass-if :
      (b : Bool) (r q : Result A)
      → RaisesNoPass r
      → RaisesNoPass q
      → RaisesNoPass (if b then r else q)
  RaisesNoPass-if true r q hr hq = hr
  RaisesNoPass-if false r q hr hq = hq

pub RaisesNoPass-reject_if :
    (b : Bool) (v : HarnessViolation) → v.state ≢ State.pass → RaisesNoPass (reject_if b v)
RaisesNoPass-reject_if true v h = RaisesNoPass-violation v h
RaisesNoPass-reject_if false v h = RaisesNoPass-ok tt

module _ {A B : Type 0} where
  pub RaisesNoPass-bind :
      (r : Result A) (next : A → Result B)
      → RaisesNoPass r
      → ((a : A) → RaisesNoPass (next a))
      → RaisesNoPass (Outcome.◌>>=◌ r next)
  RaisesNoPass-bind (ok a) next h k = k a
  RaisesNoPass-bind (violation v) next h k = RaisesNoPass-violation v h.real
  RaisesNoPass-bind (exception e) next h k = RaisesNoPass-exception e

module _ {S A : Type 0} where
  pub RunsNoPass-lift : (r : Result A) → RaisesNoPass r → RunsNoPass {S = S} (lift r)
  RunsNoPass-lift r h = record { at = λ s. h }

  handle_lem :
      (r : Result A) (handler : HarnessViolation → Exec S A) (s : S)
      → ((v : HarnessViolation) → RunsNoPass (handler v))
      → RaisesNoPass (handle r handler s).0
  handle_lem (ok a) handler s h = RaisesNoPass-ok a
  handle_lem (violation v) handler s h = (h v).at s
  handle_lem (exception e) handler s h = RaisesNoPass-exception e

  pub RunsNoPass-catch :
      (call : Exec S A) (handler : HarnessViolation → Exec S A)
      → ((v : HarnessViolation) → RunsNoPass (handler v))
      → RunsNoPass (catch call handler)
  RunsNoPass-catch call handler h = record { at = λ s. handle_lem (call s).0 handler (call s).1 h }

module _ {A : Type 0} where
  rename_lem :
      (r : Result A) (f : Text → HarnessViolation)
      → RaisesNoPass r
      → ((e : Text) → (f e).state ≢ State.pass)
      → RaisesNoPass (rename_exception f r)
  rename_lem (ok a) f h k = h
  rename_lem (violation v) f h k = h
  rename_lem (exception e) f h k = RaisesNoPass-violation (f e) (k e)

module _ {S A B : Type 0} where
  proceed_lem :
      (r : Result A) (next : A → Exec S B) (s : S)
      → RaisesNoPass r
      → ((a : A) → RunsNoPass (next a))
      → RaisesNoPass (proceed r next s).0
  proceed_lem (ok a) next s h k = (k a).at s
  proceed_lem (violation v) next s h k = RaisesNoPass-violation v h.real
  proceed_lem (exception e) next s h k = RaisesNoPass-exception e

  pub RunsNoPass-bind :
      (call : Exec S A) (next : A → Exec S B)
      → RunsNoPass call
      → ((a : A) → RunsNoPass (next a))
      → RunsNoPass (call >>= next)
  RunsNoPass-bind call next h k = record {
    at = λ s. proceed_lem (call s).0 next (call s).1 (h.at s) k;
  }

module _ {S A : Type 0} where
  pub RunsNoPass-renaming :
      (f : Text → HarnessViolation) (call : Exec S A)
      → RunsNoPass call
      → ((e : Text) → (f e).state ≢ State.pass)
      → RunsNoPass (renaming f call)
  RunsNoPass-renaming f call h k = record { at = λ s. rename_lem (call s).0 f (h.at s) k }

pub ruleset pass_rules = (
  RaisesNoPass-ok, RaisesNoPass-exception, RaisesNoPass-violation, RaisesNoPass-rethrow,
  RaisesNoPass-if, RaisesNoPass-reject_if, RaisesNoPass-bind, RunsNoPass-lift, RunsNoPass-catch,
  RunsNoPass-bind, RunsNoPass-renaming, fail-ne-pass, blocked-ne-pass, replan-ne-pass,
)
