-- ===== src/Outcome/Base.antt =====
-- scripts/agent-harness.py: the states, the check results, and a function that may raise.
-- A message is a value of `Reason` that holds what its f-string interpolates; the Korean wording
-- and the rendering of the interpolated values are not modelled.
use coffee_order_system.Prelude.{
  ℕ, Bool, true, false, Option, none, List, [], Text, ℤ, Eq, ◌≡◌, refl, arith,
}

-- `IntEnum` State
pub data State : Type 0 where
  pass fail blocked replan_required : State

unfoldable pub State-discrete : Discrete State
State-discrete = hlevel

instance unfoldable pub state_eq : Eq State
unfolding State-discrete
state_eq = record { dec = State-discrete }

-- `STATE_PRIORITY`
unfoldable pub state_priority : State → ℕ
state_priority State.pass = 0
state_priority blocked = 1
state_priority fail = 2
state_priority replan_required = 3

pub data Reason : Type 0 where
  -- a message without values, by its subject
  about : Text → Reason
  -- a message that names a field, a value, a list of values, or two lists
  field : Text → Text → Reason
  value : Text → Text → Reason
  values : Text → List Text → Reason
  two_lists : Text → List Text → List Text → Reason
  -- the output of a command, as it stands
  output : Text → Reason
  -- a message around the reason of a caught violation
  caused : Text → Text → Reason → Reason
  numbers : Text → ℕ → ℕ → Reason

pub record HarnessViolation : Type 0 where
  pub state : State
  pub check_id : Text
  pub reason : Reason

pub record CheckResult : Type 0 where
  pub check_id : Text
  pub state : State
  pub reason : Reason
  pub command : List Text
  pub exit_code : Option ℤ
  pub duration_ms : Option ℤ

-- A result with the defaults of the last three fields.
unfoldable pub plain_check : Text → State → Reason → CheckResult
plain_check id s r = record {
  check_id = id;
  state = s;
  reason = r;
  command = [];
  exit_code = none;
  duration_ms = none;
}

-- `return a`, `raise HarnessViolation(…)`, or any other exception with its type and message.
pub data Result {ℓ} (A : Type ℓ) : Type ℓ where
  ok : A → Result A
  violation : HarnessViolation → Result A
  exception : Text → Result A

infixl 5 ◌>>=◌ ◌>>◌
-- What follows a call runs only if the call returns.
abbrev pub ◌>>=◌ {ℓ κ} : {A : Type ℓ} {B : Type κ} → Result A → (A → Result B) → Result B
ok returned >>= next = next returned
violation raised >>= next = violation raised
exception name >>= next = exception name

-- `if test: raise …`
abbrev pub reject_if : Bool → HarnessViolation → Result (Unit {0})
reject_if true v = violation v
reject_if false v = ok tt

abbrev pub ◌>>◌ {ℓ} : {B : Type ℓ} → Result (Unit {0}) → Result B → Result B
check >> next = check >>= λ _. next

abbrev pub violation_of : State → Text → Reason → HarnessViolation
violation_of s id r = record { state = s; check_id = id; reason = r }

-- `except HarnessViolation as error: raise …`
abbrev pub rethrow {ℓ} : {A : Type ℓ} → (HarnessViolation → HarnessViolation) → Result A → Result A
rethrow f (ok a) = ok a
rethrow f (violation v) = violation (f v)
rethrow f (exception e) = exception e

-- When two calls in a row return, the first one returned too.
pub >>=-eq-ok {ℓ κ} :
    {A : Type ℓ} {B : Type κ} (call : Result A) (next : A → Result B) {last : B}
    → (call >>= next) ≡ ok last
    → (first : A) × (call ≡ ok first) × (next first ≡ ok last)
>>=-eq-ok (ok first) next h = (first, refl, h)
>>=-eq-ok (violation raised) next h = absurd (ground arith)
>>=-eq-ok (exception name) next h = absurd (ground arith)

pub reject_if-eq-ok :
    (b : Bool) (v : HarnessViolation) {u : Unit {0}} → reject_if b v ≡ ok u → b ≡ false
reject_if-eq-ok true v h = absurd (ground arith)
reject_if-eq-ok false v h = refl

pub ok-injective {ℓ} : {A : Type ℓ} (a b : A) → ok a ≡ ok b → a ≡ b
ok-injective a b h = cc

-- A call whose violation would be raised anew returned itself.
pub rethrow-eq-ok {ℓ} :
    {A : Type ℓ} (f : HarnessViolation → HarnessViolation) (call : Result A) {a : A}
    → rethrow f call ≡ ok a
    → call ≡ ok a
rethrow-eq-ok f (ok a) h = h
rethrow-eq-ok f (violation v) h = absurd (ground arith)
rethrow-eq-ok f (exception e) h = absurd (ground arith)
