-- ===== src/Publish.antt =====
-- scripts/agent-publish.py: what its functions act on, and how they end. The commands that were given to
-- the runner are recorded beside the world.
pub mod Readings
pub mod Requests
pub mod Merging
pub mod Finalize
pub mod Trace
pub mod Order
pub mod Answers
pub mod Stages
pub mod Verified
pub mod Completion
pub mod Requested
pub mod Ended
pub mod Digits
pub mod Urls
pub mod Links
use coffee_order_system.Prelude.{
  ℕ, zero, suc, ◌+◌, ◌-◌, ◌*◌, ◌/◌, ◌%◌, ◌≡◌, refl, ap, Bool, true, false, not, ◌&&◌, ◌||◌, Option,
  none, some, List, [], ◌∷◌, ◌++◌, ◌==◌, nat_eq, text_eq, int_eq, leb, ltb, if◌then◌else◌, Text,
  txt, ℤ, strip, arith,
}
use coffee_order_system.Outcome.{Reason, about, value}
use coffee_order_system.Json.{
  Json, null, bool, int, float, str, arr, obj, Items, nil, cons, Fields, end,
}
use coffee_order_system.System.{Raised, Try, returned, raised, message, Call}

-- `return a`, `raise PublishError(…)`, or any other exception with its message.
pub data Answer (A : Type 0) : Type 0 where
  answer : A → Answer A
  publish_error : Reason → Answer A
  other_error : Text → Answer A

-- `subprocess.CompletedProcess[str]`
pub record Completed : Type 0 where
  pub returncode : ℤ
  pub stdout : Text
  pub stderr : Text

-- The runner, which may raise, and the calls of Python's library. `loads` gives `none` for a
-- `JSONDecodeError`, and `is_zero_float` tells the floats that are false.
pub record Publisher : Type 1 where
  pub World : Type 0
  pub executable : Text
  pub run : List Text → Text → Call World (Try Completed)
  pub resolve : Text → Call World (Try Text)
  pub resolve_any : Text → Call World Text
  pub read_text : Text → Call World (Try Text)
  pub loads : Text → Option Json
  pub is_zero_float : Text → Bool

-- The commands so far, in their order, and the world.
pub record Progress (W : Type 0) : Type 0 where
  pub issued : List (List Text)
  pub world : W

abbrev pub begin : {W : Type 0} → W → Progress W
begin w = record { issued = []; world = w }

abbrev pub Step : Type 0 → Type 0 → Type 0
Step W A = Progress W → Answer A × Progress W

abbrev pub continue : {W A B : Type 0} → Answer A → (A → Step W B) → Step W B
continue (answer a) next p = next a p
continue (publish_error e) next p = (publish_error e, p)
continue (other_error e) next p = (other_error e, p)

infixl 5 ◌>>=◌ ◌>>◌
abbrev pub ◌>>=◌ : {W A B : Type 0} → Step W A → (A → Step W B) → Step W B
◌>>=◌ step next p = let (a, p') = step p in continue a next p'

abbrev pub ◌>>◌ : {W B : Type 0} → Step W (Unit {0}) → Step W B → Step W B
step >> next = step >>= λ _. next

abbrev pub settle : {W A : Type 0} → Answer A → Step W A
settle a p = (a, p)

abbrev pub give : {W A : Type 0} → A → Step W A
give a = settle (answer a)

abbrev pub refuse : {W A : Type 0} → Reason → Step W A
refuse reason = settle (publish_error reason)

abbrev pub refuse_if : Bool → Reason → Answer (Unit {0})
refuse_if true reason = publish_error reason
refuse_if false reason = answer tt

-- A call that gives no command to the runner.
abbrev pub ask : {W A : Type 0} → Call W A → Step W A
ask call p = let (a, w) = call p.world in (answer a, record p { world = w })

abbrev pub answer_of : {A : Type 0} → Try A → Answer A
answer_of (returned a) = answer a
answer_of (raised e) = other_error (message e)

-- `except (…) as error: raise PublishError(…)`
abbrev pub guard : {A : Type 0} → (Raised → Bool) → (Text → Reason) → Try A → Answer A
guard catches reason (returned a) = answer a
guard catches reason (raised e) =
    if catches e then publish_error (reason (message e)) else other_error (message e)

-- What `command_output` makes of a process that ended.
unfoldable pub output_of : Text → Completed → Answer Text
output_of description result =
    let detail = strip (if result.stderr == [] then result.stdout else result.stderr) in
    if result.returncode == ℤ.pos 0
    then answer (strip result.stdout)
    else publish_error (if detail == [] then about description else value description detail)

pub continue-eq-answer :
    {W A B : Type 0} (a : Answer A) (next : A → Step W B) (p : Progress W) {b : B} {q : Progress W}
    → continue a next p ≡ (answer b, q)
    → (x : A) × (a ≡ answer x) × (next x p ≡ (answer b, q))
continue-eq-answer (answer a) next p h = (a, refl, h)
continue-eq-answer (publish_error e) next p h = absurd (ground (arith, h))
continue-eq-answer (other_error e) next p h = absurd (ground (arith, h))

-- When two steps in a row answer, the first one answered, and the second from where it ended.
pub bind-eq-answer :
    {W A B : Type 0} (step : Step W A) (next : A → Step W B) (p : Progress W) {b : B}
    {q : Progress W}
    → (step >>= next) p ≡ (answer b, q)
    → (a : A) × (p' : Progress W) × (step p ≡ (answer a, p')) × (next a p' ≡ (answer b, q))
bind-eq-answer step next p h =
    let (a, e, rest) = continue-eq-answer (step p).0 next (step p).1 h in
    (a, (step p).1, ap (λ r. (r, (step p).1)) e, rest)

pub refuse_if-eq-answer :
    (b : Bool) (reason : Reason) {u : Unit {0}} → refuse_if b reason ≡ answer u → b ≡ false
refuse_if-eq-answer true reason h = absurd (ground (arith, h))
refuse_if-eq-answer false reason h = refl

module _ (sys : Publisher) where
  open sys use {World, run}

  -- `runner(command, root)`
  unfoldable pub issue : List Text → Text → Step World Completed
  issue command root p =
      let (tried, w) = run command root p.world in
      (answer_of tried, record { issued = p.issued ++ (command ∷ []); world = w })

  unfoldable pub command_output : List Text → Text → Text → Step World Text
  unfolding issue output_of
  command_output command root description =
      issue command root >>= λ result. settle (output_of description result)

-- `payload.get(k)`: a key that stands twice has its last value.
unfoldable pub lookup : Text → Fields → Option Json
lookup k end = none
lookup k (Fields.field j v fs) = elim (lookup k fs) [
  | some later ↦ some later
  | none ↦ if j == k then some v else none
]

unfoldable pub get_or_null : Text → Fields → Json
unfolding lookup
get_or_null k fs = elim (lookup k fs) [ none ↦ null | some v ↦ v ]

-- `payload.get`, which a value that is no dict does not have.
unfoldable pub as_dict : Json → Answer Fields
as_dict (obj fs) = answer fs
as_dict other = other_error (txt "AttributeError")

-- `v == text`
unfoldable pub is_text : Json → Text → Bool
is_text (str s) text = s == text
is_text other text = false

-- `bool(v)`
unfoldable pub is_truthy : (Text → Bool) → Json → Bool
is_truthy is_zero_float null = false
is_truthy is_zero_float (bool b) = b
is_truthy is_zero_float (int i) = not (i == ℤ.pos 0)
is_truthy is_zero_float (float t) = not (is_zero_float t)
is_truthy is_zero_float (str s) = not (s == [])
is_truthy is_zero_float (arr nil) = false
is_truthy is_zero_float (arr (cons x xs)) = true
is_truthy is_zero_float (obj end) = false
is_truthy is_zero_float (obj (Fields.field k v fs)) = true

-- The digits of a number, by at most `fuel` divisions.
unfoldable pub digits : ℕ → ℕ → Text
digits zero n = []
digits (suc fuel) n =
    let rest = digits fuel (n / 10) in
    if ltb n 10 then (48 + n) ∷ [] else rest ++ ((48 + n % 10) ∷ [])

-- `str(n)`
unfoldable pub number_text : ℕ → Text
unfolding digits
number_text n = digits (suc n) n

unfoldable pub int_text : ℤ → Text
unfolding number_text
int_text (ℤ.pos n) = number_text n
int_text (ℤ.negsuc n) = b'-' ∷ number_text (suc n)
