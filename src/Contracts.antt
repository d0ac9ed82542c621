-- ===== src/Contracts.antt =====
-- scripts/harness-oracles.py: how its functions act on the host and end, `_require_file` and `_load_json`.
pub mod Architecture
pub mod Routes
pub mod Values
pub mod Api
pub mod Instances
pub mod Entry
use coffee_order_system.Prelude.{
  ℕ, ℤ, ◌≡◌, refl, ap, ◌∙◌, arith, Bool, true, false, not, Option, none, some, List, [], ◌∷◌, ◌++◌,
  ◌==◌, text_eq, int_eq, if◌then◌else◌, Text, txt, starts_with,
}
use coffee_order_system.Outcome.{Reason, about, value}
use coffee_order_system.Json.{Json, bool, int, float, str, arr, obj, Items, nil, cons, Fields}
use coffee_order_system.System.{
  Raised, Try, returned, raised, is_os_error, is_os_or_value_error, message, Call, join_path,
}

-- `return a`, `raise OracleFailure(…)`, an `OSError`, which `main` catches as well, or another exception.
pub data Reply (A : Type 0) : Type 0 where
  replied : A → Reply A
  oracle_failure : Reason → Reply A
  os_error : Text → Reply A
  escaped : Text → Reply A

-- What `subprocess.run` gives: the process that ended, one that was not found, one that was stopped with the
-- output so far, or another exception.
pub data Ended : Type 0 where
  ended : (returncode : ℤ) (stdout stderr : List ℕ) → Ended
  not_found : Text → Ended
  timed_out : (stdout stderr : Option (List ℕ)) → Ended
  not_run : Raised → Ended

-- The calls of Python's library. `search` and `findall` take the flag `MULTILINE` and the text of the pattern, and
-- give the groups; `loads` gives `none` for a `JSONDecodeError`; `run` takes what is set in the environment, and `print` all that is
-- printed, the line feed included.
pub record Host : Type 1 where
  pub World : Type 0
  pub resolve : Text → Call World (Try Text)
  pub is_file : Text → Call World Bool
  pub is_executable : Text → Call World Bool
  pub read_text : Text → Call World (Try Text)
  pub sorted_glob : Text → Text → Call World (List Text)
  pub loads : Text → Option Json
  pub is_one_float : Text → Bool
  pub search : Bool → Text → Text → Option (List (Option Text))
  pub findall : Bool → Text → Text → List (List Text)
  pub escape : Text → Text
  pub upper : Text → Text
  pub http_status : Text → Option ℕ
  pub process_id : Call World ℕ
  pub seconds : Call World ℕ
  pub free_port : Call World (Try ℕ)
  pub run : Text → List Text → List (Text × Text) → ℕ → Call World Ended
  pub print : Text → Call World (Unit {0})

abbrev pub Task : Type 0 → Type 0 → Type 0
Task W A = W → Reply A × W

abbrev pub carry_on : {W A B : Type 0} → Reply A → (A → Task W B) → Task W B
carry_on (replied a) next w = next a w
carry_on (oracle_failure e) next w = (oracle_failure e, w)
carry_on (os_error e) next w = (os_error e, w)
carry_on (escaped e) next w = (escaped e, w)

infixl 5 ◌>>=◌ ◌>>◌
abbrev pub ◌>>=◌ : {W A B : Type 0} → Task W A → (A → Task W B) → Task W B
◌>>=◌ task next w = let (a, w') = task w in carry_on a next w'

abbrev pub ◌>>◌ : {W B : Type 0} → Task W (Unit {0}) → Task W B → Task W B
task >> next = task >>= λ _. next

abbrev pub reply : {W A : Type 0} → Reply A → Task W A
reply a w = (a, w)

abbrev pub fail_if : Bool → Reason → Reply (Unit {0})
fail_if true reason = oracle_failure reason
fail_if false reason = replied tt

abbrev pub or_fail : {A : Type 0} → Reason → Option A → Reply A
or_fail reason none = oracle_failure reason
or_fail reason (some a) = replied a

abbrev pub call : {W A : Type 0} → Call W A → Task W A
call c w = let (a, w') = c w in (replied a, w')

-- What is raised where no handler stands.
abbrev pub raised_as : {A : Type 0} → Raised → Reply A
raised_as e = if is_os_error e then os_error (message e) else escaped (message e)

abbrev pub or_raised : {A : Type 0} → Try A → Reply A
or_raised (returned a) = replied a
or_raised (raised e) = raised_as e

-- `v == 1`, for which `True` and a float may stand as well.
unfoldable pub is_one : (Text → Bool) → Json → Bool
is_one is_one_float (int i) = i == ℤ.pos 1
is_one is_one_float (bool b) = b
is_one is_one_float (float t) = is_one_float t
is_one is_one_float other = false

-- `isinstance(v, list) and v`
unfoldable pub filled_items : Json → Option Items
filled_items (arr (cons x xs)) = some (cons x xs)
filled_items other = none

unfoldable pub as_text : Json → Option Text
as_text (str s) = some s
as_text other = none

pub carry_on-eq-replied :
    {W A B : Type 0} (a : Reply A) (next : A → Task W B) (w : W) {b : B} {w' : W}
    → carry_on a next w ≡ (replied b, w')
    → (x : A) × (a ≡ replied x) × (next x w ≡ (replied b, w'))
carry_on-eq-replied (replied a) next w h = (a, refl, h)
carry_on-eq-replied (oracle_failure e) next w h = absurd (ground (arith, h))
carry_on-eq-replied (os_error e) next w h = absurd (ground (arith, h))
carry_on-eq-replied (escaped e) next w h = absurd (ground (arith, h))

pub bind-eq-replied :
    {W A B : Type 0} (task : Task W A) (next : A → Task W B) (w : W) {b : B} {w' : W}
    → (task >>= next) w ≡ (replied b, w')
    → (a : A) × (u : W) × (task w ≡ (replied a, u)) × (next a u ≡ (replied b, w'))
bind-eq-replied task next w h =
    let (a, e, rest) = carry_on-eq-replied (task w).0 next (task w).1 h in
    (a, (task w).1, ap (λ r. (r, (task w).1)) e, rest)

pub reply_injective : {A : Type 0} {a b : A} → replied a ≡ replied b → a ≡ b
reply_injective h = cc

pub fail_if-eq-replied :
    (b : Bool) (reason : Reason) {u : Unit {0}} → fail_if b reason ≡ replied u → b ≡ false
fail_if-eq-replied true reason h = absurd (ground (arith, h))
fail_if-eq-replied false reason h = refl

pub or_fail-eq-replied :
    {A : Type 0} (reason : Reason) (o : Option A) {a : A}
    → or_fail reason o ≡ replied a
    → o ≡ some a
or_fail-eq-replied reason none h = absurd (ground (arith, h))
or_fail-eq-replied reason (some a) h = ap some (reply_injective h)

pub or_raised-eq-replied :
    {A : Type 0} (t : Try A) {a : A} → or_raised t ≡ replied a → t ≡ returned a
unfolding is_os_error
or_raised-eq-replied (returned a) h = ground (arith, h)
or_raised-eq-replied (raised e) h = absurd (ground (arith, h))

module _ (host : Host) where
  open host use {World, is_file, read_text, loads}

  unfoldable pub require_file : Text → Text → Task World Text
  require_file root relative_path = do
    let path =
        if starts_with relative_path (txt "/") then relative_path else join_path root relative_path
    found ← call (is_file path)
    reply (fail_if (not found) (value (txt "required file") relative_path))
    reply (replied path)

  -- The `except` names `OSError`, `UnicodeDecodeError` and `JSONDecodeError`; the two latter are `ValueError`s.
  abbrev unreadable : Text → Text → Reason
  unreadable relative_path error = value (txt "cannot read JSON") relative_path

  abbrev read_or_fail : Text → Try Text → Reply Text
  read_or_fail relative_path (returned text) = replied text
  read_or_fail relative_path (raised e) =
      if is_os_or_value_error e
      then oracle_failure (unreadable relative_path (message e))
      else escaped (message e)

  abbrev as_contract : Text → Option Json → Reply Fields
  as_contract relative_path none = oracle_failure (unreadable relative_path (txt "JSONDecodeError"))
  as_contract relative_path (some (obj fs)) = replied fs
  as_contract relative_path (some other) = oracle_failure (value (txt "JSON object") relative_path)

  unfoldable pub load_json : Text → Text → Task World Fields
  unfolding require_file
  load_json root relative_path = do
    path ← require_file root relative_path
    read ← call (read_text path)
    text ← reply (read_or_fail relative_path read)
    reply (as_contract relative_path (loads text))
