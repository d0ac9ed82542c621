-- ===== src/Commands.antt =====
-- scripts/agent-harness.py: what the end of a command says, for `execute_command`,
-- `blocked_environment_check` and the test of the Java toolchain.
pub mod Results
use coffee_order_system.Prelude.{
  ℕ, zero, suc, ◌≡◌, Bool, false, not, ◌&&◌, ◌||◌, Option, none, some, List, [], ◌∷◌, ◌++◌, ◌==◌,
  nat_eq, text_eq, texts_eq, int_eq, if◌then◌else◌, Text, txt, strip, ℤ, is_space, length, leb,
  starts_with, has_part, decode_replace,
}
use coffee_order_system.Outcome.{
  Reason, about, value, output, fail, blocked, State, state_eq, CheckResult,
}
use coffee_order_system.Outcome

-- What `subprocess.run` gives: an `OSError` with its message, or the finished process.
pub data Finished : Type 0 where
  os_error : Text → Finished
  completed : (returncode : ℤ) (stdout stderr : List ℕ) → Finished

-- `text[-n:]`
unfoldable pub last_chars : ℕ → Text → Text
last_chars n [] = []
last_chars n (c ∷ s) = let rest = last_chars n s in if leb (length (c ∷ s)) n then c ∷ s else rest

-- `_last_output`
unfoldable pub last_output : List ℕ → List ℕ → Text
unfolding last_chars
last_output stdout stderr = strip (last_chars 4000 (decode_replace (stdout ++ stderr)))

abbrev is_zero : ℤ → Bool
is_zero code = code == ℤ.pos 0

-- `output or message`
unfoldable pub output_or : Text → Text → Reason
output_or text message = if text == [] then about message else output text

-- The result of `blocked_environment_check`.
unfoldable pub environment_result : Text → List Text → Finished → ℕ → CheckResult
unfolding last_output output_or
environment_result id command (os_error error) duration = record {
  check_id = id;
  state = blocked;
  reason = value (txt "cannot run") error;
  command = command;
  exit_code = none;
  duration_ms = some (ℤ.pos duration);
}
environment_result id command (completed code stdout stderr) duration = record {
  check_id = id;
  state = if is_zero code then State.pass else blocked;
  reason =
      output_or (last_output stdout stderr)
        (if is_zero code then txt "command succeeded" else txt "command failed");
  command = command;
  exit_code = some code;
  duration_ms = some (ℤ.pos duration);
}

abbrev docker_message : Text
docker_message = txt "Could not find a valid Docker environment"

-- The state of a command that ended.
unfoldable pub command_state : Text → ℤ → Text → State
command_state id code full_output =
    if is_zero code
    then State.pass
    else if (id == txt "gradle.test" || starts_with id (txt "oracle."))
        && has_part full_output docker_message
    then blocked
    else fail

-- The result of `execute_command`.
unfoldable pub command_result : Text → List Text → Finished → ℕ → CheckResult
unfolding last_output command_state output_or
command_result id command (os_error error) duration = record {
  check_id = id;
  state = fail;
  reason = value (txt "cannot run") error;
  command = command;
  exit_code = none;
  duration_ms = some (ℤ.pos duration);
}
command_result id command (completed code stdout stderr) duration = record {
  check_id = id;
  state = command_state id code (decode_replace (stdout ++ stderr));
  reason = output_or (last_output stdout stderr) (txt "no output");
  command = command;
  exit_code = some code;
  duration_ms = some (ℤ.pos duration);
}

-- `\s*17\b` at the start of a text.
unfoldable pub names_seventeen : (ℕ → Bool) → Text → Bool
names_seventeen is_word [] = false
names_seventeen is_word (c ∷ []) = false
names_seventeen is_word (c ∷ d ∷ []) = c == b'1' && d == b'7'
names_seventeen is_word (c ∷ d ∷ e ∷ s) =
    c == b'1' && d == b'7' && not (is_word e) || is_space c && names_seventeen is_word (d ∷ e ∷ s)

abbrev version_label : Text
version_label = txt "Language Version:"

-- The text behind a prefix that it has.
unfoldable pub drop_chars : ℕ → Text → Text
drop_chars zero s = s
drop_chars (suc n) [] = []
drop_chars (suc n) (c ∷ s) = drop_chars n s

-- `re.search(r"Language Version:\s*17\b", text)`
unfoldable pub finds_seventeen : (ℕ → Bool) → Text → Bool
unfolding names_seventeen drop_chars
finds_seventeen is_word [] = false
finds_seventeen is_word (c ∷ s) =
    starts_with (c ∷ s) version_label
      && names_seventeen is_word (drop_chars (length version_label) (c ∷ s))
    || finds_seventeen is_word s

unfoldable pub reason_finds_seventeen : (ℕ → Bool) → Reason → Bool
unfolding finds_seventeen
reason_finds_seventeen is_word (output text) = finds_seventeen is_word text
reason_finds_seventeen is_word _ = false

-- A command that passed without naming Java 17 is blocked after all.
unfoldable pub require_seventeen : (ℕ → Bool) → CheckResult → CheckResult
unfolding reason_finds_seventeen
require_seventeen is_word check =
    if check.state == State.pass && not (reason_finds_seventeen is_word check.reason)
    then record check { state = blocked; reason = Reason.caused (txt "no Java 17") [] check.reason }
    else check
