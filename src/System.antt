-- ===== src/System.antt =====
-- What the script calls of Python's library and of the machine, and the texts of paths. Each call may
-- change the world, or meet a world that another process has changed, so it gives a new one.
use coffee_order_system.Prelude.{
  ℕ, Bool, true, false, Option, some, List, ◌++◌, ◌==◌, nat_eq, text_eq, if◌then◌else◌, Text, txt,
}
use coffee_order_system.Outcome.{Result, ok, violation, exception, Reason, HarnessViolation}
use coffee_order_system.Json.{Json, Library}
use coffee_order_system.Commands.{Finished}
use coffee_order_system.Runner.{Machine}
use coffee_order_system.Paths.{remove_prefix}
use coffee_order_system.Effect.{Exec, lift, ◌>>=◌}

-- An exception that is no `HarnessViolation`, with its message: three kinds of `OSError`,
-- `ValueError`, and any other.
pub data Raised : Type 0 where
  file_not_found file_exists other_os_error value_error other_exception : Text → Raised

pub data Try (A : Type 0) : Type 0 where
  returned : A → Try A
  raised : Raised → Try A

-- `except OSError`
unfoldable pub is_os_error : Raised → Bool
is_os_error (file_not_found e) = true
is_os_error (file_exists e) = true
is_os_error (other_os_error e) = true
is_os_error (value_error e) = false
is_os_error (other_exception e) = false

-- `except (OSError, ValueError)`
unfoldable pub is_os_or_value_error : Raised → Bool
unfolding is_os_error
is_os_or_value_error (value_error e) = true
is_os_or_value_error e = is_os_error e

unfoldable pub message : Raised → Text
message (file_not_found e) = e
message (file_exists e) = e
message (other_os_error e) = e
message (value_error e) = e
message (other_exception e) = e

-- `except … as error: raise …`, for a call that raises no `HarnessViolation`.
unfoldable pub attempt :
    {A : Type 0} → (Raised → Bool) → (Text → HarnessViolation) → Try A → Result A
unfolding message
attempt catches error (returned a) = ok a
attempt catches error (raised e) =
    if catches e then violation (error (message e)) else exception (message e)

-- A call of the library acts on the world, and raises no `HarnessViolation`.
abbrev pub Call : Type 0 → Type 0 → Type 0
Call W A = W → A × W

abbrev pub act : {W A : Type 0} → Call W A → Exec W A
act call w = let (a, w') = call w in (ok a, w')

-- A call under such a handler.
abbrev pub guarded :
    {W A : Type 0} → (Raised → Bool) → (Text → HarnessViolation) → Call W (Try A) → Exec W A
guarded catches error call = act call >>= λ tried. lift (attempt catches error tried)

-- `S_ISDIR`, `S_ISREG` and `S_ISLNK` of `st_mode`.
pub data Kind : Type 0 where
  directory regular symlink special : Kind

-- The calls, each under its name in the library. `git` runs the program with the arguments in the
-- directory, `resolve` is strict and `resolve_any` is not, `read_link` gives the bytes of the target,
-- and `dumps` takes `ensure_ascii`. `wording` is the text of a message.
pub record System : Type 1 where
  pub machine : Machine
  pub library : Library
  pub git : Text → List Text → Call machine.World Finished
  pub resolve : Text → Call machine.World (Try Text)
  pub resolve_any : Text → Call machine.World Text
  pub lstat : Text → Call machine.World (Try Kind)
  pub mkdir : Text → Call machine.World (Try (Unit {0}))
  pub read_bytes : Text → Call machine.World (Try (List ℕ))
  pub read_link : Text → Call machine.World (Try (List ℕ))
  pub unlink : Text → Call machine.World (Try (Unit {0}))
  pub make_temporary : Text → Call machine.World (Try Text)
  pub write : Text → List ℕ → Call machine.World (Try (Unit {0}))
  pub flush : Text → Call machine.World (Try (Unit {0}))
  pub fsync : Text → Call machine.World (Try (Unit {0}))
  pub close : Text → Call machine.World (Try (Unit {0}))
  pub replace : Text → Text → Call machine.World (Try (Unit {0}))
  pub unlink_missing_ok : Text → Call machine.World (Try (Unit {0}))
  pub dumps : Bool → Json → Text
  pub encode_utf8 : Text → Option (List ℕ)
  pub encode_surrogateescape : Text → Option (List ℕ)
  pub wording : Reason → Text

-- Paths are absolute, in the normal form of `pathlib`.
abbrev pub base_of : Text → Text
base_of root = if root == txt "/" then root else root ++ txt "/"

-- `root / name`
unfoldable pub join_path : Text → Text → Text
join_path root name = base_of root ++ name

-- `path.relative_to(root).as_posix()`, `none` for its `ValueError`.
unfoldable pub relative_to : Text → Text → Option Text
relative_to path root = if path == root then some (txt ".") else remove_prefix path (base_of root)
