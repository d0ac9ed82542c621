-- ===== src/Evidence.antt =====
-- scripts/agent-harness.py: the paths of the evidence files below `build/harness`, their removal and
-- their atomic writing.
pub mod SafePath
use coffee_order_system.Prelude.{
  ℕ, true, false, ◌==◌, text_eq, nat_eq, if◌then◌else◌, none, some, List, [], ◌∷◌, ◌++◌, Text, txt,
}
use coffee_order_system.Outcome.{
  Result, ok, violation, exception, Reason, about, value, values, HarnessViolation, violation_of,
  fail,
}
use coffee_order_system.Outcome
use coffee_order_system.Json.{Json}
use coffee_order_system.Paths.{rpartition, slash}
use coffee_order_system.Effect.{Exec, ◌>>=◌, ◌>>◌, lift, give, finally, on_raise}
use coffee_order_system.System.{
  System, Try, returned, raised, file_not_found, file_exists, is_os_error, is_os_or_value_error,
  attempt, Call, act, guarded, Kind, directory, regular, symlink, special, join_path, relative_to,
}

-- `_evidence_path_error`
abbrev pub evidence_path_error : Reason → HarnessViolation
evidence_path_error reason = violation_of fail (txt "evidence.path") reason

-- A message about a path and an error.
abbrev path_message : Text → Text → Text → HarnessViolation
path_message subject path error = evidence_path_error (values subject (path ∷ error ∷ []))

unfoldable pub require_directory : Text → Kind → Result (Unit {0})
require_directory path directory = ok tt
require_directory path symlink = violation (evidence_path_error (value (txt "symlink") path))
require_directory path regular =
    violation (evidence_path_error (value (txt "not a directory") path))
require_directory path special =
    violation (evidence_path_error (value (txt "not a directory") path))

unfoldable pub require_regular : Text → Kind → Result (Unit {0})
require_regular path regular = ok tt
require_regular path symlink = violation (evidence_path_error (value (txt "symlink") path))
require_regular path directory =
    violation (evidence_path_error (value (txt "not a regular file") path))
require_regular path special =
    violation (evidence_path_error (value (txt "not a regular file") path))

module _ (sys : System) where
  open sys use {
    machine, resolve, lstat, mkdir, unlink, make_temporary, write, flush, fsync, close, replace,
    unlink_missing_ok, dumps, encode_utf8,
  }
  open machine use {World}

  abbrev root_error : Text → HarnessViolation
  root_error error = evidence_path_error (value (txt "repository root") error)

  unfoldable pub require_root : Text → Kind → Result Text
  require_root resolved_root directory = ok resolved_root
  require_root resolved_root other =
      violation (evidence_path_error (about (txt "root is no directory")))

  -- `_strict_repository_root`
  unfoldable pub strict_repository_root : Text → Exec World Text
  unfolding require_root
  strict_repository_root root = do
    resolved_root ← guarded is_os_error root_error (resolve root)
    kind ← guarded is_os_error root_error (lstat resolved_root)
    lift (require_root resolved_root kind)

  -- `mkdir` where the directory is missing, and the second `lstat`.
  unfoldable pub directory_made : Text → Try (Unit {0}) → Result (Unit {0})
  directory_made path (returned done) = ok tt
  directory_made path (raised (file_exists e)) = ok tt
  directory_made path (raised e) =
      attempt is_os_error (path_message (txt "cannot make directory") path) (raised e)

  unfoldable pub make_directory : Text → Exec World Kind
  unfolding directory_made
  make_directory path = do
    made ← act (mkdir path)
    lift (directory_made path made)
    guarded is_os_error (path_message (txt "cannot stat made directory") path) (lstat path)

  unfoldable pub kind_or_make : Text → Try Kind → Exec World Kind
  unfolding make_directory
  kind_or_make path (returned kind) = give kind
  kind_or_make path (raised (file_not_found e)) = make_directory path
  kind_or_make path (raised e) =
      lift (attempt is_os_error (path_message (txt "cannot stat directory") path) (raised e))

  unfoldable pub directory_kind : Text → Exec World Kind
  unfolding kind_or_make
  directory_kind path = do status ← act (lstat path); kind_or_make path status

  -- The resolved path must lie below the root.
  unfoldable pub require_inside : Text → Text → Try Text → Result (Unit {0})
  unfolding relative_to
  require_inside root path tried = elim tried [
    | raised e ↦
        attempt is_os_or_value_error (λ _. evidence_path_error (value (txt "outside") path))
          (raised e)
    | returned resolved ↦ elim (relative_to resolved root) [
      | none ↦ violation (evidence_path_error (value (txt "outside") path))
      | some inside ↦ ok tt
    ]
  ]

  -- `_ensure_safe_evidence_directory`
  unfoldable pub ensure_safe_evidence_directory : Text → Text → Exec World (Unit {0})
  unfolding directory_kind require_directory require_inside
  ensure_safe_evidence_directory root path = do
    kind ← directory_kind path
    lift (require_directory path kind)
    tried ← act (resolve path)
    lift (require_inside root path tried)

  unfoldable pub accept_path : Text → Try Kind → Result Text
  unfolding require_regular
  accept_path path (returned kind) = Outcome.◌>>=◌ (require_regular path kind) (λ _. ok path)
  accept_path path (raised (file_not_found e)) = ok path
  accept_path path (raised e) =
      attempt is_os_error (path_message (txt "cannot stat file") path) (raised e)

  -- `_safe_evidence_path`
  unfoldable pub safe_evidence_path : Text → Text → Exec World Text
  unfolding strict_repository_root ensure_safe_evidence_directory accept_path join_path
  safe_evidence_path root filename = do
    resolved_root ← strict_repository_root root
    let build_directory = join_path resolved_root (txt "build")
    let harness_directory = join_path build_directory (txt "harness")
    ensure_safe_evidence_directory resolved_root build_directory
    ensure_safe_evidence_directory resolved_root harness_directory
    let path = join_path harness_directory filename
    status ← act (lstat path)
    lift (accept_path path status)

  unfoldable pub safe_evidence_lock_path : Text → Exec World Text
  unfolding safe_evidence_path
  safe_evidence_lock_path root = safe_evidence_path root (txt "plan.lock.json")

  unfoldable pub safe_evidence_evaluation_path : Text → Exec World Text
  unfolding safe_evidence_path
  safe_evidence_evaluation_path root = safe_evidence_path root (txt "evaluation.json")

  abbrev pub stale_error : Text → Text → HarnessViolation
  stale_error label error =
      evidence_path_error (values (txt "cannot remove stale file") (label ∷ error ∷ []))

  unfoldable pub remove_found : Text → Text → Try Kind → Exec World Text
  remove_found path label (returned regular) = do
    guarded is_os_error (stale_error label) (unlink path)
    give path
  remove_found path label (returned kind) =
      lift (violation (evidence_path_error (value (txt "not a regular file") label)))
  remove_found path label (raised (file_not_found e)) = give path
  remove_found path label (raised e) = lift (attempt is_os_error (stale_error label) (raised e))

  -- `_remove_stale_evidence`
  unfoldable pub remove_stale_evidence : Text → Text → Exec World Text
  unfolding remove_found
  remove_stale_evidence path label = do status ← act (lstat path); remove_found path label status

  unfoldable pub remove_stale_plan_lock : Text → Exec World Text
  unfolding safe_evidence_lock_path remove_stale_evidence
  remove_stale_plan_lock root = do
    lock_path ← safe_evidence_lock_path root
    remove_stale_evidence lock_path (txt "plan lock")

  unfoldable pub remove_stale_evaluation : Text → Exec World Text
  unfolding safe_evidence_evaluation_path remove_stale_evidence
  remove_stale_evaluation root = do
    evaluation_path ← safe_evidence_evaluation_path root
    remove_stale_evidence evaluation_path (txt "evaluation")

  -- A call with no handler around it.
  abbrev pub unguarded : {A : Type 0} → Call World (Try A) → Exec World A
  unguarded call = guarded (λ e. false) (λ e. evidence_path_error (about e)) call

  -- The bytes of the payload; a text that UTF-8 cannot hold is escaped.
  unfoldable pub encode_payload : Json → Result (List ℕ)
  encode_payload payload = elim (encode_utf8 (dumps false payload ++ (10 ∷ []))) [
    | some encoded ↦ ok encoded
    | none ↦ elim (encode_utf8 (dumps true payload ++ (10 ∷ []))) [
      | some escaped ↦ ok escaped
      | none ↦ exception (txt "UnicodeEncodeError")
    ]
  ]

  -- `path.parent`
  unfoldable pub parent_of : Text → Text
  parent_of path = elim (rpartition slash path) [
    | none ↦ txt "."
    | some (before, name) ↦ if before == [] then txt "/" else before
  ]

  unfoldable pub write_json_atomic : Text → Json → Exec World (Unit {0})
  unfolding encode_payload parent_of
  write_json_atomic path payload = do
    encoded ← lift (encode_payload payload)
    temporary ← unguarded (make_temporary (parent_of path))
    on_raise
        (do
          finally
              (do
                unguarded (write temporary encoded)
                unguarded (flush temporary)
                unguarded (fsync temporary))
              (unguarded (close temporary))
          unguarded (replace temporary path))
        (unguarded (unlink_missing_ok temporary))
