-- ===== src/Git.antt =====
-- scripts/agent-harness.py: the commands of git, the context of the branch, the changed paths and the
-- digest of the diff.
pub mod Changes
pub mod Listed
use coffee_order_system.Prelude.{
  ℕ, not, none, some, List, [], ◌∷◌, ◌++◌, ◌==◌, nat_eq, text_eq, texts_eq, int_eq, if◌then◌else◌,
  Text, txt, ℤ, keep, contains, sorted_set, strip, decode_replace, decode_surrogateescape,
}
use coffee_order_system.Outcome.{
  Result, ok, violation, exception, Reason, about, value, values, caused, HarnessViolation,
  violation_of, fail, blocked, replan_required, reject_if,
}
use coffee_order_system.Commands.{Finished, os_error, completed}
use coffee_order_system.Model.{Plan, GitContext}
use coffee_order_system.Paths.{validate_branch, is_sha}
use coffee_order_system.Diff.{git_diff_error, parse_name_status, parse_nul_paths}
use coffee_order_system.Effect.{Exec, ◌>>=◌, ◌>>◌, lift, give, catch, renaming}
use coffee_order_system.System.{
  System, Try, returned, raised, value_error, other_os_error, is_os_or_value_error, Call, act,
  guarded, Kind, directory, regular, symlink, special, join_path, relative_to,
}

-- `_decode_git_output`
unfoldable pub decode_git_output : List ℕ → Text
decode_git_output raw = strip (decode_replace raw)

abbrev git_error : Reason → HarnessViolation
git_error reason = violation_of blocked (txt "git.repository") reason

-- What `run_git` makes of the end of a command.
unfoldable pub git_result : List Text → Finished → Result (List ℕ)
unfolding decode_git_output
git_result arguments (os_error error) = violation (git_error (value (txt "cannot run git") error))
git_result arguments (completed code stdout stderr) =
    if code == ℤ.pos 0
    then ok stdout
    else violation (git_error (values (txt "git failed") (decode_git_output stderr ∷ arguments)))

-- The labels of the texts that are no SHA.
unfoldable pub malformed : List (Text × Text) → List Text
malformed [] = []
malformed ((label, sha) ∷ identities) =
    let rest = malformed identities in if is_sha sha then rest else label ∷ rest

module _ (sys : System) where
  open sys use {
    machine, library, git, resolve, resolve_any, lstat, read_bytes, read_link,
    encode_surrogateescape,
  }
  open machine use {World}

  -- `run_git`
  unfoldable pub run_git : Text → List Text → Exec World (List ℕ)
  unfolding git_result
  run_git root arguments = do
    finished ← act (git root arguments)
    lift (git_result arguments finished)

  unfoldable pub find_git_root : Text → Exec World Text
  unfolding run_git
  find_git_root start = do
    raw ← run_git start (txt "rev-parse" ∷ txt "--show-toplevel" ∷ [])
    let root = strip (decode_surrogateescape raw)
    lift (reject_if (root == []) (git_error (about (txt "no repository root"))))
    act (resolve_any root)

  abbrev pub fetch_failed : Text → HarnessViolation → HarnessViolation
  fetch_failed target error =
      violation_of blocked (txt "git.base") (caused (txt "fetch failed") target error.reason)

  unfoldable pub resolve_local_git_context : Text → Plan → Exec World GitContext
  unfolding run_git malformed
  resolve_local_git_context root plan = do
    catch
        (do
          _ ← run_git root (txt "fetch" ∷ txt "--quiet" ∷ txt "origin" ∷ plan.target_branch ∷ [])
          give tt)
        (λ error. lift (violation (fetch_failed plan.target_branch error)))
    raw_branch ← run_git root (txt "branch" ∷ txt "--show-current" ∷ [])
    let branch = strip (decode_surrogateescape raw_branch)
    lift (
        reject_if (branch == [])
          (violation_of replan_required (txt "git.branch") (about (txt "detached HEAD"))))
    lift (validate_branch branch plan.issue)
    raw_base ←
        run_git root (txt "rev-parse" ∷ (txt "refs/remotes/origin/" ++ plan.target_branch) ∷ [])
    let base_tip_sha = decode_git_output raw_base
    raw_merge ← run_git root (txt "merge-base" ∷ txt "HEAD" ∷ base_tip_sha ∷ [])
    let merge_base_sha = decode_git_output raw_merge
    raw_head ← run_git root (txt "rev-parse" ∷ txt "HEAD" ∷ [])
    let candidate_head_sha = decode_git_output raw_head
    let bad = malformed (
        (txt "base tip", base_tip_sha)
        ∷ (txt "merge-base", merge_base_sha)
        ∷ (txt "HEAD", candidate_head_sha)
        ∷ [])
    lift (
        reject_if (not (bad == []))
          (violation_of fail (txt "git.base") (values (txt "malformed SHA") bad)))
    give (record {
      branch = branch;
      target_branch = plan.target_branch;
      base_tip_sha = base_tip_sha;
      merge_base_sha = merge_base_sha;
      candidate_head_sha = candidate_head_sha;
      tested_revision_sha = candidate_head_sha;
    })

  abbrev rename_options : List Text
  rename_options = txt "--name-status" ∷ txt "-z" ∷ txt "--find-renames" ∷ []

  abbrev pub untracked_command : List Text
  untracked_command = txt "ls-files" ∷ txt "--others" ∷ txt "--exclude-standard" ∷ txt "-z" ∷ []

  -- `parse_name_status(run_git(root, …))`
  unfoldable pub name_status : Text → List Text → Exec World (List Text)
  unfolding run_git
  name_status root arguments = do raw ← run_git root arguments; lift (parse_name_status raw)

  -- `parse_nul_paths(run_git(root, …))`
  unfoldable pub nul_paths : Text → List Text → Exec World (List Text)
  unfolding run_git
  nul_paths root arguments = do raw ← run_git root arguments; lift (parse_nul_paths raw)

  unfoldable pub collect_worktree_paths : Text → Exec World (List Text)
  unfolding name_status nul_paths
  collect_worktree_paths root = do
    cached ← name_status root (txt "diff" ∷ txt "--cached" ∷ rename_options)
    unstaged ← name_status root (txt "diff" ∷ rename_options)
    untracked ← nul_paths root untracked_command
    give (sorted_set (cached ++ unstaged ++ untracked))

  abbrev pub harder : List Text → List Text
  harder more =
      txt "--name-status" ∷ txt "-z" ∷ txt "--find-renames" ∷ txt "--find-copies-harder" ∷ more

  unfoldable pub collect_local_changed_paths : Text → Text → Exec World (List Text)
  unfolding name_status nul_paths
  collect_local_changed_paths root merge_base_sha = do
    committed ← name_status root (txt "diff" ∷ harder (merge_base_sha ∷ txt "HEAD" ∷ txt "--" ∷ []))
    cached ← name_status root (txt "diff" ∷ txt "--cached" ∷ harder (txt "--" ∷ []))
    unstaged ← name_status root (txt "diff" ∷ harder (txt "--" ∷ []))
    untracked ← nul_paths root untracked_command
    give (sorted_set (committed ++ cached ++ unstaged ++ untracked))

  -- The content of an untracked file, by its kind; the link itself is not followed.
  unfoldable pub content_of : Text → Text → Kind → Call World (Try (List ℕ))
  unfolding relative_to
  content_of resolved_root candidate symlink w = read_link candidate w
  content_of resolved_root candidate regular w =
      let (target, w1) = resolve candidate w in
      elim target [
        | raised e ↦ (raised e, w1)
        | returned path ↦ elim (relative_to path resolved_root) [
          | none ↦ (raised (value_error (txt "not below the root")), w1)
          | some inside ↦ read_bytes candidate w1
        ]
      ]
  content_of resolved_root candidate directory w =
      (raised (other_os_error (txt "no regular file or symlink")), w)
  content_of resolved_root candidate special w =
      (raised (other_os_error (txt "no regular file or symlink")), w)

  abbrev content_error : Text → Text → HarnessViolation
  content_error path error = git_diff_error (values (txt "untracked file") (path ∷ error ∷ []))

  -- `relative_path.encode("utf-8", errors="surrogateescape")`
  abbrev pub encode_path : Text → Result (List ℕ)
  encode_path path = elim (encode_surrogateescape path) [
    | none ↦ exception (txt "UnicodeEncodeError")
    | some bytes ↦ ok bytes
  ]

  -- The loop over the untracked paths: what it feeds to the digest.
  unfoldable pub untracked_bytes : Text → List Text → Exec World (List ℕ)
  unfolding content_of is_os_or_value_error join_path
  untracked_bytes resolved_root [] = give []
  untracked_bytes resolved_root (path ∷ paths) = do
    let candidate = join_path resolved_root path
    kind ← guarded is_os_or_value_error (content_error path) (lstat candidate)
    content ←
        guarded is_os_or_value_error (content_error path) (content_of resolved_root candidate kind)
    name ← lift (encode_path path)
    more ← untracked_bytes resolved_root paths
    give (name ++ 0 ∷ (content ++ 0 ∷ more))

  abbrev unreadable_diff : Text → HarnessViolation
  unreadable_diff error = git_diff_error (value (txt "diff hash input") error)

  unfoldable pub diff_parts : Text → GitContext → Exec World (List ℕ × List Text)
  unfolding run_git nul_paths
  diff_parts root context = do
    raw_diff ← run_git root (
        txt "diff"
        ∷ txt "--binary"
        ∷ txt "--no-ext-diff"
        ∷ txt "--no-textconv"
        ∷ context.merge_base_sha
        ∷ txt "--"
        ∷ [])
    untracked ← nul_paths root untracked_command
    give (raw_diff, untracked)

  unfoldable pub diff_input : Text → GitContext → Exec World (List ℕ × List Text)
  unfolding diff_parts
  diff_input root context = renaming unreadable_diff (diff_parts root context)

  unfoldable pub compute_diff_hash : Text → GitContext → List Text → Exec World Text
  unfolding diff_input untracked_bytes
  compute_diff_hash root context changed_paths = do
    input ← diff_input root context
    resolved_root ← act (resolve_any root)
    content ← untracked_bytes resolved_root (sorted_set (keep (contains changed_paths) input.1))
    give (library.sha256 (input.0 ++ content))
