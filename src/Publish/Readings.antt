-- ===== src/Publish/Readings.antt =====
-- scripts/agent-publish.py: what is read before anything is published.
use coffee_order_system.Prelude.{
  ℕ, ◌+◌, ◌*◌, ◌-◌, Bool, false, not, ◌&&◌, Option, none, some, List, [], ◌∷◌, ◌++◌, ◌==◌, nat_eq,
  text_eq, leb, if◌then◌else◌, Text, txt, ℤ, starts_with,
}
use coffee_order_system.Outcome.{Reason, about, value}
use coffee_order_system.Json.{Json, int, str, obj, Fields}
use coffee_order_system.Paths.{remove_prefix, branch_kinds, is_sha}
use coffee_order_system.System.{is_os_error, is_os_or_value_error, join_path, relative_to}
use coffee_order_system.Publish.{
  Answer, answer, publish_error, Publisher, Step, ◌>>=◌, ◌>>◌, settle, give, refuse_if, ask, guard,
  command_output, lookup, get_or_null, as_dict, is_text,
}

pub record Manifest : Type 0 where
  pub issue : ℕ
  pub target_branch : Text
  pub objective : Text
  pub relative_path : Text

abbrev manifest_unreadable : Text → Reason
manifest_unreadable error = value (txt "cannot read manifest") error

-- `payload["issue"]`, `payload["targetBranch"]` and `payload["objective"]`, whose `KeyError` and
-- `TypeError` are caught.
unfoldable pub manifest_values : Option Json → Answer (Json × Json × Json)
manifest_values (some (obj fs)) = elim (lookup (txt "issue") fs) [
  | none ↦ publish_error (manifest_unreadable (txt "issue"))
  | some issue ↦ elim (lookup (txt "targetBranch") fs) [
    | none ↦ publish_error (manifest_unreadable (txt "targetBranch"))
    | some target_branch ↦ elim (lookup (txt "objective") fs) [
      | none ↦ publish_error (manifest_unreadable (txt "objective"))
      | some objective ↦ answer (issue, target_branch, objective)
    ]
  ]
]
manifest_values other = publish_error (manifest_unreadable (txt "no object"))

-- `type(issue) is int` and `issue >= 1`
unfoldable pub positive_issue : Json → Option ℕ
positive_issue (int (ℤ.pos n)) = if n == 0 then none else some n
positive_issue other = none

-- A text that is not empty.
unfoldable pub filled_text : Json → Option Text
filled_text (str s) = if s == [] then none else some s
filled_text other = none

abbrev or_refuse : {A : Type 0} → Reason → Option A → Answer A
or_refuse reason none = publish_error reason
or_refuse reason (some a) = answer a

abbrev below_root : Text → Text → Answer Text
below_root resolved root = elim (relative_to resolved root) [
  | none ↦ publish_error (manifest_unreadable (txt "not below the root"))
  | some path ↦ answer path
]

-- The loop over the digits of `([1-9][0-9]*)-`.
unfoldable pub number_before_dash : ℕ → Text → Option ℕ
number_before_dash n [] = none
number_before_dash n (c ∷ s) =
    let rest = number_before_dash (n * 10 + (c - 48)) s in
    if leb b'0' c && leb c b'9' then rest else if c == b'-' then some n else none

-- `([1-9][0-9]*)-` at the start of a text.
unfoldable pub leading_issue : Text → Option ℕ
unfolding number_before_dash
leading_issue [] = none
leading_issue (c ∷ s) = if leb b'1' c && leb c b'9' then number_before_dash (c - 48) s else none

-- The group of the pattern, over the kinds that are left.
unfoldable pub issue_behind : List Text → Text → Option ℕ
unfolding leading_issue
issue_behind [] branch = none
issue_behind (kind ∷ kinds) branch = elim (remove_prefix branch (kind ++ txt "/")) [
  | some rest ↦ leading_issue rest
  | none ↦ issue_behind kinds branch
]

unfoldable pub branch_matches : Option ℕ → ℕ → Bool
branch_matches none issue = false
branch_matches (some n) issue = n == issue

unfoldable pub assert_issue_branch : Text → ℕ → Answer (Unit {0})
unfolding issue_behind branch_matches
assert_issue_branch branch issue =
    refuse_if (not (branch_matches (issue_behind branch_kinds branch) issue))
      (value (txt "no branch of the issue") branch)

abbrev pub branch_command : List Text
branch_command = txt "git" ∷ txt "branch" ∷ txt "--show-current" ∷ []

abbrev pub head_command : List Text
head_command = txt "git" ∷ txt "rev-parse" ∷ txt "HEAD" ∷ []

abbrev pub status_command : List Text
status_command = txt "git" ∷ txt "status" ∷ txt "--porcelain" ∷ []

abbrev pub evidence_path : Text → Text
evidence_path root =
    join_path (join_path (join_path root (txt "build")) (txt "harness")) (txt "evaluation.json")

abbrev pub evidence_unreadable : Text → Reason
evidence_unreadable error = value (txt "cannot read evaluation") error

module _ (sys : Publisher) where
  open sys use {World, executable, resolve, resolve_any, read_text, loads}

  unfoldable pub load_manifest : Text → Text → Step World Manifest
  unfolding manifest_values positive_issue filled_text
  load_manifest root plan_path = do
    let candidate = if starts_with plan_path (txt "/") then plan_path else join_path root plan_path
    found ← ask (resolve candidate)
    resolved ← settle (guard is_os_or_value_error manifest_unreadable found)
    resolved_root ← ask (resolve_any root)
    relative_path ← settle (below_root resolved resolved_root)
    read ← ask (read_text resolved)
    text ← settle (guard is_os_or_value_error manifest_unreadable read)
    raw ← settle (manifest_values (loads text))
    number ← settle (or_refuse (about (txt "manifest issue")) (positive_issue raw.0))
    target_branch ← settle (or_refuse (about (txt "manifest targetBranch")) (filled_text raw.1))
    objective ← settle (or_refuse (about (txt "manifest objective")) (filled_text raw.2))
    give (record {
      issue = number;
      target_branch = target_branch;
      objective = objective;
      relative_path = relative_path;
    })

  unfoldable pub current_branch_and_head : Text → Step World (Text × Text)
  unfolding command_output
  current_branch_and_head root = do
    branch ← command_output sys branch_command root (txt "current branch")
    head ← command_output sys head_command root (txt "current HEAD")
    settle (refuse_if (branch == []) (about (txt "detached HEAD")))
    settle (refuse_if (not (is_sha head)) (about (txt "HEAD SHA")))
    give (branch, head)

  unfoldable pub assert_clean_worktree : Text → Step World (Unit {0})
  unfolding command_output
  assert_clean_worktree root = do
    status ← command_output sys status_command root (txt "worktree status")
    settle (refuse_if (not (status == [])) (value (txt "worktree not clean") status))

  abbrev pub evaluate_command : Text → Text → List Text
  evaluate_command root plan_path =
      executable
      ∷ join_path (join_path root (txt "scripts")) (txt "agent-harness.py")
      ∷ txt "evaluate"
      ∷ plan_path
      ∷ []

  -- `json.loads(…)` under a handler, and without one.
  abbrev pub load_or_refuse : (Text → Reason) → Text → Answer Json
  load_or_refuse reason text = elim (loads text) [
    | none ↦ publish_error (reason (txt "JSONDecodeError"))
    | some payload ↦ answer payload
  ]

  unfoldable pub evaluate_and_read_evidence : Text → Text → Text → Step World Fields
  unfolding command_output as_dict is_text get_or_null
  evaluate_and_read_evidence root plan_path head = do
    ran ← command_output sys (evaluate_command root plan_path) root (txt "harness evaluate")
    read ← ask (read_text (evidence_path root))
    text ← settle (guard is_os_error evidence_unreadable read)
    payload ← settle (load_or_refuse evidence_unreadable text)
    evidence ← settle (as_dict payload)
    settle (
        refuse_if (not (is_text (get_or_null (txt "state") evidence) (txt "PASS")))
          (about (txt "evaluation not PASS")))
    settle (
        refuse_if (not (is_text (get_or_null (txt "candidateHeadSha") evidence) head))
          (about (txt "candidate HEAD")))
    give evidence
