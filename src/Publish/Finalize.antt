-- ===== src/Publish/Finalize.antt =====
-- scripts/agent-publish.py: `finalize`, and `main` behind the parsing of its arguments.
use coffee_order_system.Prelude.{
  ℕ, Bool, true, false, ◌||◌, not, Option, none, some, [], ◌∷◌, ◌==◌, text_eq, int_eq, Text, txt, ℤ,
  strip,
}
use coffee_order_system.Outcome.{about}
use coffee_order_system.Publish.{
  Answer, answer, publish_error, other_error, Publisher, Step, ◌>>=◌, ◌>>◌, settle, give, refuse_if,
  ask, issue,
}
use coffee_order_system.Publish.Readings.{
  Manifest, load_manifest, current_branch_and_head, assert_issue_branch, assert_clean_worktree,
  evaluate_and_read_evidence,
}
use coffee_order_system.Publish.Requests.{create_or_prepare_pr}
use coffee_order_system.Publish.Merging.{merge_and_verify}

pub record FinalizationResult : Type 0 where
  pub state : Text
  pub issue : ℕ
  pub branch : Text
  pub pr_number : ℤ
  pub pr_url : Text
  pub merged : Bool
  pub issue_closed : Option Bool

-- What is known before anything is published.
pub record Candidate : Type 0 where
  pub manifest : Manifest
  pub branch : Text
  pub head : Text

module _ (sys : Publisher) where
  open sys use {World, resolve_any}

  -- The steps of `finalize` before the push.
  unfoldable pub verify_candidate : Text → Text → Step World Candidate
  unfolding load_manifest current_branch_and_head assert_issue_branch assert_clean_worktree
      evaluate_and_read_evidence
  verify_candidate root plan_path = do
    manifest ← load_manifest sys root plan_path
    place ← current_branch_and_head sys root
    settle (assert_issue_branch place.0 manifest.issue)
    assert_clean_worktree sys root
    evidence ← evaluate_and_read_evidence sys root plan_path place.1
    give (record { manifest = manifest; branch = place.0; head = place.1 })

  -- The end of `finalize`.
  unfoldable pub finish : Text → Candidate → ℤ × Text → Bool → Step World FinalizationResult
  unfolding merge_and_verify
  finish root c pr false = give (record {
    state = txt "READY_FOR_REVIEW";
    issue = c.manifest.issue;
    branch = c.branch;
    pr_number = pr.0;
    pr_url = pr.1;
    merged = false;
    issue_closed = none;
  })
  finish root c pr true = do
    issue_closed ← merge_and_verify sys root c.manifest.issue pr.0
    give (record {
      state = txt "COMPLETED";
      issue = c.manifest.issue;
      branch = c.branch;
      pr_number = pr.0;
      pr_url = pr.1;
      merged = true;
      issue_closed = some issue_closed;
    })

  -- The steps from the push on.
  unfoldable pub publish : Text → Bool → Option Text → Candidate → Step World FinalizationResult
  unfolding create_or_prepare_pr finish
  publish root merge title c = do
    pr ← create_or_prepare_pr sys root c.manifest c.branch c.head title
    finish root c pr merge

  unfoldable pub finalize : Text → Text → Bool → Option Text → Step World FinalizationResult
  unfolding verify_candidate publish
  finalize root plan_path merge title = do
    candidate ← verify_candidate root plan_path
    publish root merge title candidate

  unfoldable pub find_git_root : Text → Step World Text
  unfolding issue
  find_git_root working_directory = do
    result ← issue sys (txt "git" ∷ txt "rev-parse" ∷ txt "--show-toplevel" ∷ []) working_directory
    settle (
        refuse_if (not (result.returncode == ℤ.pos 0) || strip result.stdout == [])
          (about (txt "no repository root")))
    ask (resolve_any (strip result.stdout))

  -- The exit code; an exception that is no `PublishError` leaves `main`.
  unfoldable pub code_of : Answer FinalizationResult → Answer ℕ
  code_of (answer result) = answer 0
  code_of (publish_error reason) = answer 1
  code_of (other_error e) = other_error e

  unfoldable pub main : Text → Text → Bool → Option Text → Step World ℕ
  unfolding find_git_root finalize code_of
  main working_directory plan_path merge title p =
      let (result, p') =
        (find_git_root working_directory >>= λ root. finalize root plan_path merge title) p in
      (code_of result, p')
