-- ===== src/Freshness.antt =====
-- scripts/agent-harness.py: `_freshness_check`.
pub mod Same
use coffee_order_system.Prelude.{
  ℕ, Bool, ◌||◌, Option, none, some, List, [], ◌∷◌, ◌==◌, text_eq, texts_eq, if◌then◌else◌, Text,
  txt, contains,
}
use coffee_order_system.Outcome.{
  Result, ok, violation, exception, Reason, about, value, values, caused, HarnessViolation, fail,
  replan_required, State, state_eq, CheckResult, plain_check,
}
use coffee_order_system.Model.{Plan, GitContext}
use coffee_order_system.LockFile.{changed_labels}
use coffee_order_system.Runner.{Machine}
use coffee_order_system.Effect.{Exec, ◌>>=◌, ◌>>◌, give}
use coffee_order_system.System.{System}
use coffee_order_system.Git.{
  resolve_local_git_context, collect_local_changed_paths, compute_diff_hash,
}
use coffee_order_system.Loading.{
  load_risk_policy, load_plan, policy_path, validate_evaluate_clean_state,
}
use coffee_order_system.Prepare.{check_of}

-- What identifies the candidate that is evaluated.
pub record Identity : Type 0 where
  pub plan : Plan
  pub context : GitContext
  pub changed_paths : List Text
  pub diff_hash : Text

abbrev pub freshness_id : Text
freshness_id = txt "evidence.freshness"

-- `plan_identity_checks`
abbrev plan_identity_checks : List Text
plan_identity_checks =
    txt "plan.path"
    ∷ txt "plan.schema"
    ∷ txt "plan.scope"
    ∷ txt "plan.contract-changes"
    ∷ txt "git.branch"
    ∷ []

-- The check of a violation.
unfoldable pub stale_check : HarnessViolation → CheckResult
stale_check error =
    if error.check_id == txt "git.clean"
    then check_of error
    else plain_check freshness_id
        (if contains plan_identity_checks error.check_id || error.state == replan_required
          then replan_required
          else error.state)
        (caused (txt "no final identity") error.check_id error.reason)

-- `comparisons`
unfoldable pub identity_comparisons : Identity → Identity → List (Text × Bool)
identity_comparisons before after =
    (txt "base tip", before.context.base_tip_sha == after.context.base_tip_sha)
    ∷ (txt "merge-base", before.context.merge_base_sha == after.context.merge_base_sha)
    ∷ (txt "HEAD", before.context.candidate_head_sha == after.context.candidate_head_sha)
    ∷ (
      txt "tested revision",
      before.context.tested_revision_sha == after.context.tested_revision_sha,
    )
    ∷ (txt "plan path", before.plan.relative_path == after.plan.relative_path)
    ∷ (txt "plan hash", before.plan.plan_hash == after.plan.plan_hash)
    ∷ (txt "changed paths", before.changed_paths == after.changed_paths)
    ∷ (txt "diff hash", before.diff_hash == after.diff_hash)
    ∷ []

-- The check of the labels of what changed.
unfoldable pub change_check : List Text → CheckResult
change_check [] = plain_check freshness_id State.pass (about (txt "unchanged"))
change_check (label ∷ labels) =
    plain_check freshness_id replan_required (values (txt "identity changed") (label ∷ labels))

-- The check of an identity that was read again.
unfoldable pub compare_identity : Identity → Identity → CheckResult
unfolding identity_comparisons changed_labels change_check
compare_identity before after = change_check (changed_labels (identity_comparisons before after))

abbrev pub Freshness : Type 0
Freshness = CheckResult × Option (Plan × GitContext)

unfoldable pub freshness_of : Identity → Result Identity → Freshness
unfolding stale_check compare_identity
freshness_of before (violation error) = (stale_check error, none)
freshness_of before (exception error) =
    (plain_check freshness_id fail (value (txt "exception") error), none)
freshness_of before (ok after) = (compare_identity before after, some (after.plan, after.context))

module _ (sys : System) where
  open sys use {machine}
  open machine use {World}

  -- The second reading.
  unfoldable pub read_final_identity : Text → Text → Exec World Identity
  read_final_identity root plan_path = do
    validate_evaluate_clean_state sys root (txt "end")
    policy ← load_risk_policy sys (policy_path sys root)
    plan ← load_plan sys root plan_path policy
    context ← resolve_local_git_context sys root plan
    changed_paths ← collect_local_changed_paths sys root context.merge_base_sha
    diff_hash ← compute_diff_hash sys root context changed_paths
    give (record {
      plan = plan;
      context = context;
      changed_paths = changed_paths;
      diff_hash = diff_hash;
    })

  unfoldable pub freshness_check : Text → Text → Identity → World → Freshness × World
  unfolding read_final_identity freshness_of
  freshness_check root plan_path before w =
      let (r, w') = read_final_identity root plan_path w in (freshness_of before r, w')
