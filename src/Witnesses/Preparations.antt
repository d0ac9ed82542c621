-- ===== src/Witnesses/Preparations.antt =====
-- A run of `prepare` on the repository of the runs of `evaluate`.
use mathlib.Core.Option.{bind}
use coffee_order_system.Loading.{load_risk_policy, load_plan, validate_prepare_clean_state}
use coffee_order_system.Evidence.{remove_stale_plan_lock, write_json_atomic}
use coffee_order_system.Git.{resolve_local_git_context, collect_worktree_paths}
use coffee_order_system.Diff.{parse_name_status, parse_nul_paths}
use coffee_order_system.PlanFile.{parse_plan}
use coffee_order_system.PolicyFile.{parse_risk_policy}
use coffee_order_system.Paths.{
  validate_repository_pattern, validate_plan_pattern, plan_path_matches_issue, validate_branch,
  contract_change_path, is_sha, is_plan_hash,
}
use coffee_order_system.Prelude.{
  ◌≡◌, refl, text_eq, texts_eq, nat_eq, Text, txt, map, contains, sorted_set, below_one,
  decode_surrogateescape, decode_replace, any, all, keep, remove_suffix, strip, is_control, split,
  has_part, decimal, int_eq,
}
use coffee_order_system.Outcome.{State, plain_check, state_eq}
use coffee_order_system.Json.{keys, get_item, parse_json_object}
use coffee_order_system.LockFile.{plan_lock_payload, validate_plan_lock, make_plan_lock}
use coffee_order_system.Checks.{
  RawChecks, iterable, required_preflight_ids, validate_preflight_results,
}
use coffee_order_system.Checks.Contract.{as_candidate}
use coffee_order_system.Effect.{Exec, give}
use coffee_order_system.Effect.NoPass.{RaisesNoPass-ok}
use coffee_order_system.System.{attempt}
use coffee_order_system.Witnesses.Checks.{named_check}
use coffee_order_system.Prepare.{prepare}
use coffee_order_system.Prepare.Locked.{IsPrepared, prepare-IsPrepared}
use coffee_order_system.Witnesses.Evaluations.{a_system}
use coffee_order_system.Gate.{difference}

abbrev passing_preflight : Text → Exec (Unit {0}) RawChecks
passing_preflight root =
    give (iterable (map (λ id. as_candidate (named_check id State.pass)) required_preflight_ids))

a_preparation :
    (prepare a_system (txt "/r") (txt "harness/plans/7.json") passing_preflight tt).0.0 ≡ State.pass
unfolding contains sorted_set below_one decode_surrogateescape decode_replace txt any all keep
    remove_suffix strip is_control split has_part decimal plain_check keys get_item
    parse_json_object validate_repository_pattern validate_plan_pattern plan_path_matches_issue
    validate_branch contract_change_path is_sha is_plan_hash parse_risk_policy parse_plan
    plan_lock_payload validate_plan_lock parse_name_status parse_nul_paths attempt
    resolve_local_git_context collect_worktree_paths remove_stale_plan_lock write_json_atomic
    load_risk_policy load_plan text_eq texts_eq nat_eq int_eq bind as_candidate prepare
    validate_preflight_results validate_prepare_clean_state difference state_eq make_plan_lock
a_preparation = refl

prepare-IsPrepared_example :
    IsPrepared a_system
      (txt "/r")
      (txt "harness/plans/7.json")
      passing_preflight
      tt
      (prepare a_system (txt "/r") (txt "harness/plans/7.json") passing_preflight tt).0
prepare-IsPrepared_example =
    prepare-IsPrepared a_system (txt "/r") (txt "harness/plans/7.json") passing_preflight tt
      (λ at_root. record { at = λ w. RaisesNoPass-ok _ }) a_preparation
