-- ===== src/Witnesses/Evaluations.antt =====
-- A run of `evaluate` on a repository whose files and commits do not change.
use mathlib.Core.Option.{bind}
use coffee_order_system.Evaluate.{evaluation_from_values, evaluate_body, note_raise}
use coffee_order_system.Freshness.{freshness_check, Identity, compare_identity}
use coffee_order_system.Loading.{
  load_risk_policy, load_plan, load_plan_lock, validate_evaluate_clean_state,
}
use coffee_order_system.Evidence.{
  remove_stale_plan_lock, remove_stale_evaluation, write_json_atomic,
}
use coffee_order_system.Migrations.{validate_existing_migrations_immutable, check_migrations}
use coffee_order_system.Git.{
  resolve_local_git_context, collect_worktree_paths, collect_local_changed_paths, compute_diff_hash,
}
use coffee_order_system.Diff.{parse_name_status, parse_nul_paths}
use coffee_order_system.Gate.{
  scope_violations, classify_risks, validate_risk_declarations, validate_contract_changes,
}
use coffee_order_system.PlanFile.{parse_plan}
use coffee_order_system.PolicyFile.{parse_risk_policy}
use coffee_order_system.Paths.{
  validate_repository_pattern, path_matches, validate_plan_pattern, plan_path_matches_issue,
  validate_branch, contract_change_path, is_sha, is_plan_hash,
}
use coffee_order_system.Outcome.Aggregate.{aggregate_state}
use coffee_order_system.Prelude.{
  ℕ, ◌≡◌, refl, true, false, Option, none, some, List, [], ◌∷◌, ◌++◌, ◌==◌, text_eq, texts_eq,
  nat_eq, if◌then◌else◌, Text, txt, ℤ, map, contains, sorted_set, below_one, decode_surrogateescape,
  decode_replace, any, all, keep, remove_suffix, strip, is_control, split, has_part, decimal,
  int_eq, ◌↔◌,
}
use coffee_order_system.Outcome.{State, plain_check, ok}
use coffee_order_system.Json.{Json, obj, keys, get_item, parse_json_object}
use coffee_order_system.LockFile.{plan_lock_payload, parse_plan_lock, validate_plan_lock}
use coffee_order_system.Commands.{completed}
use coffee_order_system.Checks.{
  RawChecks, iterable, required_ids, validate_check_runner_results, required_check_ids,
}
use coffee_order_system.Checks.Contract.{as_candidate}
use coffee_order_system.Effect.{Exec, give}
use coffee_order_system.Effect.NoPass.{RaisesNoPass-ok, RunsNoPass}
use coffee_order_system.System.{
  System, Try, returned, raised, file_not_found, Kind, directory, regular, attempt,
}
use coffee_order_system.Conclude.{evaluate}
use coffee_order_system.Migrations.Immutable.{check_migrations-IsImmutable}
use coffee_order_system.Freshness.Same.{IsSame, compare_identity-IsSame}
use coffee_order_system.Violations.Stages.{evaluate_body-RunsNoPass}
use coffee_order_system.Verdict.Sound.{IsSound, evaluate-IsSound}
use coffee_order_system.Witnesses.{order_file, some_hash, some_sha, a_plan, a_context}
use coffee_order_system.Witnesses.Files.{plan_json, a_lock}
use coffee_order_system.Witnesses.Policies.{policy_json}
use coffee_order_system.Witnesses.Checks.{named_check}

-- The content of a file is one number, by which the parser tells the files apart.
abbrev policy_file : Text
policy_file = txt "/r/harness/risk-policy.json"

abbrev plan_file : Text
plan_file = txt "/r/harness/plans/7.json"

abbrev lock_file : Text
lock_file = txt "/r/build/harness/plan.lock.json"

abbrev pub evaluation_file : Text
evaluation_file = txt "/r/build/harness/evaluation.json"

abbrev content : Text → List ℕ
content path = if path == policy_file then 1 ∷ [] else if path == plan_file then 2 ∷ [] else 3 ∷ []

abbrev parse : List ℕ → Option Json
parse [] = none
parse (n ∷ ns) =
    if n == 1
    then some policy_json
    else if n == 2
    then some plan_json
    else some (obj (plan_lock_payload a_lock))

abbrev kind_at : Text → Try Kind
kind_at path =
    if path == evaluation_file
    then raised (file_not_found (txt "no file"))
    else if path == lock_file
    then returned regular
    else returned directory

abbrev answer : List Text → List ℕ
answer arguments =
    if arguments == (txt "branch" ∷ txt "--show-current" ∷ [])
    then txt "feature/7-orders"
    else if arguments == (txt "rev-parse" ∷ txt "refs/remotes/origin/main" ∷ [])
    then some_sha
    else if arguments == (txt "rev-parse" ∷ txt "HEAD" ∷ [])
    then some_sha
    else if arguments == (txt "merge-base" ∷ txt "HEAD" ∷ some_sha ∷ [])
    then some_sha
    else if arguments == (
        txt "diff"
        ∷ txt "--name-status"
        ∷ txt "-z"
        ∷ txt "--find-renames"
        ∷ txt "--find-copies-harder"
        ∷ some_sha
        ∷ txt "HEAD"
        ∷ txt "--"
        ∷ [])
    then txt "M" ++ 0 ∷ (order_file ++ 0 ∷ [])
    else []

abbrev pub a_system : System
a_system = record {
  machine = record {
    World = Unit {0};
    python_version = (3, 13, 0);
    python = txt "python";
    root = txt "/r";
    which = λ w tool. true;
    has_gradlew = λ w. true;
    run = λ w command. (completed (ℤ.pos 0) [] [], 5, w);
    is_word = λ c. false;
  };
  library = record { json = parse; sha256 = λ _. some_hash };
  git = λ root arguments w. (completed (ℤ.pos 0) (answer arguments) [], w);
  resolve = λ path w. (returned path, w);
  resolve_any = λ path w. (path, w);
  lstat = λ path w. (kind_at path, w);
  mkdir = λ path w. (returned tt, w);
  read_bytes = λ path w. (returned (content path), w);
  read_link = λ path w. (returned [], w);
  unlink = λ path w. (returned tt, w);
  make_temporary = λ path w. (returned (path ++ txt "/.tmp"), w);
  write = λ path bytes w. (returned tt, w);
  flush = λ path w. (returned tt, w);
  fsync = λ path w. (returned tt, w);
  close = λ path w. (returned tt, w);
  replace = λ from to w. (returned tt, w);
  unlink_missing_ok = λ path w. (returned tt, w);
  dumps = λ ascii json. txt "{}";
  encode_utf8 = λ text. some text;
  encode_surrogateescape = λ text. some text;
  wording = λ reason. txt "message";
}

abbrev passing_runner : Text → List Text → Exec (Unit {0}) RawChecks
passing_runner root requested =
    give (iterable (map (λ id. as_candidate (named_check id State.pass)) (required_ids requested)))

a_verdict :
    (evaluate a_system (txt "/r") (txt "harness/plans/7.json") passing_runner tt).0.state
    ≡ State.pass
unfolding contains sorted_set below_one decode_surrogateescape decode_replace txt any all keep
    remove_suffix strip is_control split has_part decimal plain_check aggregate_state keys get_item
    parse_json_object validate_repository_pattern path_matches validate_plan_pattern
    plan_path_matches_issue validate_branch contract_change_path is_sha is_plan_hash
    parse_risk_policy parse_plan plan_lock_payload parse_plan_lock validate_plan_lock
    scope_violations classify_risks validate_risk_declarations validate_contract_changes
    validate_check_runner_results required_check_ids parse_name_status parse_nul_paths attempt
    resolve_local_git_context collect_worktree_paths collect_local_changed_paths compute_diff_hash
    validate_existing_migrations_immutable remove_stale_plan_lock remove_stale_evaluation
    write_json_atomic load_risk_policy load_plan load_plan_lock validate_evaluate_clean_state
    freshness_check evaluation_from_values evaluate_body note_raise evaluate text_eq texts_eq nat_eq
    int_eq bind as_candidate
a_verdict = refl

evaluate-IsSound_example :
    IsSound a_system
      (txt "/r")
      (txt "harness/plans/7.json")
      passing_runner
      tt
      (evaluate a_system (txt "/r") (txt "harness/plans/7.json") passing_runner tt).0
      (evaluate a_system (txt "/r") (txt "harness/plans/7.json") passing_runner tt).1
evaluate-IsSound_example =
    evaluate-IsSound a_system (txt "/r") (txt "harness/plans/7.json") passing_runner tt
      (λ at_root ids. record { at = λ w. RaisesNoPass-ok _ }) a_verdict

evaluate_body-RunsNoPass_example :
    RunsNoPass
      (evaluate_body a_system (txt "/r") (txt "harness/plans/7.json") (passing_runner (txt "/r")))
evaluate_body-RunsNoPass_example =
    evaluate_body-RunsNoPass a_system (passing_runner (txt "/r")) (txt "/r")
      (txt "harness/plans/7.json") (λ ids. record { at = λ w. RaisesNoPass-ok _ })

abbrev an_identity : Identity
an_identity = record {
  plan = a_plan;
  context = a_context;
  changed_paths = order_file ∷ [];
  diff_hash = some_hash;
}

compare_identity-IsSame_example :
    ((compare_identity an_identity (record an_identity { changed_paths = [] })).state ≡ State.pass)
    ↔ IsSame an_identity (record an_identity { changed_paths = [] })
compare_identity-IsSame_example =
    compare_identity-IsSame an_identity (record an_identity { changed_paths = [] })

abbrev one_migration : List Text
one_migration = txt "src/main/resources/db/migration/V1__a.sql" ∷ []

check_migrations-IsImmutable_example :
    (check_migrations (order_file ∷ one_migration) one_migration one_migration ≡ ok tt) ↔ (
      ((path : Text)
        → contains one_migration path ≡ true
        → contains (order_file ∷ one_migration) path ≡ true)
      × ((path : Text) → contains one_migration path ≡ true → contains one_migration path ≡ false))
check_migrations-IsImmutable_example =
    check_migrations-IsImmutable (order_file ∷ one_migration) one_migration one_migration
