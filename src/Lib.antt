-- ===== src/Lib.antt =====
-- A model of the Python scripts of the coffee order system's harness: the script that decides whether a
-- change to the repository may go on, by its plan, its risks and the checks that it must pass, the oracles
-- among these checks, the script that publishes a change that passed, and the check of the documents.
--
-- The parts and their files. The functions are those of scripts/agent-harness.py, but for Oracles,
-- Contracts, Publish and Documents.
--   Outcome        State, HarnessViolation, CheckResult. A function that may raise returns a Result:
--                  ok, a violation, or another exception by its name. Outcome.Aggregate has
--                  aggregate_state.
--   Paths          _validate_repository_pattern, path_matches, validate_plan_pattern,
--                  contract_change_path, plan_path_matches_issue, validate_branch and the forms of
--                  SHAs. Each regular expression is a function that takes the text apart at its
--                  fixed parts; Paths.Unicode has the decimal digits that `\d` accepts.
--   Json           what json.loads gives, with the pairs of an object in the order of the text, the
--                  hook _reject_duplicate_json_keys, and _parse_json_object.
--   PlanFile       parse_plan, with string_array and _non_empty_string.
--   PolicyFile     load_risk_policy from the bytes of the file on.
--   Gate           scope_violations, classify_risks, validate_risk_declarations and
--                  validate_contract_changes: the pure tests of the changed paths against the plan
--                  and the policy.
--   Diff           parse_name_status and parse_nul_paths, for the output of git.
--   LockFile       plan_lock_payload, make_plan_lock, load_plan_lock from the bytes of the file on,
--                  and validate_plan_lock.
--   Commands       what execute_command and blocked_environment_check make of a command that ended.
--   Runner         these two, run_prepare_preflight and run_required_checks, on a machine with
--                  explicit state.
--   Checks         _check_result_schema_error, validate_check_runner_results,
--                  validate_preflight_results and required_check_ids.
--   Effect         code that acts on a state and may raise: the state comes back beside the violation,
--                  with catch, finally and on_raise for the handlers. Effect.NoPass has the rules for
--                  calls that raise no violation in state PASS.
--   System         the calls of git, of the file system and of Python's library.
--   Git            run_git, find_git_root, resolve_local_git_context, collect_worktree_paths,
--                  collect_local_changed_paths and compute_diff_hash, each command in its order.
--   Migrations     validate_existing_migrations_immutable.
--   Evidence       the safe paths below build/harness, the removal of stale files and
--                  write_json_atomic.
--   Loading        load_risk_policy, load_plan, load_plan_lock and the tests for a clean worktree.
--   Prepare        prepare.
--   Freshness      _freshness_check.
--   Evaluate       Evaluation, _evaluation_from_values and the main try block of evaluate, whose local
--                  variables are a part of the state, since the handlers read them after a raise.
--   Conclude       Evaluation.to_dict, the rest of evaluate and the whole of it.
--   Violations     the rules of Effect.NoPass for the functions of the script.
--   Verdict        the stages of evaluate, inverted one by one.
--   Oracles        validate_migration_sequence of scripts/harness-oracles.py, from the names of the
--                  files on, and _find_cycle in Oracles.Cycles.
--   Contracts      the rest of scripts/harness-oracles.py: Architecture has validate_architecture, Routes
--                  and Api validate_api_contract, Instances run_multi_instance_oracle and its cleanup,
--                  Entry run_oracle and main behind its parser. A task replies, fails as an OracleFailure,
--                  or raises.
--   Publish        scripts/agent-publish.py: a step is a function of the commands so far and the world,
--                  and ends with an answer, a PublishError or another exception. Readings is what
--                  comes before the push, Requests create_or_prepare_pr, Merging merge_and_verify,
--                  Finalize finalize, find_git_root and main behind its parser.
--   Documents      scripts/check-doc-context.py: the links of the Markdown files and the sources without an
--                  AGENTS.md above them.
--   Model          the dataclasses Plan, RiskRule, RiskPolicy, RiskClassification, GitContext and
--                  PlanLock.
--   Prelude        lists, texts, sorted sets and Python's operations on strings.
--   Witnesses      runs on small inputs.
--
-- How the parts interact: a plan and a policy are read from bytes; the plan names the patterns that
-- the changed paths may match, and the policy the risks of the paths. The gates compare the two. The
-- lock keeps the plan's digest and the commits of the time when work began. The risks give the ids of
-- the checks, the runner runs these, and their results are validated before they are aggregated.
-- prepare writes the lock; evaluate reads it, collects the changed paths and the digest of the diff, calls
-- the gates and the check runner, reads the identity again, and writes the evaluation. finalize of
-- Publish runs evaluate as a command, reads the evaluation, and publishes the branch.
--
-- Texts are lists of code points and byte strings lists of bytes, over the native numbers. A Python set
-- that is only sorted, compared or searched is a list, sorted_set where the source sorts it. A frozen
-- dataclass is a record.
--
-- The parameters: Json.Library holds the JSON decoder and the SHA-256 function of Python's library;
-- Runner.Machine holds the running of commands, shutil.which, the test for an executable gradlew, and
-- the versions and paths that the interpreter knows. Each command may change the machine's state.
-- System.System holds git, the calls of the file system, each of which may change the world or meet a
-- world that another process has changed, the encoders and the wording of messages. Nothing is assumed
-- of any of these. Publish.Publisher holds the runner of commands, the reading of files and json.loads
-- for scripts/agent-publish.py. Contracts.Host holds re.search and re.findall, which take the text of the
-- pattern, glob with its result sorted, the running of commands, the clock, the free port and the terminal.
-- Documents.Repository is the tree of files, which that script only reads. The check runner and the
-- preflight are arguments, as in the source; of the runner a theorem may ask that it raises no violation
-- in state PASS.
--
-- Every loop is structural recursion over a list, but for the digits of a number n, of which n + 1
-- divisions by ten are enough, and the visits of _find_cycle, whose depth is at most the number of nodes
-- plus one, since each visit that goes on enters a node that was not entered.
--
-- Not modelled: the wording of messages, of which a Reason keeps the values that they show; the index
-- of a rule in a message; the limit of int() on texts of more than 4300 digits; the exceptions that
-- json.loads raises for deep nesting; the grammar of JSON text; the environment variable that
-- execute_command sets; the command line (CliParser, build_parser, print_checks and main); the keyword
-- arguments sort_keys and indent of json.dumps, which the parameter dumps stands for (sort_fields of
-- LockFile says in which order the file then has the fields of a lock); the parser of
-- scripts/harness-oracles.py and its messages on standard error; the parsing of arguments and the
-- printing in scripts/agent-publish.py, and the printing in scripts/check-doc-context.py; the service
-- itself, which is Java.
pub mod Prelude
pub mod Outcome
pub mod Paths
pub mod Diff
pub mod Model
pub mod Gate
pub mod Json
pub mod Publish
pub mod PlanFile
pub mod PolicyFile
pub mod LockFile
pub mod Checks
pub mod Commands
pub mod Contracts
pub mod Documents
pub mod Runner
pub mod Effect
pub mod System
pub mod Git
pub mod Migrations
pub mod Evidence
pub mod Loading
pub mod Prepare
pub mod Freshness
pub mod Evaluate
pub mod Conclude
pub mod Verdict
pub mod Violations
pub mod Oracles
pub mod Witnesses
