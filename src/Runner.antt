-- ===== src/Runner.antt =====
-- scripts/agent-harness.py: the commands that the checks run, and the default check runner.
pub mod Complete
pub mod Accepted
pub mod Selected
use coffee_order_system.Prelude.{
  ℕ, ◌-◌, ◌≡◌, Bool, not, ◌&&◌, ◌||◌, Option, List, [], ◌∷◌, ◌++◌, ◌==◌, map, nat_eq, text_eq,
  texts_eq, int_eq, if◌then◌else◌, contains, Text, txt, keep, all, ltb, leb,
}
use coffee_order_system.Outcome.{
  Result, ok, Reason, about, value, values, blocked, State, state_eq, CheckResult, plain_check,
}
use coffee_order_system.Outcome
use coffee_order_system.Checks.{ids, iterable, validate_preflight_results}
use coffee_order_system.Checks.Contract.{as_candidate}
use coffee_order_system.Commands.{Finished, environment_result, command_result, require_seventeen}

-- The machine: `sys.version_info`, `shutil.which`, the test for an executable `gradlew`, and
-- commands, each with the milliseconds that it took. `is_word` is `\w` of `re`. The variable
-- PYTHONDONTWRITEBYTECODE that `execute_command` adds to the environment is left out.
pub record Machine : Type 1 where
  pub World : Type 0
  pub python_version : ℕ × ℕ × ℕ
  pub python : Text
  pub root : Text
  pub which : World → Text → Bool
  pub has_gradlew : World → Bool
  pub run : World → List Text → Finished × ℕ × World
  pub is_word : ℕ → Bool

-- `version >= (3, 13)`
unfoldable pub is_supported : ℕ × ℕ × ℕ → Bool
is_supported (major, minor, micro) = ltb 3 major || major == 3 && leb 13 minor

abbrev harness_test_command : Text → List Text
harness_test_command python =
    python
    ∷ txt "-m"
    ∷ txt "unittest"
    ∷ txt "discover"
    ∷ txt "-s"
    ∷ txt "harness/tests"
    ∷ txt "-p"
    ∷ txt "test_*.py"
    ∷ txt "-v"
    ∷ []

abbrev gradle_test_command : List Text
gradle_test_command =
    txt "./gradlew" ∷ txt "clean" ∷ txt "test" ∷ txt "--console" ∷ txt "plain" ∷ []

-- `DOMAIN_ORACLE_CHECK_IDS`
abbrev domain_oracle_check_ids : List Text
domain_oracle_check_ids =
    txt "oracle.architecture"
    ∷ txt "oracle.api-contract"
    ∷ txt "oracle.migration-fresh"
    ∷ txt "oracle.migration-upgrade"
    ∷ txt "oracle.transaction"
    ∷ txt "oracle.cross-domain-concurrency"
    ∷ txt "oracle.async-isolation"
    ∷ txt "oracle.multi-instance"
    ∷ []

abbrev blocked_command : Text → List Text → Reason → CheckResult
blocked_command id command reason = record (plain_check id blocked reason) { command = command }

module _ (m : Machine) where
  open m use {World, python_version, python, root, which, has_gradlew, run, is_word}

  -- `execute_command`
  unfoldable pub execute_command : World → Text → List Text → CheckResult × World
  execute_command w id command =
      let (finished, duration, w') = run w command in
      (command_result id command finished duration, w')

  -- `blocked_environment_check`
  unfoldable pub blocked_environment_check : World → Text → List Text → CheckResult × World
  blocked_environment_check w id command =
      let (finished, duration, w') = run w command in
      (environment_result id command finished duration, w')

  -- The check of a tool that must be on the path.
  unfoldable pub tool_check : World → Text → Text → List Text → CheckResult × World
  unfolding blocked_environment_check
  tool_check w id tool command =
      if which w tool
      then blocked_environment_check w id command
      else (blocked_command id command (value (txt "binary not found") tool), w)

  unfoldable pub python_check : CheckResult
  unfolding is_supported
  python_check =
      plain_check (txt "environment.python")
        (if is_supported python_version then State.pass else blocked) (about (txt "Python version"))

  abbrev gradle_command : List Text
  gradle_command = txt "./gradlew" ∷ txt "-q" ∷ txt "javaToolchains" ∷ []

  unfoldable pub toolchain_check : World → CheckResult × World
  unfolding blocked_environment_check require_seventeen
  toolchain_check w =
      if has_gradlew w
      then (let (check, w') =
            blocked_environment_check w (txt "environment.java17-toolchain") gradle_command in
          (require_seventeen is_word check, w'))
      else (
        blocked_command (txt "environment.java17-toolchain") gradle_command
            (about (txt "no gradlew")),
        w,
      )

  unfoldable pub run_prepare_preflight : World → List CheckResult × World
  unfolding python_check tool_check toolchain_check
  run_prepare_preflight w =
      let (java, w1) =
        tool_check w (txt "environment.java") (txt "java") (txt "java" ∷ txt "-version" ∷ []) in
      let (docker, w2) =
        tool_check w1 (txt "environment.docker") (txt "docker") (txt "docker" ∷ txt "info" ∷ []) in
      let (toolchain, w3) = toolchain_check w2 in
      (python_check ∷ java ∷ docker ∷ toolchain ∷ [], w3)

  abbrev is_pass : CheckResult → Bool
  is_pass check = check.state == State.pass

  -- The Gradle tests, behind the validated checks of the environment.
  unfoldable pub gradle_checks : World → List CheckResult → List CheckResult × World
  unfolding execute_command
  gradle_checks w environment =
      if all is_pass environment
      then (let (check, w') = execute_command w (txt "gradle.test") gradle_test_command in
          (environment ++ (check ∷ []), w'))
      else (
        environment
            ++ (blocked_command (txt "gradle.test") gradle_test_command (
                  values (txt "environment blocked")
                    (ids (keep (λ c. not (is_pass c)) environment)))
                ∷ []),
        w,
      )

  -- One round of the loop in `run_required_checks`.
  unfoldable pub run_check : World → Text → Result (List CheckResult × World)
  unfolding execute_command run_prepare_preflight gradle_checks
  run_check w id =
      if id == txt "harness.unit"
      then (let (check, w') = execute_command w id (harness_test_command python) in
          ok (check ∷ [], w'))
      else if id == txt "gradle.test"
      then (let (environment, w') = run_prepare_preflight w in
          Outcome.◌>>=◌ (validate_preflight_results (iterable (map as_candidate environment)))
            (λ checks. ok (gradle_checks w' checks)))
      else if contains domain_oracle_check_ids id
      then (let (check, w') =
            execute_command w id (python ∷ txt "scripts/harness-oracles.py" ∷ root ∷ id ∷ []) in
          ok (check ∷ [], w'))
      else ok (plain_check id blocked (about (txt "not implemented")) ∷ [], w)

  unfoldable pub run_required_checks : World → List Text → Result (List CheckResult × World)
  unfolding run_check
  run_required_checks w [] = ok ([], w)
  run_required_checks w (id ∷ more) = Outcome.◌>>=◌ (run_check w id) λ first.
      Outcome.◌>>=◌ (run_required_checks first.1 more) λ rest. ok (first.0 ++ rest.0, rest.1)
