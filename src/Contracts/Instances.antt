-- ===== src/Contracts/Instances.antt =====
-- scripts/harness-oracles.py: `validate_test_sources`, `_run_command`, `_free_port` and
-- `run_multi_instance_oracle`.
pub mod Cleanup
use coffee_order_system.Prelude.{
  ℕ, ℤ, Bool, true, false, not, Option, none, some, List, [], ◌∷◌, ◌++◌, ◌==◌, text_eq, int_eq,
  nat_eq, if◌then◌else◌, Text, txt, decode_replace, length, map,
}
use coffee_order_system.Outcome.{Reason, about, value}
use coffee_order_system.System.{Raised, Try, returned, raised, join_path}
use coffee_order_system.Publish.{number_text}
use coffee_order_system.Contracts.{
  Reply, replied, oracle_failure, os_error, escaped, Ended, ended, not_found, timed_out, not_run,
  Host, Task, ◌>>=◌, ◌>>◌, reply, fail_if, call, or_raised, raised_as, require_file,
}

-- `ORACLE_TESTS`
abbrev pub oracle_tests : List (Text × List Text)
oracle_tests =
    (
      txt "oracle.api-contract",
      txt "com.example.coffee.domain.menu.MenuControllerTest"
          ∷ txt "com.example.coffee.domain.point.PointChargeIntegrationTest"
          ∷ txt "com.example.coffee.domain.order.OrderIntegrationTest"
          ∷ txt "com.example.coffee.domain.ranking.PopularMenuIntegrationTest"
          ∷ [],
    )
    ∷ (txt "oracle.migration-fresh", txt "com.example.coffee.CoffeeApplicationTests" ∷ [])
    ∷ (txt "oracle.migration-upgrade", txt "com.example.coffee.MigrationUpgradeTest" ∷ [])
    ∷ (
      txt "oracle.transaction",
      txt "com.example.coffee.domain.point.PointChargeIntegrationTest"
          ∷ txt "com.example.coffee.domain.order.OrderIntegrationTest"
          ∷ [],
    )
    ∷ (
      txt "oracle.cross-domain-concurrency",
      txt "com.example.coffee.domain.concurrency.CrossDomainConcurrencyIntegrationTest" ∷ [],
    )
    ∷ (
      txt "oracle.async-isolation",
      txt "com.example.coffee.domain.order.OrderAsyncIsolationTest" ∷ [],
    )
    ∷ []

-- `ORACLE_TESTS[check_id]`
unfoldable pub tests_of : Text → List (Text × List Text) → Option (List Text)
tests_of id [] = none
tests_of id (entry ∷ entries) = elim (id == entry.0) [
  | true ↦ some entry.1
  | false ↦ tests_of id entries
]

-- `src/test/java/` and the name with a slash for each dot.
unfoldable pub test_path : Text → Text
test_path name =
    txt "src/test/java/" ++ (map (λ c. if c == b'.' then b'/' else c) name ++ txt ".java")

-- The output that was collected.
abbrev or_empty : Option (List ℕ) → List ℕ
or_empty none = []
or_empty (some bytes) = bytes

-- What `_run_command` makes of the end of a process.
unfoldable pub output_of_end : Ended → Reply (ℤ × Text)
output_of_end (ended code stdout stderr) = replied (code, decode_replace (stdout ++ stderr))
output_of_end (not_found e) =
    replied (ℤ.pos 127, txt "Could not find a valid Docker environment or command: " ++ e)
output_of_end (timed_out stdout stderr) =
    replied
      (ℤ.pos 124, decode_replace (or_empty stdout ++ or_empty stderr) ++ 10 ∷ txt "command timeout")
output_of_end (not_run e) = raised_as e

-- What a run of Docker Compose is given.
pub record Project : Type 0 where
  pub environment : List (Text × Text)
  pub compose : List Text

abbrev pub config_command : Project → List Text
config_command project = project.compose ++ (txt "config" ∷ txt "--quiet" ∷ [])

abbrev pub up_command : Project → List Text
up_command project = project.compose ++ (txt "up" ∷ txt "-d" ∷ txt "--build" ∷ txt "--wait" ∷ [])

abbrev pub smoke_command : List Text
smoke_command = txt "sh" ∷ txt "scripts/multi-instance-smoke.sh" ∷ []

abbrev pub down_command : Project → List Text
down_command project = project.compose ++ (txt "down" ∷ txt "-v" ∷ txt "--remove-orphans" ∷ [])

abbrev pub ended_well : ℤ → Bool
ended_well code = code == ℤ.pos 0

-- `COMPOSE_PROJECT_NAME` and the ports.
abbrev pub project_of : ℕ → ℕ → ℕ → ℕ → ℕ → Project
project_of pid seconds gateway db redis =
    let name = txt "coffee-oracle-" ++ (number_text pid ++ (txt "-" ++ number_text seconds)) in
    record {
      environment =
          (txt "COMPOSE_PROJECT_NAME", name)
          ∷ (txt "GATEWAY_PORT", number_text gateway)
          ∷ (txt "DB_PORT", number_text db)
          ∷ (txt "REDIS_PORT", number_text redis)
          ∷ (txt "GATEWAY_URL", txt "http://127.0.0.1:" ++ number_text gateway)
          ∷ [];
      compose = txt "docker" ∷ txt "compose" ∷ txt "-p" ∷ name ∷ [];
    }

module _ (host : Host) where
  open host use {World, run, print, is_executable, process_id, seconds, free_port}

  unfoldable pub require_tests : Text → List Text → Task World (Unit {0})
  unfolding require_file test_path
  require_tests root [] = reply (replied tt)
  require_tests root (name ∷ names) = do
    _ ← require_file host root (test_path name)
    require_tests root names

  -- The number of classes for the message.
  unfoldable pub validate_test_sources : Text → Text → Task World ℕ
  unfolding tests_of require_tests
  validate_test_sources root check_id = elim (tests_of check_id oracle_tests) [
    | none ↦ reply (escaped (txt "KeyError"))
    | some names ↦ do require_tests root names; reply (replied (length names))
  ]

  -- `_run_command`
  unfoldable pub run_command : Text → List Text → List (Text × Text) → ℕ → Task World (ℤ × Text)
  unfolding output_of_end
  run_command root command environment timeout = do
    result ←
        call (run root command ((txt "PYTHONDONTWRITEBYTECODE", txt "1") ∷ environment) timeout)
    reply (output_of_end result)

  -- A command of the run and its output on the terminal.
  unfoldable pub run_shown : Text → List Text → Project → ℕ → Task World ℤ
  unfolding run_command
  run_shown root command project timeout = do
    result ← run_command root command project.environment timeout
    _ ← call (print result.1)
    reply (replied result.0)

  -- `if exit_code != 0: return exit_code`
  abbrev unless_failed : ℤ → Task World ℤ → Task World ℤ
  unless_failed code next = elim (ended_well code) [ true ↦ next | false ↦ reply (replied code) ]

  -- The body of the `try`.
  unfoldable pub run_instances : Text → Project → Task World ℤ
  unfolding run_shown
  run_instances root project = do
    config ← run_shown root (config_command project) project 900
    unless_failed config (do
      up ← run_shown root (up_command project) project 1200
      unless_failed up (do
        smoke ← run_shown root smoke_command project 300
        unless_failed smoke (do
          _ ← call (print (txt "ORACLE PASS: oracle.multi-instance" ++ 10 ∷ []))
          reply (replied (ℤ.pos 0)))))

  -- The `finally`.
  unfoldable pub clean_up : Text → Project → Task World (Unit {0})
  unfolding run_shown
  clean_up root project = do
    code ← run_shown root (down_command project) project 180
    reply (fail_if (not (ended_well code)) (about (txt "cleanup")))

  -- What is raised in a `finally` takes the place of the end of its `try`.
  abbrev then_finally : Reply (Unit {0}) → Reply ℤ → Reply ℤ
  then_finally (replied u) result = result
  then_finally (oracle_failure e) result = oracle_failure e
  then_finally (os_error e) result = os_error e
  then_finally (escaped e) result = escaped e

  unfoldable pub with_cleanup : Text → Project → Task World ℤ
  unfolding run_instances clean_up
  with_cleanup root project w =
      let (result, w1) = run_instances root project w in
      let (cleaned, w2) = clean_up root project w1 in (then_finally cleaned result, w2)

  unfoldable pub free_port_number : Task World ℕ
  free_port_number = do port ← call free_port; reply (or_raised port)

  unfoldable pub run_multi_instance_oracle : Text → Task World ℤ
  unfolding require_file with_cleanup free_port_number number_text
  run_multi_instance_oracle root = do
    _ ← require_file host root (txt "compose.yaml")
    _ ← require_file host root (txt "nginx/default.conf")
    smoke ← require_file host root (txt "scripts/multi-instance-smoke.sh")
    executable ← call (is_executable smoke)
    reply (fail_if (not executable) (about (txt "smoke script not executable")))
    pid ← call process_id
    now ← call seconds
    gateway ← free_port_number
    db ← free_port_number
    redis ← free_port_number
    with_cleanup root (project_of pid now gateway db redis)
