-- ===== src/Witnesses/Checks.antt =====
-- The states, the default runner and its validation on small inputs.
use coffee_order_system.Prelude.{
  ℕ, suc, ◌≡◌, refl, ◌↔◌, ◌⊎◌, true, false, none, some, List, [], ◌∷◌, ◌++◌, arith, Text, txt, ℤ,
  All, map, contains, text_eq, nat_eq,
}
use coffee_order_system.Outcome.{
  ok, about, State, state_eq, blocked, fail, CheckResult, state_priority,
}
use coffee_order_system.Outcome.Aggregate.{
  max_state, aggregate_state, AtMost, aggregate_state-pass, aggregate_state-worst,
}
use coffee_order_system.Checks.{ids, iterable, is_bad_id, validate_check_runner_results}
use coffee_order_system.Checks.Contract.{
  as_candidate, IsWellFormed, IsComplete, validate_check_runner_results-IsComplete,
}
use coffee_order_system.PlanFile.Arrays.{IsNodup}
use coffee_order_system.Runner.{Machine, run_required_checks}
use coffee_order_system.Commands.{Finished}
use coffee_order_system.Runner.Accepted.{IsFresh, run_required_checks-accepted}

abbrev pub named_check : Text → State → CheckResult
named_check id s = record {
  check_id = id;
  state = s;
  reason = about [];
  command = [];
  exit_code = none;
  duration_ms = none;
}

abbrev two_checks : List CheckResult
two_checks =
    named_check (txt "harness.unit") State.pass
    ∷ named_check (txt "oracle.transaction") State.pass
    ∷ []

two_checks_pass : aggregate_state two_checks ≡ State.pass
unfolding aggregate_state max_state state_priority
two_checks_pass = refl

aggregate_state-pass_example : All (λ (c : CheckResult). c.state ≡ State.pass) two_checks
aggregate_state-pass_example = aggregate_state-pass two_checks two_checks_pass

abbrev mixed_checks : List CheckResult
mixed_checks =
    named_check (txt "harness.unit") fail ∷ named_check (txt "oracle.transaction") blocked ∷ []

aggregate_state-worst_example :
    AtMost (aggregate_state mixed_checks) mixed_checks
    × ((mixed_checks ≡ []) × (aggregate_state mixed_checks ≡ State.pass)
        ⊎ (contains (map (λ (c : CheckResult). c.state) mixed_checks) (aggregate_state mixed_checks)
            ≡ true))
aggregate_state-worst_example = aggregate_state-worst mixed_checks

abbrev requested_ids : List Text
requested_ids = txt "harness.unit" ∷ txt "oracle.transaction" ∷ []

two_checks_valid : All IsWellFormed two_checks
unfolding is_bad_id txt text_eq coffee_order_system.Prelude.strip nat_eq
    coffee_order_system.Prelude.any coffee_order_system.Prelude.is_control
    coffee_order_system.Checks.is_bad_duration
two_checks_valid = ((refl, refl), ((refl, refl), tt))

validate_check_runner_results-IsComplete_example :
    (validate_check_runner_results (iterable (map as_candidate two_checks)) requested_ids
      ≡ (two_checks, none))
    ↔ IsComplete (ids two_checks) requested_ids
validate_check_runner_results-IsComplete_example =
    validate_check_runner_results-IsComplete two_checks requested_ids two_checks_valid

-- A machine where each command ends with exit code 0 and counts the commands.
abbrev pub a_machine : Machine
a_machine = record {
  World = ℕ;
  python_version = (3, 13, 1);
  python = txt "python3";
  root = txt "/repo";
  which = λ w tool. true;
  has_gradlew = λ w. true;
  run = λ w command. (Finished.completed (ℤ.pos 0) (txt "Language Version: 17") [], 5, suc w);
  is_word = λ c. false;
}

abbrev oracle_ids : List Text
oracle_ids = txt "oracle.transaction" ∷ []

oracle_ids_valid : All (λ id. is_bad_id id ≡ false) oracle_ids
unfolding is_bad_id txt text_eq coffee_order_system.Prelude.strip nat_eq
    coffee_order_system.Prelude.any coffee_order_system.Prelude.is_control
oracle_ids_valid = (refl, tt)

oracle_ids_distinct : IsNodup oracle_ids
unfolding contains
oracle_ids_distinct = (refl, tt)

oracle_ids-IsFresh : IsFresh oracle_ids
unfolding contains txt text_eq nat_eq
oracle_ids-IsFresh = (refl, tt)

run_required_checks-accepted_example :
    (cs : List CheckResult) × (w' : ℕ) × (run_required_checks a_machine 0
        (txt "harness.unit" ∷ txt "gradle.test" ∷ oracle_ids)
      ≡ ok (cs, w'))
    × (validate_check_runner_results
          (iterable (map as_candidate cs))
          (txt "harness.unit" ∷ txt "gradle.test" ∷ oracle_ids)
        ≡ (cs, none))
run_required_checks-accepted_example =
    run_required_checks-accepted a_machine 0 oracle_ids oracle_ids_valid oracle_ids_distinct
      oracle_ids-IsFresh
