-- ===== src/Verdict/Results.antt =====
-- The checks of a state that passed.
use coffee_order_system.Prelude.{
  ◌≡◌, ◌≢◌, refl, Option, none, some, List, Text, txt, All, All-append_left, All-append_right,
  arith, Option-cases, inl, inr,
}
use coffee_order_system.Outcome.{CheckResult, State, plain_check}
use coffee_order_system.Outcome.Aggregate.{aggregate_state-pass}
use coffee_order_system.Checks.{
  RawChecks, not_iterable, iterable, read_candidates, check_runner_ids, ids,
  validate_check_runner_results,
}
use coffee_order_system.Checks.Contract.{IsComplete, check_runner_ids-IsComplete}
use coffee_order_system.Evaluate.{Locals, add_check, add_checks, add_error, evaluation_from_values}

abbrev pub Passed : CheckResult → Type 0
Passed check = check.state ≡ State.pass

abbrev pub AllPassed : List CheckResult → Type 0
AllPassed = All Passed

pub last_check :
    (check : CheckResult) (l : Locals)
    → AllPassed (add_check check l).checks
    → Passed check × AllPassed l.checks
last_check check l h =
    ((All-append_right Passed l.checks _ h).0, All-append_left Passed l.checks _ h)

pub evaluation-AllPassed :
    (plan_path : Text) (l : Locals)
    → (evaluation_from_values plan_path l).state ≡ State.pass
    → AllPassed l.checks
unfolding evaluation_from_values
evaluation-AllPassed plan_path l h = aggregate_state-pass l.checks h

ids_error-fails :
    (ids requested : List Text) (e : CheckResult)
    → check_runner_ids ids requested ≡ some e
    → e.state ≢ State.pass
unfolding check_runner_ids plain_check
ids_error-fails ids requested e h p = ground (arith, h, p)

results_error-fails :
    (raw : RawChecks) (requested : List Text) (e : CheckResult)
    → (validate_check_runner_results raw requested).1 ≡ some e
    → e.state ≢ State.pass
unfolding validate_check_runner_results plain_check
results_error-fails (not_iterable m) requested e h = λ p. ground (arith, h, p)
results_error-fails (iterable candidates) requested e h =
    elim (Option-cases (read_candidates (txt "check runner") candidates).1) [
      | inl none_read ↦
          ids_error-fails _ requested e (rw (none_read, validate_check_runner_results) at h)
      | inr (reason, some_read) ↦ λ p. ground (arith, h, p, some_read)
    ]

pub results-IsComplete :
    (raw : RawChecks) (requested : List Text)
    → (validate_check_runner_results raw requested).1 ≡ none
    → IsComplete (ids (validate_check_runner_results raw requested).0) requested
unfolding validate_check_runner_results
results-IsComplete (not_iterable m) requested h = absurd (ground (arith, h))
results-IsComplete (iterable candidates) requested h =
    elim (Option-cases (read_candidates (txt "check runner") candidates).1) [
      | inl none_read ↦
          rw (none_read, validate_check_runner_results)
            ((check_runner_ids-IsComplete _ requested).0
              (rw (none_read, validate_check_runner_results) at h))
      | inr (reason, some_read) ↦ absurd (ground (arith, h, some_read))
    ]

-- An error behind results that all passed.
error-none :
    (error : Option CheckResult) (results : List CheckResult) (l : Locals)
    → ((e : CheckResult) → error ≡ some e → e.state ≢ State.pass)
    → AllPassed (add_error error (add_checks results l)).checks
    → (error ≡ none) × AllPassed results × AllPassed l.checks
error-none none results l fails h =
    (refl, All-append_right Passed l.checks results h, All-append_left Passed l.checks results h)
error-none (some e) results l fails h =
    absurd (fails e refl (last_check e (add_checks results l) h).0)

pub results-AllPassed :
    (raw : RawChecks) (requested : List Text) (l : Locals)
    → AllPassed
        (add_error
          (validate_check_runner_results raw requested).1
          (add_checks (validate_check_runner_results raw requested).0 l)).checks
    → ((validate_check_runner_results raw requested).1 ≡ none)
      × AllPassed (validate_check_runner_results raw requested).0
      × AllPassed l.checks
results-AllPassed raw requested l h = error-none _ _ l (results_error-fails raw requested) h
