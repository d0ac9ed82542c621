-- ===== src/Checks.antt =====
-- scripts/agent-harness.py: the results that a check runner or a preflight returns, which may be any
-- Python objects, and their validation; the choice of the required checks.
pub mod Contract
pub mod Required
use coffee_order_system.Prelude.{
  ℕ, suc, Bool, false, not, ◌||◌, Option, none, some, List, [], ◌∷◌, ◌++◌, ◌==◌, map, nat_eq,
  text_eq, texts_eq, if◌then◌else◌, contains, Text, txt, keep, strip, ℤ, any, is_control,
  is_negative, length, sorted_set, ltb,
}
use coffee_order_system.Outcome.{
  Result, ok, violation, exception, Reason, about, value, values, two_lists, HarnessViolation,
  violation_of, fail, State, CheckResult, plain_check, ◌>>=◌, ◌>>◌, reject_if,
}
use coffee_order_system.Gate.{difference}
use coffee_order_system.PolicyFile.{same_set}
use coffee_order_system.Model.{Plan, RiskPolicy, RiskClassification}

-- A value that should have a type: `isinstance` says whether it does.
pub data Dyn {ℓ} (A : Type ℓ) : Type ℓ where
  typed : A → Dyn A
  ill_typed : Dyn A

-- An object that is a `CheckResult` with any values in its fields, or that is none.
pub data Candidate : Type 0 where
  not_a_check : Candidate
  candidate :
      (check_id : Dyn Text) (state : Dyn State) (reason : Dyn Reason)
      (command : Dyn (List (Dyn Text))) (exit_code duration_ms : Option (Dyn ℤ))
      → Candidate

-- What `tuple(raw_checks)` meets.
pub data RawChecks : Type 0 where
  not_iterable : Text → RawChecks
  iterable : List Candidate → RawChecks

-- The message of `_check_result_schema_error`, or the well-typed result.
pub data Reading : Type 0 where
  bad : Reason → Reading
  good : CheckResult → Reading

unfoldable pub is_bad_id : Text → Bool
is_bad_id id = id == [] || not (id == strip id) || any is_control id

unfoldable pub typed_texts : List (Dyn Text) → Option (List Text)
typed_texts [] = some []
typed_texts (ill_typed ∷ ts) = none
typed_texts (typed t ∷ ts) = elim (typed_texts ts) [ none ↦ none | some us ↦ some (t ∷ us) ]

-- `None` or an int; the outer option is `none` for anything else.
unfoldable pub optional_int : Option (Dyn ℤ) → Option (Option ℤ)
optional_int none = some none
optional_int (some (typed i)) = some (some i)
optional_int (some ill_typed) = none

unfoldable pub is_bad_duration : Option ℤ → Bool
is_bad_duration none = false
is_bad_duration (some i) = is_negative i

-- The tests from `exit_code` on.
unfoldable pub read_numbers :
    Text → Text → State → Reason → List Text → Option (Dyn ℤ) → Option (Dyn ℤ) → Reading
unfolding optional_int is_bad_duration
read_numbers label id s r command exit_code duration_ms = elim (optional_int exit_code) [
  | none ↦ bad (value (label ++ txt " exit_code") id)
  | some code ↦ elim (optional_int duration_ms) [
    | none ↦ bad (value (label ++ txt " duration_ms") id)
    | some duration ↦
        if is_bad_duration duration
        then bad (value (label ++ txt " duration_ms") id)
        else good (record {
          check_id = id;
          state = s;
          reason = r;
          command = command;
          exit_code = code;
          duration_ms = duration;
        })
  ]
]

unfoldable pub read_command :
    Text → Text → State → Reason → Dyn (List (Dyn Text)) → Option (Dyn ℤ) → Option (Dyn ℤ) → Reading
unfolding typed_texts read_numbers
read_command label id s r ill_typed code duration = bad (value (label ++ txt " command") id)
read_command label id s r (typed ts) code duration = elim (typed_texts ts) [
  | none ↦ bad (value (label ++ txt " command") id)
  | some command ↦ read_numbers label id s r command code duration
]

-- `_check_result_schema_error`
unfoldable pub read_candidate : Text → Candidate → Reading
unfolding is_bad_id read_command
read_candidate label not_a_check = bad (about (label ++ txt " is no CheckResult"))
read_candidate label (candidate ill_typed s r c e d) = bad (about (label ++ txt " check_id"))
read_candidate label (candidate (typed id) ill_typed r c e d) =
    bad
      (if is_bad_id id then about (label ++ txt " check_id") else value (label ++ txt " state") id)
read_candidate label (candidate (typed id) (typed s) ill_typed c e d) =
    bad
      (if is_bad_id id then about (label ++ txt " check_id") else value (label ++ txt " reason") id)
read_candidate label (candidate (typed id) (typed s) (typed r) c e d) =
    if is_bad_id id then bad (about (label ++ txt " check_id")) else read_command label id s r c e d

-- The loop over the candidates: the valid checks before the first bad one, and its message.
unfoldable pub read_candidates : Text → List Candidate → List CheckResult × Option Reason
unfolding read_candidate
read_candidates label [] = ([], none)
read_candidates label (c ∷ cs) = elim (read_candidate label c) [
  | bad reason ↦ ([], some reason)
  | good check ↦ let (checks, error) = read_candidates label cs in (check ∷ checks, error)
]

abbrev pub ids : List CheckResult → List Text
ids = map (λ (c : CheckResult). c.check_id)

unfoldable pub count : Text → List Text → ℕ
count a [] = 0
count a (x ∷ xs) = let n = count a xs in if a == x then suc n else n

abbrev pub required_preflight_ids : List Text
required_preflight_ids =
    txt "environment.python"
    ∷ txt "environment.java"
    ∷ txt "environment.docker"
    ∷ txt "environment.java17-toolchain"
    ∷ []

unfoldable pub repeated_ids : List Text → List Text
unfolding count
repeated_ids check_ids = sorted_set (keep (λ id. ltb 1 (count id check_ids)) check_ids)

abbrev runner_error : Reason → CheckResult
runner_error reason = plain_check (txt "checks.runner") fail reason

-- The ids that must be there: the requested ones, and those of the preflight of Gradle.
unfoldable pub required_ids : List Text → List Text
required_ids requested =
    if contains requested (txt "gradle.test")
    then requested ++ required_preflight_ids
    else requested

-- The tests on the ids of well-typed results.
unfoldable pub check_runner_ids : List Text → List Text → Option CheckResult
unfolding repeated_ids required_ids
check_runner_ids check_ids requested =
    let duplicates = repeated_ids check_ids in
    let missing = difference (required_ids requested) check_ids in
    let unknown = difference check_ids (required_ids requested) in
    if not (duplicates == [])
    then some (runner_error (values (txt "duplicate check ids") duplicates))
    else if not (missing == [])
    then some (runner_error (values (txt "missing checks") missing))
    else if not (unknown == [])
    then some (runner_error (values (txt "unknown checks") unknown))
    else none

unfoldable pub validate_check_runner_results :
    RawChecks → List Text → List CheckResult × Option CheckResult
unfolding read_candidates check_runner_ids
validate_check_runner_results (not_iterable error) requested =
    ([], some (runner_error (value (txt "not iterable") error)))
validate_check_runner_results (iterable candidates) requested =
    let (checks, error) = read_candidates (txt "check runner") candidates in
    elim error [
      | some reason ↦ (checks, some (runner_error reason))
      | none ↦ (checks, check_runner_ids (ids checks) requested)
    ]

abbrev preflight_error : Reason → HarnessViolation
preflight_error reason = violation_of fail (txt "environment.preflight") reason

unfoldable pub validate_preflight_results : RawChecks → Result (List CheckResult)
unfolding read_candidates same_set
validate_preflight_results (not_iterable error) =
    violation (preflight_error (value (txt "not iterable") error))
validate_preflight_results (iterable candidates) =
    let (checks, error) = read_candidates (txt "preflight") candidates in
    elim error [
      | some reason ↦ violation (preflight_error reason)
      | none ↦ do
        reject_if (not (length (ids checks) == length (sorted_set (ids checks))))
            (preflight_error (about (txt "duplicate check ids")))
        reject_if (not (same_set (ids checks) required_preflight_ids)) (
            preflight_error (
              two_lists (txt "preflight ids") (sorted_set (ids checks))
                (sorted_set required_preflight_ids)))
        ok checks
    ]

-- `policy.risk_checks[risk]`
unfoldable pub checks_of_risk : List (Text × List Text) → Text → Result (List Text)
checks_of_risk [] risk = exception (txt "KeyError")
checks_of_risk ((r, checks) ∷ entries) risk =
    if r == risk then ok checks else checks_of_risk entries risk

unfoldable pub select_checks : List (Text × List Text) → List Text → Result (List Text)
unfolding checks_of_risk
select_checks entries [] = ok []
select_checks entries (risk ∷ risks) = do
  checks ← checks_of_risk entries risk
  more ← select_checks entries risks
  ok (checks ++ more)

-- `INLINE_CHECK_IDS` and the two checks that always run, which come first.
abbrev pub set_apart : List Text
set_apart =
    txt "scope.allowed-paths"
    ∷ txt "risk.classification"
    ∷ txt "risk.declaration"
    ∷ txt "harness.unit"
    ∷ txt "gradle.test"
    ∷ []

unfoldable pub required_check_ids : Plan → RiskClassification → RiskPolicy → Result (List Text)
unfolding select_checks
required_check_ids plan classification policy = do
  selected ← select_checks policy.risk_checks (plan.declared_risks ++ classification.detected_risks)
  ok (
      txt "harness.unit"
      ∷ txt "gradle.test"
      ∷ sorted_set (keep (λ id. not (contains set_apart id)) selected))
