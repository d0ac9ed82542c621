-- ===== src/Runner/Complete.antt =====
-- The default check runner returns well-formed results with the expected ids.
use coffee_order_system.Prelude.{
  ◌≡◌, refl, ◌∙◌, ap, sym, subst, inl, inr, true, false, List, [], ◌∷◌, ◌++◌, arith, ◌==◌, map,
  nat_eq, text_eq, texts_eq, int_eq, if◌then◌else◌, Bool-cases, ==_iff, contains, Text, txt, All,
  All-append, length, sorted_set, keep, strip, is_control, any, all,
}
use mathlib.Core.List.{map-append}
use coffee_order_system.Outcome.{Result, ok, CheckResult, plain_check, state_eq}
use coffee_order_system.Checks.{
  ids, iterable, validate_preflight_results, required_preflight_ids, is_bad_id, is_bad_duration,
}
use coffee_order_system.Checks.Contract.{as_candidate, IsWellFormed, read_candidates-map}
use coffee_order_system.PolicyFile.{same_set}
use coffee_order_system.Gate.{difference}
use coffee_order_system.Runner.{
  Machine, execute_command, tool_check, is_pass, gradle_test_command, python_check, toolchain_check,
  run_prepare_preflight, gradle_checks, run_check, run_required_checks, harness_test_command,
  domain_oracle_check_ids,
}
use coffee_order_system.Commands.{environment_result}
use coffee_order_system.Commands.Results.{command_lem, environment_lem, seventeen_lem}

pub fixed_ids :
    (is_bad_id (txt "environment.python") ≡ false)
    × (is_bad_id (txt "environment.java") ≡ false)
    × (is_bad_id (txt "environment.docker") ≡ false)
    × (is_bad_id (txt "environment.java17-toolchain") ≡ false)
    × (is_bad_id (txt "harness.unit") ≡ false)
    × (is_bad_id (txt "gradle.test") ≡ false)
unfolding is_bad_id txt strip any is_control text_eq nat_eq
fixed_ids = (refl, refl, refl, refl, refl, refl)

-- The four ids of the environment pass the tests of the preflight.
preflight_ids_valid :
    (length required_preflight_ids ≡ length (sorted_set required_preflight_ids))
    × (same_set required_preflight_ids required_preflight_ids ≡ true)
unfolding same_set difference sorted_set txt keep contains text_eq texts_eq nat_eq
preflight_ids_valid = (refl, refl)

preflight_valid :
    (cs : List CheckResult)
    → ids cs ≡ required_preflight_ids
    → All IsWellFormed cs
    → validate_preflight_results (iterable (map as_candidate cs)) ≡ ok cs
unfolding validate_preflight_results
preflight_valid cs e h =
    ground (arith, read_candidates-map (txt "preflight") cs h, preflight_ids_valid, e)

append_one :
    (cs : List CheckResult) (c : CheckResult) (expected : List Text) (id : Text)
    → ids cs ≡ expected
    → All IsWellFormed cs
    → c.check_id ≡ id
    → IsWellFormed c
    → (ids (cs ++ (c ∷ [])) ≡ expected ++ (id ∷ [])) × All IsWellFormed (cs ++ (c ∷ []))
append_one cs c expected id e h ec hc = (
  map-append (λ (d : CheckResult). d.check_id) cs (c ∷ []) ∙ cc (e, ec),
  All-append IsWellFormed cs (c ∷ []) h (hc, tt),
)

-- The ids of the results for one requested id.
abbrev pub expected_ids : Text → List Text
expected_ids id =
    if id == txt "gradle.test" then required_preflight_ids ++ (txt "gradle.test" ∷ []) else id ∷ []

abbrev pub all_expected : List Text → List Text
all_expected [] = []
all_expected (id ∷ more) = expected_ids id ++ all_expected more

module _ (m : Machine) where
  open m use {World}

  tool_lem :
      (w : World) (id tool : Text) (command : List Text)
      → is_bad_id id ≡ false
      → ((tool_check m w id tool command).0.check_id ≡ id)
        × IsWellFormed (tool_check m w id tool command).0
  unfolding tool_check plain_check is_bad_duration
  tool_lem w id tool command h =
      ground (arith, environment_lem id command (m.run w command).0 (m.run w command).1 h)

  toolchain_lem :
      (w : World)
      → ((toolchain_check m w).0.check_id ≡ txt "environment.java17-toolchain")
        × IsWellFormed (toolchain_check m w).0
  unfolding toolchain_check plain_check is_bad_duration
  toolchain_lem w = ground (
    arith,
    fixed_ids,
    seventeen_lem m.is_word (txt "environment.java17-toolchain")
        (environment_result (txt "environment.java17-toolchain") gradle_command
          (m.run w gradle_command).0 (m.run w gradle_command).1)
        (environment_lem (txt "environment.java17-toolchain") gradle_command
          (m.run w gradle_command).0 (m.run w gradle_command).1 fixed_ids.3),
  )
    where
      gradle_command : List Text
      gradle_command = txt "./gradlew" ∷ txt "-q" ∷ txt "javaToolchains" ∷ []

  python_lem :
      ((python_check m).check_id ≡ txt "environment.python") × IsWellFormed (python_check m)
  unfolding python_check plain_check is_bad_duration
  python_lem = (refl, (fixed_ids.0, refl))

  -- The preflight gives the four environment checks, well formed.
  preflight_lem :
      (w : World)
      → (ids (run_prepare_preflight m w).0 ≡ required_preflight_ids)
        × All IsWellFormed (run_prepare_preflight m w).0
  unfolding run_prepare_preflight
  preflight_lem w =
      let java = txt "java" ∷ txt "-version" ∷ [] in
      let docker = txt "docker" ∷ txt "info" ∷ [] in
      let w1 = (tool_check m w (txt "environment.java") (txt "java") java).1 in
      let w2 = (tool_check m w1 (txt "environment.docker") (txt "docker") docker).1 in
      let p = python_lem in
      let j = tool_lem w (txt "environment.java") (txt "java") java fixed_ids.1 in
      let d = tool_lem w1 (txt "environment.docker") (txt "docker") docker fixed_ids.2 in
      let t = toolchain_lem w2 in (cc (p.0, j.0, d.0, t.0), (p.1, (j.1, (d.1, (t.1, tt)))))

  -- A list of results with these ids, all well formed.
  abbrev pub Produced : List Text → Result (List CheckResult × World) → Type 0
  Produced expected r =
      (cs : List CheckResult) × (w : World) × (r ≡ ok (cs, w))
      × (ids cs ≡ expected)
      × All IsWellFormed cs

  gradle_lem :
      (w : World) (environment : List CheckResult)
      → ids environment ≡ required_preflight_ids
      → All IsWellFormed environment
      → (ids (gradle_checks m w environment).0 ≡ required_preflight_ids ++ (txt "gradle.test" ∷ []))
        × All IsWellFormed (gradle_checks m w environment).0
  unfolding gradle_checks plain_check is_bad_duration
  gradle_lem w environment e h = elim (Bool-cases (all (is_pass m) environment)) [
    | inl passed ↦
        let r = m.run w gradle_test_command in
        let c = command_lem (txt "gradle.test") gradle_test_command r.0 r.1 fixed_ids.5 in
        rw (passed, gradle_checks) (append_one environment _ _ (txt "gradle.test") e h c.0 c.1)
    | inr failed ↦
        rw (failed, gradle_checks)
          (append_one environment _ _ (txt "gradle.test") e h refl (fixed_ids.5, refl))
  ]

  gradle_id :
      (txt "gradle.test" == txt "harness.unit" ≡ false)
      × (txt "gradle.test" == txt "gradle.test" ≡ true)
  unfolding txt text_eq nat_eq
  gradle_id = (refl, refl)

  gradle_case :
      (w : World)
      → Produced
          (required_preflight_ids ++ (txt "gradle.test" ∷ []))
          (run_check m w (txt "gradle.test"))
  unfolding run_check
  gradle_case w =
      let e = preflight_lem w in
      let v = preflight_valid (run_prepare_preflight m w).0 e.0 e.1 in
      let g = gradle_lem (run_prepare_preflight m w).1 (run_prepare_preflight m w).0 e.0 e.1 in
      (
        (gradle_checks m (run_prepare_preflight m w).1 (run_prepare_preflight m w).0).0,
        (gradle_checks m (run_prepare_preflight m w).1 (run_prepare_preflight m w).0).1,
        ground (arith, gradle_id, v),
        g.0,
        g.1,
      )

  one_command :
      (w : World) (id : Text) (command : List Text)
      → is_bad_id id ≡ false
      → Produced
          (id ∷ [])
          (ok ((execute_command m w id command).0 ∷ [], (execute_command m w id command).1))
  unfolding execute_command
  one_command w id command h =
      let r = m.run w command in
      let c = command_lem id command r.0 r.1 h in (_, _, refl, ap (λ i. i ∷ []) c.0, (c.1, tt))

  other_case :
      (w : World) (id : Text)
      → is_bad_id id ≡ false
      → (id == txt "gradle.test") ≡ false
      → Produced (id ∷ []) (run_check m w id)
  unfolding run_check plain_check is_bad_duration
  other_case w id h other = elim (Bool-cases (id == txt "harness.unit")) [
    | inl unit ↦ rw (unit) (one_command w id (harness_test_command m.python) h)
    | inr not_unit ↦ elim (Bool-cases (contains domain_oracle_check_ids id)) [
      | inl oracle ↦
          rw (not_unit, other, oracle)
            (one_command w id (m.python ∷ txt "scripts/harness-oracles.py" ∷ m.root ∷ id ∷ []) h)
      | inr unknown ↦ rw (not_unit, other, unknown) ((_, _, refl, refl, ((h, refl), tt)))
    ]
  ]

  run_check_lem :
      (w : World) (id : Text) → is_bad_id id ≡ false → Produced (expected_ids id) (run_check m w id)
  run_check_lem w id h = elim (Bool-cases (id == txt "gradle.test")) [
    | inl gradle ↦ rw (gradle) (
        subst (λ i. Produced (required_preflight_ids ++ (txt "gradle.test" ∷ [])) (run_check m w i))
          (sym ((==_iff id (txt "gradle.test")).0 gradle)) (gradle_case w))
    | inr other ↦ rw (other) (other_case w id h other)
  ]

  both :
      (w : World) (id : Text) (more expected expected' : List Text)
      → Produced expected (run_check m w id)
      → ((w' : World) → Produced expected' (run_required_checks m w' more))
      → Produced (expected ++ expected') (run_required_checks m w (id ∷ more))
  unfolding run_required_checks
  both w id more expected expected' (cs, w1, e, i, h) rest =
      let (ds, w2, e', i', h') = rest w1 in
      (
        cs ++ ds,
        w2,
        ground (arith, e, e'),
        map-append (λ (d : CheckResult). d.check_id) cs ds ∙ cc (i, i'),
        All-append IsWellFormed cs ds h h',
      )

  -- The default runner returns: for any ids that are no bad text, on any machine, the results are well
  -- formed and their ids are the requested ones in order, "gradle.test" behind those of its preflight.
  pub run_required_checks_lem :
      (w : World) (requested : List Text)
      → All (λ id. is_bad_id id ≡ false) requested
      → Produced (all_expected requested) (run_required_checks m w requested)
  unfolding run_required_checks
  run_required_checks_lem w [] h = ([], w, refl, refl, tt)
  run_required_checks_lem w (id ∷ more) h =
      both w id more (expected_ids id) (all_expected more) (run_check_lem w id h.0)
        (λ w'. run_required_checks_lem w' more h.1)
