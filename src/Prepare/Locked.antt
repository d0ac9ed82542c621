-- ===== src/Prepare/Locked.antt =====
-- scripts/agent-harness.py, `prepare`: what its PASS rests on.
use coffee_order_system.Prelude.{
  ◌≡◌, ◌≢◌, refl, ap, sym, ◌∙◌, none, some, List, [], ◌∷◌, ◌++◌, Text, All, arith, Option-cases,
  Bool-cases, inl, inr, ◌==◌,
}
use coffee_order_system.Outcome.{
  Result, ok, violation, exception, ok-injective, CheckResult, State, state_eq,
}
use coffee_order_system.Model.{Plan, GitContext, PlanLock}
use coffee_order_system.Json.{obj}
use coffee_order_system.LockFile.{make_plan_lock, plan_lock_payload, validate_plan_lock}
use coffee_order_system.Checks.{RawChecks, validate_preflight_results}
use coffee_order_system.Effect.{Exec, bind-eq-ok, proceed-eq-ok, lift-eq-ok}
use coffee_order_system.System.{System}
use coffee_order_system.Evidence.{
  strict_repository_root, remove_stale_plan_lock, safe_evidence_lock_path, write_json_atomic,
}
use coffee_order_system.Loading.{validate_prepare_clean_state}
use coffee_order_system.Prepare.{
  Report, first_unpassed, prepare_check, read_identity, write_lock, after_preflight, prepare_body,
  report_of, prepare,
}
use coffee_order_system.LockFile.Identity.{Locks, validate_plan_lock-Locks, make_plan_lock-Locks}
use coffee_order_system.Prepare.Files.{
  Read, read_identity-Read, IsCleanBut, validate_prepare_clean_state-IsCleanBut, Removed,
  remove_stale_plan_lock-Removed, Written, write_json_atomic-Written,
}
use coffee_order_system.Effect.NoPass.{RaisesNoPass, RunsNoPass, fail-ne-pass}
use coffee_order_system.Violations.Writing.{prepare_body-RunsNoPass}

first_unpassed-none :
    (checks : List CheckResult)
    → first_unpassed checks ≡ none
    → All (λ c. c.state ≡ State.pass) checks
unfolding first_unpassed
first_unpassed-none [] h = tt
first_unpassed-none (c ∷ cs) h = (ground (arith, h), first_unpassed-none cs (ground (arith, h)))

first_unpassed-some :
    (checks : List CheckResult) (c : CheckResult)
    → first_unpassed checks ≡ some c
    → c.state ≢ State.pass
unfolding first_unpassed
first_unpassed-some [] c h = absurd (ground (arith, h))
first_unpassed-some (d ∷ ds) c h = elim (Bool-cases (d.state == State.pass)) [
  | inl passed ↦ first_unpassed-some ds c (ground (arith, h, passed))
  | inr open_check ↦ λ p. ground (arith, h, open_check, p)
]

make_plan_lock-version :
    (plan : Plan) (context : GitContext) → (make_plan_lock plan context).schema_version ≡ 1
unfolding make_plan_lock
make_plan_lock-version plan context = refl

module _ (sys : System) (root plan_path : Text) where
  open sys use {machine}
  open machine use {World}

  -- What was read again and locked from a world on, for a snapshot of the plan and the context.
  pub record Locked (snapshot : PlanLock) (w : World) : Type 0 where
    pub plan : Plan
    pub context : GitContext
    pub w1 : World
    pub read_again : Read sys root plan_path plan context w w1
    pub w2 : World
    pub clean : IsCleanBut sys root plan w1 w2
    pub same : Locks snapshot plan context
    pub lock : PlanLock
    pub version : lock.schema_version ≡ 1
    pub names : Locks lock plan context
    pub lock_path : Text
    pub w3 : World
    pub path_found : safe_evidence_lock_path sys root w2 ≡ (ok lock_path, w3)
    pub w4 : World
    pub written : Written sys lock_path (obj (plan_lock_payload lock)) w3 w4

  write_lock-eq-ok :
      (snapshot : PlanLock) (checks : List CheckResult) (w : World) {report : Report} {t : World}
      → write_lock sys root plan_path snapshot checks w ≡ (ok report, t)
      → Locked snapshot w × (report ≡ (State.pass, checks ++ (prepare_check ∷ [])))
  unfolding write_lock
  write_lock-eq-ok snapshot checks w h =
      let (found, w1, read_back, h1) = bind-eq-ok (read_identity sys root plan_path) _ w h in
      let (u, w2, clean, h2) = bind-eq-ok (validate_prepare_clean_state sys root found.0) _ w1 h1 in
      let (v, same, h3) = proceed-eq-ok (validate_plan_lock snapshot found.0 found.1) _ w2 h2 in
      let (path, w3, path_found, h4) = bind-eq-ok (safe_evidence_lock_path sys root) _ w2 h3 in
      let (x, w4, written, h5) =
        bind-eq-ok
          (write_json_atomic sys path (obj (plan_lock_payload (make_plan_lock found.0 found.1)))) _
          w3 h4 in
      (
        record {
          plan = found.0;
          context = found.1;
          w1 = w1;
          read_again = read_identity-Read sys root plan_path w read_back;
          w2 = w2;
          clean = validate_prepare_clean_state-IsCleanBut sys root found.0 w1 clean;
          same = (validate_plan_lock-Locks snapshot found.0 found.1).0 same;
          lock = make_plan_lock found.0 found.1;
          version = make_plan_lock-version found.0 found.1;
          names = make_plan_lock-Locks found.0 found.1;
          lock_path = path;
          w3 = w3;
          path_found = path_found;
          w4 = w4;
          written =
              write_json_atomic-Written sys path
                (obj (plan_lock_payload (make_plan_lock found.0 found.1))) w3 written;
        },
        sym (ok-injective _ _ (lift-eq-ok (ok _) w4 h5).0),
      )

  after-passed :
      (snapshot : PlanLock) (checks : List CheckResult) (w : World) {report : Report} {t : World}
      → after_preflight sys root plan_path snapshot checks (first_unpassed checks) w
        ≡ (ok report, t)
      → report.0 ≡ State.pass
      → All (λ c. c.state ≡ State.pass) checks
        × Locked snapshot w
        × (report ≡ (State.pass, checks ++ (prepare_check ∷ [])))
  unfolding after_preflight
  after-passed snapshot checks w {report} {t} h passed =
      elim (Option-cases (first_unpassed checks)) [
        | inl e ↦
            let (locked, reported) =
              write_lock-eq-ok snapshot checks w (rw (e, after_preflight) at h) in
            (first_unpassed-none checks e, locked, reported)
        | inr (check, e) ↦
            let given = lift-eq-ok (ok (check.state, checks)) w (rw (e, after_preflight) at h) in
            absurd (
              first_unpassed-some checks check e
                (ap (λ (r : Report). r.0) (ok-injective _ _ given.0) ∙ passed))
      ]

-- What `prepare` rests on, from a world on, at the repository root that it resolved.
pub record IsPrepared (sys : System) (root plan_path : Text)
    (preflight : Text → Exec sys.machine.World RawChecks) (w : sys.machine.World) (report : Report)
    : Type 0 where
  pub resolved_root : Text
  pub w1 : sys.machine.World
  pub root_found : strict_repository_root sys root w ≡ (ok resolved_root, w1)
  pub stale_path : Text
  pub w2 : sys.machine.World
  pub stale_found : safe_evidence_lock_path sys resolved_root w1 ≡ (ok stale_path, w2)
  pub w3 : sys.machine.World
  pub stale_removed : Removed sys stale_path w2 w3
  pub plan : Plan
  pub context : GitContext
  pub w4 : sys.machine.World
  pub first_read : Read sys resolved_root plan_path plan context w3 w4
  pub w5 : sys.machine.World
  pub clean : IsCleanBut sys resolved_root plan w4 w5
  pub raw : RawChecks
  pub w6 : sys.machine.World
  pub ran : preflight resolved_root w5 ≡ (ok raw, w6)
  pub checks : List CheckResult
  pub valid : validate_preflight_results raw ≡ ok checks
  pub passed : All (λ c. c.state ≡ State.pass) checks
  pub snapshot : PlanLock
  pub names : Locks snapshot plan context
  pub locked : Locked sys resolved_root plan_path snapshot w6
  pub reported : report ≡ (State.pass, checks ++ (prepare_check ∷ []))

module _ (sys : System) (root plan_path : Text)
    (preflight : Text → Exec sys.machine.World RawChecks) where
  open sys use {machine}
  open machine use {World}

  body-IsPrepared :
      (w : World) (report : Report) (t : World)
      → prepare_body sys root plan_path preflight w ≡ (ok report, t)
      → report.0 ≡ State.pass
      → IsPrepared sys root plan_path preflight w report
  unfolding prepare_body
  body-IsPrepared w report t h passed =
      let (at_root, w1, root_found, h1) = bind-eq-ok (strict_repository_root sys root) _ w h in
      let (stale, w2, removed, h2) = bind-eq-ok (remove_stale_plan_lock sys at_root) _ w1 h1 in
      let (s1, stale_found, stale_removed) =
        remove_stale_plan_lock-Removed sys at_root w1 removed in
      let (found, w3, first_read, h3) = bind-eq-ok (read_identity sys at_root plan_path) _ w2 h2 in
      let (u, w4, clean, h4) =
        bind-eq-ok (validate_prepare_clean_state sys at_root found.0) _ w3 h3 in
      let (raw, w5, ran, h5) = bind-eq-ok (preflight at_root) _ w4 h4 in
      let (checks, valid, h6) = proceed-eq-ok (validate_preflight_results raw) _ w5 h5 in
      let (all, locked, reported) =
        after-passed sys at_root plan_path (make_plan_lock found.0 found.1) checks w5 h6 passed in
      record {
        resolved_root = at_root;
        w1 = w1;
        root_found = root_found;
        stale_path = stale;
        w2 = s1;
        stale_found = stale_found;
        w3 = w2;
        stale_removed = stale_removed;
        plan = found.0;
        context = found.1;
        w4 = w3;
        first_read = read_identity-Read sys at_root plan_path w2 first_read;
        w5 = w4;
        clean = validate_prepare_clean_state-IsCleanBut sys at_root found.0 w3 clean;
        raw = raw;
        w6 = w5;
        ran = ran;
        checks = checks;
        valid = valid;
        passed = all;
        snapshot = make_plan_lock found.0 found.1;
        names = make_plan_lock-Locks found.0 found.1;
        locked = locked;
        reported = reported;
      }

  report-IsPrepared :
      (r : Result Report) (w t : World)
      → RaisesNoPass r
      → prepare_body sys root plan_path preflight w ≡ (r, t)
      → (report_of r).0 ≡ State.pass
      → IsPrepared sys root plan_path preflight w (report_of r)
  report-IsPrepared (ok report) w t n e h = body-IsPrepared w report t e h
  report-IsPrepared (violation v) w t n e h = absurd (n.real h)
  report-IsPrepared (exception m) w t n e h = absurd (fail-ne-pass h)

  -- For a preflight that raises no violation in state PASS, a PASS of `prepare` means that all of this happened, each
  -- step on the world that the one before left. At the safe path of the lock there was nothing, or a regular file that
  -- was unlinked, before anything else was read. Behind the first reading of the plan and the context, and behind the
  -- second, each path that git listed as staged, changed or untracked is the plan's. The preflight's results are valid
  -- and all passed. One lock names both readings. A lock of version 1 that names the second was written, as UTF-8, to a
  -- temporary file that was flushed, synced and closed and then replaced the safe path. The report is these results and
  -- the check of `prepare`.
  pub prepare-IsPrepared :
      (w : World)
      → ((at_root : Text) → RunsNoPass (preflight at_root))
      → (prepare sys root plan_path preflight w).0.0 ≡ State.pass
      → IsPrepared sys root plan_path preflight w (prepare sys root plan_path preflight w).0
  unfolding prepare
  prepare-IsPrepared w real h =
      let (r, t) = prepare_body sys root plan_path preflight w in
      report-IsPrepared r w t ((prepare_body-RunsNoPass sys root plan_path preflight real).at w)
        refl h
