-- ===== src/Verdict/Body.antt =====
-- The stages of the `try` block of `evaluate` that return.
use coffee_order_system.Prelude.{
  ◌≡◌, refl, ◌∙◌, ap, sym, some, List, [], Text, txt, not, ◌==◌, text_eq, texts_eq,
}
use coffee_order_system.Outcome.{ok, reject_if, reject_if-eq-ok}
use coffee_order_system.Gate.Contract.{nil-of_test}
use coffee_order_system.Model.{RiskClassification, PlanLock}
use coffee_order_system.Gate.{
  scope_violations, classify_risks, validate_risk_declarations, validate_contract_changes,
}
use coffee_order_system.LockFile.{validate_plan_lock}
use coffee_order_system.Checks.{RawChecks, required_check_ids, validate_check_runner_results}
use coffee_order_system.Effect.{Exec}
use coffee_order_system.Git.Listed.{Listed, validate_evaluate_clean_state-Listed}
use coffee_order_system.System.{System}
use coffee_order_system.Git.{
  resolve_local_git_context, collect_local_changed_paths, compute_diff_hash,
}
use coffee_order_system.Migrations.{validate_existing_migrations_immutable}
use coffee_order_system.Evidence.{safe_evidence_lock_path}
use coffee_order_system.Loading.{
  load_risk_policy, load_plan, load_plan_lock, policy_path, validate_evaluate_clean_state,
}
use coffee_order_system.Evaluate.{
  Locals, add_check, add_checks, add_error, passed_check, outside_error, unclassified_error,
  Subject, identify, measure, gate, run_checks,
}
use coffee_order_system.Verdict.Steps.{on_world-bind-eq-ok, lift-bind-eq-ok, give-eq-ok}

module _ (sys : System) (root plan_path : Text) where
  open sys use {machine}
  open machine use {World}

  -- What `identify` read and checked, one after the other, between two states, and what it left in the local variables.
  pub record Identified (s : Subject) (a b : Locals × World) : Type 0 where
    pub w1 : World
    pub clean : Listed sys root [] a.1 w1
    pub w2 : World
    pub policy_read : load_risk_policy sys (policy_path sys root) w1 ≡ (ok s.policy, w2)
    pub w3 : World
    pub plan_read : load_plan sys root plan_path s.policy w2 ≡ (ok s.plan, w3)
    pub w4 : World
    pub context_read : resolve_local_git_context sys root s.plan w3 ≡ (ok s.context, w4)
    pub lock : PlanLock
    pub lock_path : Text
    pub w5 : World
    pub lock_found : safe_evidence_lock_path sys root w4 ≡ (ok lock_path, w5)
    pub lock_read : load_plan_lock sys lock_path w5 ≡ (ok lock, b.1)
    pub locked : validate_plan_lock lock s.plan s.context ≡ ok tt
    pub after :
        b.0
        ≡ add_check
            (passed_check (txt "plan.lock"))
            (record a.0 { plan = some s.plan; context = some s.context; lock = some lock })

  pub identify-eq-ok :
      (l : Locals) (w : World) {s : Subject} {t : Locals × World}
      → identify sys root plan_path (l, w) ≡ (ok s, t)
      → Identified s (l, w) t
  unfolding identify
  identify-eq-ok l w h =
      let (u, w1, clean, h1) =
        on_world-bind-eq-ok (validate_evaluate_clean_state sys root (txt "start")) _ l w h in
      let (policy, w2, policy_read, h2) =
        on_world-bind-eq-ok (load_risk_policy sys (policy_path sys root)) _ l w1 h1 in
      let (plan, w3, plan_read, h3) =
        on_world-bind-eq-ok (load_plan sys root plan_path policy) _ l w2 h2 in
      let l1 = record l { plan = some plan } in
      let (context, w4, context_read, h4) =
        on_world-bind-eq-ok (resolve_local_git_context sys root plan) _ l1 w3 h3 in
      let l2 = record l1 { context = some context } in
      let (lock_path, w5, lock_found, h5) =
        on_world-bind-eq-ok (safe_evidence_lock_path sys root) _ l2 w4 h4 in
      let (lock, w6, lock_read, h6) =
        on_world-bind-eq-ok (load_plan_lock sys lock_path) _ l2 w5 h5 in
      let l3 = record l2 { lock = some lock } in
      let (v, locked, h7) = lift-bind-eq-ok (validate_plan_lock lock plan context) _ l3 w6 h6 in
      give-eq-ok (λ s' t'. Identified s' (l, w) t') _ _ h7
        (record {
          w1 = w1;
          clean = validate_evaluate_clean_state-Listed sys root (txt "start") w clean;
          w2 = w2;
          policy_read = policy_read;
          w3 = w3;
          plan_read = plan_read;
          w4 = w4;
          context_read = context_read;
          lock = lock;
          lock_path = lock_path;
          w5 = w5;
          lock_found = lock_found;
          lock_read = lock_read;
          locked = locked;
          after = refl;
        })

  -- What `measure` measured.
  pub record Measured (s : Subject) (changed_paths : List Text) (a b : Locals × World)
      : Type 0 where
    pub w1 : World
    pub changed_read :
        collect_local_changed_paths sys root s.context.merge_base_sha a.1 ≡ (ok changed_paths, w1)
    pub diff_hash : Text
    pub w2 : World
    pub diff_read : compute_diff_hash sys root s.context changed_paths w1 ≡ (ok diff_hash, w2)
    pub immutable :
        validate_existing_migrations_immutable sys root s.context changed_paths w2 ≡ (ok tt, b.1)
    pub after :
        b.0
        ≡ add_check
            (passed_check (txt "migration.immutable"))
            (record a.0 { changed_paths = changed_paths; diff_hash = some diff_hash })

  pub measure-eq-ok :
      (s : Subject) (l : Locals) (w : World) {changed_paths : List Text} {t : Locals × World}
      → measure sys root plan_path s (l, w) ≡ (ok changed_paths, t)
      → Measured s changed_paths (l, w) t
  unfolding measure
  measure-eq-ok s l w h =
      let (changed, w1, changed_read, h1) =
        on_world-bind-eq-ok (collect_local_changed_paths sys root s.context.merge_base_sha) _ l w
          h in
      let l1 = record l { changed_paths = changed } in
      let (diff_hash, w2, diff_read, h2) =
        on_world-bind-eq-ok (compute_diff_hash sys root s.context changed) _ l1 w1 h1 in
      let l2 = record l1 { diff_hash = some diff_hash } in
      let (u, w3, immutable, h3) =
        on_world-bind-eq-ok (validate_existing_migrations_immutable sys root s.context changed) _ l2
          w2 h2 in
      give-eq-ok (λ c t'. Measured s c (l, w) t') _ _ h3
        (record {
          w1 = w1;
          changed_read = changed_read;
          diff_hash = diff_hash;
          w2 = w2;
          diff_read = diff_read;
          immutable = immutable;
          after = refl;
        })

  -- What `gate` let through.
  pub record Gated (s : Subject) (changed_paths : List Text) (c : RiskClassification)
      (a b : Locals × World) : Type 0 where
    pub stays : a.1 ≡ b.1
    pub classified : c ≡ classify_risks changed_paths s.policy s.plan.relative_path
    pub in_scope : scope_violations changed_paths s.plan ≡ []
    pub all_classified : c.unclassified_paths ≡ []
    pub risks_declared : validate_risk_declarations s.plan c ≡ ok tt
    pub contracts_declared : validate_contract_changes changed_paths s.plan s.policy ≡ ok tt
    pub after :
        b.0
        ≡ add_check (passed_check (txt "trust-root.contract")) (
            add_check (passed_check (txt "risk.declaration")) (
              add_check (passed_check (txt "risk.classification")) (
                add_check
                  (passed_check (txt "scope.allowed-paths"))
                  (record a.0 { classification = some c }))))

  pub gate-eq-ok :
      (s : Subject) (changed_paths : List Text) (l : Locals) (w : World) {c : RiskClassification}
      {t : Locals × World}
      → gate sys root plan_path s changed_paths (l, w) ≡ (ok c, t)
      → Gated s changed_paths c (l, w) t
  unfolding gate
  gate-eq-ok s changed l w h =
      let outside = scope_violations changed s.plan in
      let (u, inside, h1) =
        lift-bind-eq-ok (reject_if (not (outside == [])) (outside_error outside)) _ l w h in
      let l1 = add_check (passed_check (txt "scope.allowed-paths")) l in
      let c = classify_risks changed s.policy s.plan.relative_path in
      let l2 = record l1 { classification = some c } in
      let (u2, known, h2) =
        lift-bind-eq-ok
          (reject_if (not (c.unclassified_paths == [])) (unclassified_error c.unclassified_paths)) _
          l2 w h1 in
      let l3 = add_check (passed_check (txt "risk.classification")) l2 in
      let (u3, declared, h3) = lift-bind-eq-ok (validate_risk_declarations s.plan c) _ l3 w h2 in
      let l4 = add_check (passed_check (txt "risk.declaration")) l3 in
      let (u4, contracts, h4) =
        lift-bind-eq-ok (validate_contract_changes changed s.plan s.policy) _ l4 w h3 in
      give-eq-ok (λ c' t'. Gated s changed c' (l, w) t') _ _ h4
        (record {
          stays = refl;
          classified = refl;
          in_scope = nil-of_test outside (reject_if-eq-ok _ _ inside);
          all_classified = nil-of_test c.unclassified_paths (reject_if-eq-ok _ _ known);
          risks_declared = declared;
          contracts_declared = contracts;
          after = refl;
        })

  -- What `run_checks` asked for and got.
  pub record Ran (check_runner : List Text → Exec World RawChecks) (s : Subject)
      (c : RiskClassification) (a b : Locals × World) : Type 0 where
    pub requested_ids : List Text
    pub required : required_check_ids s.plan c s.policy ≡ ok requested_ids
    pub raw : RawChecks
    pub ran : check_runner requested_ids a.1 ≡ (ok raw, b.1)
    pub after :
        b.0
        ≡ add_error
            (validate_check_runner_results raw requested_ids).1
            (add_checks (validate_check_runner_results raw requested_ids).0 a.0)

  pub run_checks-eq-ok :
      (check_runner : List Text → Exec World RawChecks) (s : Subject) (c : RiskClassification)
      (l : Locals) (w : World)
      → {t : Locals × World} → run_checks sys root plan_path check_runner s c (l, w) ≡ (ok tt, t)
      → Ran check_runner s c (l, w) t
  unfolding run_checks
  run_checks-eq-ok check_runner s c l w h =
      let (ids, required, h1) = lift-bind-eq-ok (required_check_ids s.plan c s.policy) _ l w h in
      let (raw, w2, ran, h2) = on_world-bind-eq-ok (check_runner ids) _ l w h1 in
      record {
        requested_ids = ids;
        required = required;
        raw = raw;
        ran = ran ∙ ap (λ p. (ok raw, p.1.1)) h2;
        after = ap (λ p. p.1.0) (sym h2);
      }
