-- ===== src/Verdict/Again.antt =====
-- scripts/agent-harness.py, `_freshness_check`: the reading of the identity at the end of `evaluate`.
use coffee_order_system.Prelude.{◌≡◌, subst, [], Text, txt}
use coffee_order_system.Outcome.{ok, ok-injective}
use coffee_order_system.Model.{RiskPolicy}
use coffee_order_system.Effect.{bind-eq-ok, lift-eq-ok}
use coffee_order_system.System.{System}
use coffee_order_system.Git.{
  resolve_local_git_context, collect_local_changed_paths, compute_diff_hash,
}
use coffee_order_system.Git.Listed.{Listed, validate_evaluate_clean_state-Listed}
use coffee_order_system.Loading.{
  load_risk_policy, load_plan, policy_path, validate_evaluate_clean_state,
}
use coffee_order_system.Freshness.{Identity, read_final_identity}

module _ (sys : System) (root plan_path : Text) where
  open sys use {machine}
  open machine use {World}

  -- From `w` to `w'` the worktree was found clean, and then all that identifies the candidate was read.
  pub record ReadAgain (final : Identity) (w w' : World) : Type 0 where
    pub w1 : World
    pub clean : Listed sys root [] w w1
    pub policy : RiskPolicy
    pub w2 : World
    pub policy_read : load_risk_policy sys (policy_path sys root) w1 ≡ (ok policy, w2)
    pub w3 : World
    pub plan_read : load_plan sys root plan_path policy w2 ≡ (ok final.plan, w3)
    pub w4 : World
    pub context_read : resolve_local_git_context sys root final.plan w3 ≡ (ok final.context, w4)
    pub w5 : World
    pub changed_read :
        collect_local_changed_paths sys root final.context.merge_base_sha w4
        ≡ (ok final.changed_paths, w5)
    pub diff_read :
        compute_diff_hash sys root final.context final.changed_paths w5 ≡ (ok final.diff_hash, w')

  pub read_final_identity-ReadAgain :
      (w : World) {final : Identity} {w' : World}
      → read_final_identity sys root plan_path w ≡ (ok final, w')
      → ReadAgain final w w'
  unfolding read_final_identity
  read_final_identity-ReadAgain w {final} {w'} h =
      let (u, w1, clean, h1) =
        bind-eq-ok (validate_evaluate_clean_state sys root (txt "end")) _ w h in
      let (policy, w2, policy_read, h2) =
        bind-eq-ok (load_risk_policy sys (policy_path sys root)) _ w1 h1 in
      let (plan, w3, plan_read, h3) = bind-eq-ok (load_plan sys root plan_path policy) _ w2 h2 in
      let (context, w4, context_read, h4) =
        bind-eq-ok (resolve_local_git_context sys root plan) _ w3 h3 in
      let (changed, w5, changed_read, h5) =
        bind-eq-ok (collect_local_changed_paths sys root context.merge_base_sha) _ w4 h4 in
      let (digest, w6, diff_read, h6) =
        bind-eq-ok (compute_diff_hash sys root context changed) _ w5 h5 in
      let (given, same) = lift-eq-ok (ok _) w6 h6 in
      let read : ReadAgain _ w w6 = record {
        w1 = w1;
        clean = validate_evaluate_clean_state-Listed sys root (txt "end") w clean;
        policy = policy;
        w2 = w2;
        policy_read = policy_read;
        w3 = w3;
        plan_read = plan_read;
        w4 = w4;
        context_read = context_read;
        w5 = w5;
        changed_read = changed_read;
        diff_read = diff_read;
      } in
      subst (λ f. ReadAgain f w w') (ok-injective _ _ given)
        (subst
          (ReadAgain
            (record { plan = plan; context = context; changed_paths = changed; diff_hash = digest })
            w)
          same read)
