-- ===== src/Violations/Writing.antt =====
-- scripts/agent-harness.py: the rules of Effect.NoPass for the writing of files and `prepare`.
use coffee_order_system.Prelude.{
  Option, none, some, List, [], ◌∷◌, ◌++◌, Text, txt, true, false, inl, inr, Option-cases,
}
use coffee_order_system.Outcome.{Result, ok, violation, exception}
use coffee_order_system.Json.{Json}
use coffee_order_system.Model.{Plan, PlanLock}
use coffee_order_system.Outcome.{CheckResult}
use coffee_order_system.Checks.{
  RawChecks, not_iterable, iterable, read_candidates, validate_preflight_results,
}
use coffee_order_system.Effect.{Exec, finish, finally, repair, on_raise}
use coffee_order_system.Effect.NoPass.{
  RaisesNoPass, RunsNoPass, RaisesNoPass-violation, RaisesNoPass-exception, fail-ne-pass,
  pass_rules,
}
use coffee_order_system.System.{System, Try, Call}
use coffee_order_system.Evidence.{
  encode_payload, unguarded, write_json_atomic, remove_stale_plan_lock,
}
use coffee_order_system.Loading.{validate_prepare_clean_state}
use coffee_order_system.Prepare.{read_identity, write_lock, after_preflight, prepare_body}
use coffee_order_system.Violations.Files.{validate_plan_lock-RaisesNoPass}
use coffee_order_system.Violations.Calls.{
  guarded_real, worktree_real, policy-RunsNoPass, plan-RunsNoPass, context-RunsNoPass,
}
use coffee_order_system.Violations.Stages.{root_real, lock_path_real, removed_real}

finish_real :
    {A : Type 0} (q : Result Unit) (r : Result A)
    → RaisesNoPass q
    → RaisesNoPass r
    → RaisesNoPass (finish q r)
finish_real (ok u) r hq hr = hr
finish_real (violation v) r hq hr = RaisesNoPass-violation v hq.real
finish_real (exception e) r hq hr = RaisesNoPass-exception e

module _ {S A : Type 0} where
  finally_real :
      (call : Exec S A) (last : Exec S Unit)
      → RunsNoPass call
      → RunsNoPass last
      → RunsNoPass (finally call last)
  finally_real call last h k = record {
    at = λ s. finish_real (last (call s).1).0 (call s).0 (k.at (call s).1) (h.at s);
  }

  repair_real :
      (r : Result A) (last : Exec S Unit) (s : S)
      → RaisesNoPass r
      → RunsNoPass last
      → RaisesNoPass (repair r last s).0
  repair_real (ok a) last s h k = h
  repair_real (violation v) last s h k = finish_real (last s).0 (violation v) (k.at s) h
  repair_real (exception e) last s h k = finish_real (last s).0 (exception e) (k.at s) h

  on_raise_real :
      (call : Exec S A) (last : Exec S Unit)
      → RunsNoPass call
      → RunsNoPass last
      → RunsNoPass (on_raise call last)
  on_raise_real call last h k = record {
    at = λ s. repair_real (call s).0 last (call s).1 (h.at s) k;
  }

preflight_real : (raw : RawChecks) → RaisesNoPass (validate_preflight_results raw)
unfolding validate_preflight_results
preflight_real (not_iterable e) = search pass_rules
preflight_real (iterable candidates) =
    elim (Option-cases (read_candidates (txt "preflight") candidates).1) [
      | inl e ↦ rw (e, validate_preflight_results) (search pass_rules)
      | inr (reason, e) ↦ rw (e, validate_preflight_results) (search pass_rules)
    ]

module _ (sys : System) where
  payload_real : (payload : Json) → RaisesNoPass (encode_payload sys payload)
  unfolding encode_payload
  payload_real payload =
      elim (Option-cases (sys.encode_utf8 (sys.dumps false payload ++ (10 ∷ [])))) [
        | inr (encoded, e) ↦ rw (e, encode_payload) (search pass_rules)
        | inl e ↦ elim (Option-cases (sys.encode_utf8 (sys.dumps true payload ++ (10 ∷ [])))) [
          | inr (escaped, f) ↦ rw (e, f, encode_payload) (search pass_rules)
          | inl f ↦ rw (e, f, encode_payload) (search pass_rules)
        ]
      ]

  unguarded_real :
      {A : Type 0} (call : Call sys.machine.World (Try A)) → RunsNoPass (unguarded sys call)
  unguarded_real call = guarded_real _ _ call (λ e. fail-ne-pass)

  write_real : (path : Text) (payload : Json) → RunsNoPass (write_json_atomic sys path payload)
  unfolding write_json_atomic
  write_real path payload =
      search (pass_rules, payload_real, unguarded_real, finally_real, on_raise_real) depth 60

  identity_real : (root plan_path : Text) → RunsNoPass (read_identity sys root plan_path)
  unfolding read_identity
  identity_real root plan_path =
      search (pass_rules, policy-RunsNoPass, plan-RunsNoPass, context-RunsNoPass) depth 30

  clean_real : (root : Text) (plan : Plan) → RunsNoPass (validate_prepare_clean_state sys root plan)
  unfolding validate_prepare_clean_state
  clean_real root plan = search (pass_rules, worktree_real) depth 20

  locked_real :
      (root plan_path : Text) (snapshot : PlanLock) (checks : List CheckResult)
      → RunsNoPass (write_lock sys root plan_path snapshot checks)
  unfolding write_lock
  locked_real root plan_path snapshot checks =
      search
        (
          pass_rules, identity_real, clean_real, validate_plan_lock-RaisesNoPass, lock_path_real,
          write_real,
        )
        depth 60

  after_real :
      (root plan_path : Text) (snapshot : PlanLock) (checks : List CheckResult)
      (first : Option CheckResult)
      → RunsNoPass (after_preflight sys root plan_path snapshot checks first)
  unfolding after_preflight
  after_real root plan_path snapshot checks (some check) = search pass_rules
  after_real root plan_path snapshot checks none = locked_real root plan_path snapshot checks

  pub prepare_body-RunsNoPass :
      (root plan_path : Text) (preflight : Text → Exec sys.machine.World RawChecks)
      → ((at_root : Text) → RunsNoPass (preflight at_root))
      → RunsNoPass (prepare_body sys root plan_path preflight)
  unfolding prepare_body remove_stale_plan_lock
  prepare_body-RunsNoPass root plan_path preflight h =
      search
        (
          pass_rules, root_real, lock_path_real, removed_real, identity_real, clean_real, h,
          preflight_real, after_real,
        )
        depth 60
