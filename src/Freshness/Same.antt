-- ===== src/Freshness/Same.antt =====
-- scripts/agent-harness.py, `_freshness_check`: what its PASS and its other states rest on.
use coffee_order_system.Prelude.{
  List, [], ◌∷◌, ◌≡◌, ◌≢◌, ◌↔◌, refl, texts_eq, text_eq, Bool, true, false, Text, arith, All,
  if◌then◌else◌,
}
use coffee_order_system.Outcome.{
  Result, ok, violation, exception, State, CheckResult, plain_check, HarnessViolation,
}
use coffee_order_system.LockFile.{changed_labels}
use coffee_order_system.LockFile.Identity.{changed_labels-nil}
use coffee_order_system.Freshness.{
  Identity, identity_comparisons, compare_identity, change_check, stale_check, freshness_of,
}
use coffee_order_system.Effect.NoPass.{RaisesNoPass, replan-ne-pass}

-- The two identities agree in all that is compared.
pub record IsSame (before after : Identity) : Type 0 where
  pub base_tip : before.context.base_tip_sha ≡ after.context.base_tip_sha
  pub merge_base : before.context.merge_base_sha ≡ after.context.merge_base_sha
  pub head : before.context.candidate_head_sha ≡ after.context.candidate_head_sha
  pub tested : before.context.tested_revision_sha ≡ after.context.tested_revision_sha
  pub path : before.plan.relative_path ≡ after.plan.relative_path
  pub hash : before.plan.plan_hash ≡ after.plan.plan_hash
  pub changed : before.changed_paths ≡ after.changed_paths
  pub digest : before.diff_hash ≡ after.diff_hash

change_check-nil : (labels : List Text) → ((change_check labels).state ≡ State.pass) ↔ (labels ≡ [])
unfolding change_check plain_check
change_check-nil [] = (λ h. refl, λ h. refl)
change_check-nil (l ∷ ls) = (λ h. absurd (ground (arith, h)), λ h. absurd (ground (arith, h)))

module _ (before after : Identity) where
  comparisons-IsSame :
      All (λ (p : Text × Bool). p.1 ≡ true) (identity_comparisons before after)
      ↔ IsSame before after
  unfolding identity_comparisons
  comparisons-IsSame = (λ h. ground arith, λ s. ground arith)

  unchanged : (changed_labels (identity_comparisons before after) ≡ []) ↔ IsSame before after
  unchanged = (
    λ h. comparisons-IsSame.0 ((changed_labels-nil (identity_comparisons before after)).0 h),
    λ s. (changed_labels-nil (identity_comparisons before after)).1 (comparisons-IsSame.1 s),
  )

  -- The comparison of two readings of the identity passes exactly when the base tip, the merge base, the HEAD,
  -- the tested revision, the plan's path and digest, the changed paths and the digest of the diff are the same.
  pub compare_identity-IsSame :
      ((compare_identity before after).state ≡ State.pass) ↔ IsSame before after
  unfolding compare_identity
  compare_identity-IsSame =
      (λ h. unchanged.0 ((change_check-nil _).0 h), λ s. (change_check-nil _).1 (unchanged.1 s))

if-ne-pass :
    (b : Bool) (s t : State) → s ≢ State.pass → t ≢ State.pass → (if b then s else t) ≢ State.pass
if-ne-pass true s t hs ht = hs
if-ne-pass false s t hs ht = ht

if_check-ne-pass :
    (b : Bool) (c d : CheckResult)
    → c.state ≢ State.pass
    → d.state ≢ State.pass
    → (if b then c else d).state ≢ State.pass
if_check-ne-pass true c d hc hd = hc
if_check-ne-pass false c d hc hd = hd

stale_check-ne-pass :
    (error : HarnessViolation) → error.state ≢ State.pass → (stale_check error).state ≢ State.pass
unfolding stale_check plain_check
stale_check-ne-pass error h = if_check-ne-pass _ _ _ h (if-ne-pass _ _ _ replan-ne-pass h)

-- A freshness check passes only when the identity was read again and is the same.
pub freshness_of-pass :
    (before : Identity) (r : Result Identity)
    → RaisesNoPass r
    → (freshness_of before r).0.state ≡ State.pass
    → (after : Identity) × (r ≡ ok after) × IsSame before after
unfolding freshness_of plain_check
freshness_of-pass before (ok after) n h = (after, refl, (compare_identity-IsSame before after).0 h)
freshness_of-pass before (violation v) n h = absurd (stale_check-ne-pass v n.real h)
freshness_of-pass before (exception e) n h = absurd (ground (arith, h))
