-- ===== src/LockFile/Identity.antt =====
-- What it means that `validate_plan_lock` passes.
use coffee_order_system.Prelude.{
  ◌≡◌, refl, ◌↔◌, Bool, true, List, [], ◌∷◌, arith, nat_eq, text_eq, texts_eq, Text, All,
}
use coffee_order_system.Outcome.{ok, reject_if-eq-ok}
use coffee_order_system.Gate.Contract.{nil-of_test}
use coffee_order_system.Model.{Plan, GitContext, PlanLock}
use coffee_order_system.LockFile.{
  changed_labels, lock_comparisons, validate_plan_lock, make_plan_lock,
}

-- The lock names this plan, this branch and these commits.
pub record Locks (lock : PlanLock) (plan : Plan) (context : GitContext) : Type 0 where
  pub issue : lock.issue ≡ plan.issue
  pub plan_path : lock.plan_path ≡ plan.relative_path
  pub plan_hash : lock.plan_hash ≡ plan.plan_hash
  pub target_branch : lock.target_branch ≡ plan.target_branch
  pub branch : lock.branch ≡ context.branch
  pub base_tip_sha : lock.base_tip_sha ≡ context.base_tip_sha
  pub merge_base_sha : lock.merge_base_sha ≡ context.merge_base_sha

pub changed_labels-nil :
    (pairs : List (Text × Bool))
    → (changed_labels pairs ≡ []) ↔ All (λ (p : Text × Bool). p.1 ≡ true) pairs
unfolding changed_labels
changed_labels-nil [] = (λ h. tt, λ h. refl)
changed_labels-nil ((label, same) ∷ rest) = (
  λ h. (ground arith, (changed_labels-nil rest).0 (ground arith)),
  λ h. let later = (changed_labels-nil rest).1 h.1 in ground arith,
)

module _ (lock : PlanLock) (plan : Plan) (context : GitContext) where
  comparisons-Locks :
      All (λ (p : Text × Bool). p.1 ≡ true) (lock_comparisons lock plan context)
      ↔ Locks lock plan context
  unfolding lock_comparisons
  comparisons-Locks = (λ h. ground arith, λ l. ground arith)

  -- `validate_plan_lock` passes exactly when the lock names the plan's issue, path, digest and
  -- target branch, and the context's branch, base tip and merge base.
  pub validate_plan_lock-Locks :
      (validate_plan_lock lock plan context ≡ ok tt) ↔ Locks lock plan context
  unfolding validate_plan_lock
  validate_plan_lock-Locks = (
    λ h. comparisons-Locks.0 (
        (changed_labels-nil (lock_comparisons lock plan context)).0
          (nil-of_test _ (reject_if-eq-ok _ _ h))),
    λ l.
        let e =
          (changed_labels-nil (lock_comparisons lock plan context)).1 (comparisons-Locks.1 l) in
        ground arith,
  )

pub make_plan_lock-Locks :
    (plan : Plan) (context : GitContext) → Locks (make_plan_lock plan context) plan context
unfolding make_plan_lock
make_plan_lock-Locks plan context = record {
  issue = refl;
  plan_path = refl;
  plan_hash = refl;
  target_branch = refl;
  branch = refl;
  base_tip_sha = refl;
  merge_base_sha = refl;
}
