-- ===== src/Migrations/Immutable.antt =====
-- scripts/agent-harness.py, `validate_existing_migrations_immutable`: what the tests on the paths of git say.
use coffee_order_system.Prelude.{
  ◌≡◌, ◌↔◌, true, false, List, [], Text, contains, arith, text_eq, texts_eq,
}
use coffee_order_system.Outcome.{ok}
use coffee_order_system.Gate.{difference}
use coffee_order_system.Gate.Differences.{sorted_keep-nil, difference-nil}
use coffee_order_system.Migrations.{intersection, check_migrations}

both_nil :
    (reported base mutations : List Text)
    → (check_migrations reported base mutations ≡ ok tt)
      ↔ ((difference mutations reported ≡ []) × (intersection base mutations ≡ []))
unfolding check_migrations
both_nil reported base mutations = (λ h. ground (arith, h), λ h. ground (arith, h))

-- `check_migrations` passes exactly when each path of a mutation is among the reported paths, and no migration
-- of the merge base is among the mutations.
pub check_migrations-IsImmutable :
    (reported base mutations : List Text)
    → (check_migrations reported base mutations ≡ ok tt) ↔ (
        ((path : Text) → contains mutations path ≡ true → contains reported path ≡ true)
        × ((path : Text) → contains base path ≡ true → contains mutations path ≡ false))
unfolding intersection
check_migrations-IsImmutable reported base mutations =
    let tests = both_nil reported base mutations in
    let missing = difference-nil mutations reported in
    let changed = sorted_keep-nil (contains mutations) base in
    (
      λ h. (missing.0 (tests.0 h).0, changed.0 (tests.0 h).1),
      λ h. tests.1 (missing.1 h.0, changed.1 h.1),
    )
