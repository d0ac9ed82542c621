-- ===== src/Witnesses/Oracles.antt =====
-- The migration oracle on small inputs.
use coffee_order_system.Oracles.Cycles.{find_cycle}
use coffee_order_system.Oracles.Cycles.Acyclic.{Decides, find_cycle-Decides}
use coffee_order_system.Prelude.{
  ℕ, ◌≡◌, refl, ◌&&◌, some, List, [], ◌∷◌, map, leb, contains, length, Text, txt, text_eq, nat_eq,
  remove_suffix,
}
use coffee_order_system.Oracles.{passed, migration_version, validate_migration_sequence}
use coffee_order_system.Oracles.Sequence.{validate_migration_sequence_lem}

abbrev two_migrations : List Text
two_migrations = txt "V1__create_menu.sql" ∷ txt "V2__create_orders.sql" ∷ []

two_migrations_pass : validate_migration_sequence two_migrations ≡ passed 2
unfolding validate_migration_sequence txt text_eq nat_eq contains remove_suffix
two_migrations_pass = refl

validate_migration_sequence_lem_example :
    (ns : List ℕ) × (map migration_version two_migrations ≡ map some ns)
    × (length ns ≡ 2)
    × ((n : ℕ) → contains ns n ≡ (leb 1 n && leb n 2))
validate_migration_sequence_lem_example =
    validate_migration_sequence_lem two_migrations 2 two_migrations_pass

abbrev two_layers : List (Text × Text)
two_layers =
    (txt "domain.order", txt "domain.menu")
    ∷ (txt "domain.menu", txt "infra.kafka")
    ∷ (txt "infra.kafka", txt "domain.menu")
    ∷ []

find_cycle-Decides_example : Decides two_layers (find_cycle two_layers)
find_cycle-Decides_example = find_cycle-Decides two_layers
