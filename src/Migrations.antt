-- ===== src/Migrations.antt =====
-- scripts/agent-harness.py: `validate_existing_migrations_immutable`.
pub mod Immutable
use coffee_order_system.Prelude.{
  Bool, not, List, [], ◌∷◌, ◌++◌, ◌==◌, texts_eq, text_eq, Text, txt, keep, contains, sorted_set,
}
use coffee_order_system.Outcome.{
  Result, Reason, values, HarnessViolation, violation_of, fail, reject_if,
}
use coffee_order_system.Outcome
use coffee_order_system.Model.{GitContext}
use coffee_order_system.Gate.{difference}
use coffee_order_system.Diff.{git_diff_error}
use coffee_order_system.Runner.{Machine}
use coffee_order_system.Effect.{Exec, ◌>>=◌, ◌>>◌, lift}
use coffee_order_system.System.{System}
use coffee_order_system.Git.{name_status, nul_paths}

abbrev migration_prefix : Text
migration_prefix = txt "src/main/resources/db/migration/"

-- `sorted(xs.intersection(ys))`
unfoldable pub intersection : List Text → List Text → List Text
intersection xs ys = sorted_set (keep (contains ys) xs)

-- The tests on the paths that git gave.
unfoldable pub check_migrations : List Text → List Text → List Text → Result (Unit {0})
unfolding intersection
check_migrations reported base_migrations mutations =
    Outcome.◌>>◌
      (reject_if (not (difference mutations reported == [])) (
        git_diff_error
          (values (txt "migration paths missing from the diff") (difference mutations reported))))
      (reject_if (not (intersection base_migrations mutations == [])) (
        violation_of fail (txt "migration.immutable")
          (values (txt "existing migrations changed") (intersection base_migrations mutations))))

module _ (sys : System) where
  open sys use {machine}
  open machine use {World}

  abbrev plain_options : List Text → List Text
  plain_options more =
      txt "--name-status" ∷ txt "-z" ∷ txt "--no-renames" ∷ txt "--no-ext-diff" ∷ more

  unfoldable pub validate_existing_migrations_immutable :
      Text → GitContext → List Text → Exec World (Unit {0})
  unfolding check_migrations
  validate_existing_migrations_immutable root context changed_paths = do
    base_migrations ← nul_paths sys root (
        txt "ls-tree"
        ∷ txt "-r"
        ∷ txt "-z"
        ∷ txt "--name-only"
        ∷ context.merge_base_sha
        ∷ txt "--"
        ∷ migration_prefix
        ∷ [])
    committed ← name_status sys root (
        txt "diff"
        ∷ plain_options (context.merge_base_sha ∷ txt "HEAD" ∷ txt "--" ∷ migration_prefix ∷ []))
    cached ←
        name_status sys root
          (txt "diff" ∷ txt "--cached" ∷ plain_options (txt "--" ∷ migration_prefix ∷ []))
    unstaged ← name_status sys root (txt "diff" ∷ plain_options (txt "--" ∷ migration_prefix ∷ []))
    lift (check_migrations changed_paths base_migrations (committed ++ cached ++ unstaged))
