-- ===== src/Contracts/Entry.antt =====
-- scripts/harness-oracles.py: `run_oracle`, and `main` behind its parser.
pub mod Tests
pub mod Stands
use coffee_order_system.Prelude.{
  ℕ, ℤ, true, false, none, some, List, [], ◌∷◌, ◌++◌, ◌==◌, text_eq, nat_eq, Text, txt, contains,
  map,
}
use coffee_order_system.Outcome.{value}
use coffee_order_system.System.{join_path}
use coffee_order_system.Oracles.{Verdict, passed, failure, validate_migration_sequence}
use coffee_order_system.Publish.{number_text}
use coffee_order_system.Contracts.{
  Reply, replied, oracle_failure, os_error, escaped, Host, Task, ◌>>=◌, ◌>>◌, reply, call,
  or_raised,
}
use coffee_order_system.Contracts.Architecture.{validate_architecture}
use coffee_order_system.Contracts.Api.{validate_api_contract}
use coffee_order_system.Contracts.Instances.{
  oracle_tests, tests_of, validate_test_sources, run_multi_instance_oracle,
}

-- `ORACLE_IDS`
abbrev pub oracle_ids : List Text
oracle_ids =
    txt "oracle.architecture"
    ∷ txt "oracle.api-contract"
    ∷ txt "oracle.migration-fresh"
    ∷ txt "oracle.migration-upgrade"
    ∷ txt "oracle.transaction"
    ∷ txt "oracle.cross-domain-concurrency"
    ∷ txt "oracle.async-isolation"
    ∷ txt "oracle.multi-instance"
    ∷ []

abbrev reply_of : Verdict → Reply ℕ
reply_of (passed last) = replied last
reply_of (failure reason) = oracle_failure reason

-- `path.name`
unfoldable pub name_of_path : Text → Text
name_of_path [] = []
name_of_path (c ∷ s) = elim (contains (c ∷ s) b'/') [ true ↦ name_of_path s | false ↦ c ∷ s ]

module _ (host : Host) where
  open host use {World, resolve, sorted_glob, print}

  -- `print(…)`
  abbrev say : Text → Task World (Unit {0})
  say line = call (print (line ++ 10 ∷ []))

  unfoldable pub run_tests : Text → Text → Task World ℤ
  unfolding validate_test_sources number_text
  run_tests root check_id = do
    n ← validate_test_sources host root check_id
    say (check_id ++ (txt " test source PASS: " ++ (number_text n ++ txt "개 test class")))
    reply (replied (ℤ.pos 0))

  unfoldable pub run_architecture : Text → Task World ℤ
  unfolding validate_architecture number_text
  run_architecture root = do
    n ← validate_architecture host root
    say (txt "architecture PASS: " ++ (number_text n ++ txt "개 Java source, 순환·금지 의존성 없음"))
    reply (replied (ℤ.pos 0))

  unfoldable pub run_api_contract : Text → Task World ℤ
  unfolding validate_api_contract run_tests number_text
  run_api_contract root = do
    counts ← validate_api_contract host root
    say (
        txt "api-contract PASS: "
        ++ (number_text counts.0
            ++ (txt "개 endpoint, " ++ (number_text counts.1 ++ txt "개 error code"))))
    run_tests root (txt "oracle.api-contract")

  unfoldable pub run_migration_fresh : Text → Task World ℤ
  unfolding validate_migration_sequence name_of_path run_tests number_text
  run_migration_fresh root = do
    files ←
        call (sorted_glob (join_path root (txt "src/main/resources/db/migration")) (txt "V*.sql"))
    last ← reply (reply_of (validate_migration_sequence (map name_of_path files)))
    say (txt "migration sequence PASS: V1..V" ++ number_text last)
    run_tests root (txt "oracle.migration-fresh")

  -- The branch for the ids with tests alone, and the last two.
  unfoldable pub run_other : Text → Text → Task World ℤ
  unfolding tests_of run_tests run_multi_instance_oracle
  run_other root check_id = elim (tests_of check_id oracle_tests) [
    | some names ↦ run_tests root check_id
    | none ↦ elim (check_id == txt "oracle.multi-instance") [
      | true ↦ run_multi_instance_oracle host root
      | false ↦ reply (oracle_failure (value (txt "oracle") check_id))
    ]
  ]

  unfoldable pub run_oracle : Text → Text → Task World ℤ
  unfolding run_architecture run_api_contract run_migration_fresh run_other
  run_oracle root check_id = elim (check_id == txt "oracle.architecture") [
    | true ↦ run_architecture root
    | false ↦ elim (check_id == txt "oracle.api-contract") [
      | true ↦ run_api_contract root
      | false ↦ elim (check_id == txt "oracle.migration-fresh") [
        | true ↦ run_migration_fresh root
        | false ↦ run_other root check_id
      ]
    ]
  ]

  -- The exit code, or what leaves `main`.
  unfoldable pub code_of_reply : Reply ℤ → Reply ℤ
  code_of_reply (replied code) = replied code
  code_of_reply (oracle_failure reason) = replied (ℤ.pos 1)
  code_of_reply (os_error e) = replied (ℤ.pos 1)
  code_of_reply (escaped e) = escaped e

  unfoldable pub run_main : Text → Text → Task World ℤ
  unfolding run_oracle code_of_reply
  run_main root check_id w =
      let (tried, w1) = resolve root w in
      let (result, w2) =
        (reply (or_raised tried) >>= λ resolved. run_oracle resolved check_id) w1 in
      (code_of_reply result, w2)
