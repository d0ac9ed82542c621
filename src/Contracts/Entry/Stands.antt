-- ===== src/Contracts/Entry/Stands.antt =====
-- scripts/harness-oracles.py: what the exit code 0 says of the oracle that was named.
use coffee_order_system.Prelude.{
  ℕ, ℤ, ◌≡◌, sym, ap, ◌∙◌, text_eq, nat_eq, Text, txt, map, All, [], ◌∷◌, arith,
}
use coffee_order_system.System.{join_path, returned}
use coffee_order_system.Oracles.{Verdict, passed, failure, validate_migration_sequence}
use coffee_order_system.Contracts.{
  Reply, replied, oracle_failure, os_error, escaped, Host, ◌>>=◌, reply, or_raised, reply_injective,
  carry_on-eq-replied, bind-eq-replied, or_raised-eq-replied,
}
use coffee_order_system.Contracts.Architecture.{validate_architecture}
use coffee_order_system.Contracts.Architecture.Layered.{Layers, validate_architecture-IsLayered}
use coffee_order_system.Contracts.Api.{validate_api_contract}
use coffee_order_system.Contracts.Api.Kept.{Agreed, validate_api_contract-Agreed}
use coffee_order_system.Contracts.Instances.Cleanup.{Instances, run_multi_instance_oracle-Instances}
use coffee_order_system.Contracts.Instances.{tests_of}
use coffee_order_system.Contracts.Entry.Tests.{
  WasThere, api_tests, fresh_tests, upgrade_tests, transaction_tests, concurrency_tests,
  async_tests,
}
use coffee_order_system.Contracts.Entry.{
  reply_of, name_of_path, run_architecture, run_api_contract, run_migration_fresh, run_other,
  run_oracle, code_of_reply, run_main,
}

reply_of-passed : (v : Verdict) {last : ℕ} → reply_of v ≡ replied last → v ≡ passed last
reply_of-passed (passed k) h = ap passed (reply_injective h)
reply_of-passed (failure r) h = absurd (ground (arith, h))

module _ (host : Host) where
  open host use {World, resolve, sorted_glob}

  -- What each oracle stands for, at the root `resolved`, when the world at the end is `w'`, and the test sources that
  -- were there.
  pub record Stands (resolved : Text) (check_id : Text) (w' : World) : Type 0 where
    pub layers : check_id ≡ txt "oracle.architecture" → (n : ℕ) × Layers host resolved n
    pub api : check_id ≡ txt "oracle.api-contract" → (n : ℕ) × (k : ℕ) × Agreed host resolved n k
    pub sequence :
        check_id ≡ txt "oracle.migration-fresh"
        → (w : World) × (last : ℕ) × (validate_migration_sequence (
              map name_of_path
                (sorted_glob
                  (join_path resolved (txt "src/main/resources/db/migration"))
                  (txt "V*.sql")
                  w).0)
            ≡ passed last)
    pub api_tests :
        check_id ≡ txt "oracle.api-contract"
        → All (WasThere host resolved) (
            txt "src/test/java/com/example/coffee/domain/menu/MenuControllerTest.java"
            ∷ txt "src/test/java/com/example/coffee/domain/point/PointChargeIntegrationTest.java"
            ∷ txt "src/test/java/com/example/coffee/domain/order/OrderIntegrationTest.java"
            ∷ txt "src/test/java/com/example/coffee/domain/ranking/PopularMenuIntegrationTest.java"
            ∷ [])
    pub fresh_tests :
        check_id ≡ txt "oracle.migration-fresh"
        → All
            (WasThere host resolved)
            (txt "src/test/java/com/example/coffee/CoffeeApplicationTests.java" ∷ [])
    pub upgrade_tests :
        check_id ≡ txt "oracle.migration-upgrade"
        → All
            (WasThere host resolved)
            (txt "src/test/java/com/example/coffee/MigrationUpgradeTest.java" ∷ [])
    pub transaction_tests :
        check_id ≡ txt "oracle.transaction"
        → All (WasThere host resolved) (
            txt "src/test/java/com/example/coffee/domain/point/PointChargeIntegrationTest.java"
            ∷ txt "src/test/java/com/example/coffee/domain/order/OrderIntegrationTest.java"
            ∷ [])
    pub concurrency_tests :
        check_id ≡ txt "oracle.cross-domain-concurrency"
        → All (WasThere host resolved) (
            txt
              "src/test/java/com/example/coffee/domain/concurrency/CrossDomainConcurrencyIntegrationTest.java"
            ∷ [])
    pub async_tests :
        check_id ≡ txt "oracle.async-isolation"
        → All
            (WasThere host resolved)
            (txt "src/test/java/com/example/coffee/domain/order/OrderAsyncIsolationTest.java" ∷ [])
    pub instances : check_id ≡ txt "oracle.multi-instance" → Instances host resolved (ℤ.pos 0) w'

  module _ (root : Text) (w : World) {w' : World} where
    architecture_lem :
        run_oracle host root (txt "oracle.architecture") w ≡ (replied (ℤ.pos 0), w')
        → (n : ℕ) × Layers host root n
    unfolding run_oracle run_architecture txt text_eq
    architecture_lem h =
        let (n, w1, e, h1) = bind-eq-replied (validate_architecture host root) _ w h in
        (n, validate_architecture-IsLayered host root w e)

    api_lem :
        run_oracle host root (txt "oracle.api-contract") w ≡ (replied (ℤ.pos 0), w')
        → (n : ℕ) × (k : ℕ) × Agreed host root n k
    unfolding run_oracle run_api_contract txt text_eq
    api_lem h =
        let (c, w1, e, h1) = bind-eq-replied (validate_api_contract host root) _ w h in
        (c.0, c.1, validate_api_contract-Agreed host root w e)

    sequence_lem :
        run_oracle host root (txt "oracle.migration-fresh") w ≡ (replied (ℤ.pos 0), w')
        → (u : World) × (last : ℕ) × (validate_migration_sequence (
              map name_of_path
                (sorted_glob
                  (join_path root (txt "src/main/resources/db/migration"))
                  (txt "V*.sql")
                  u).0)
            ≡ passed last)
    unfolding run_oracle run_migration_fresh txt text_eq
    sequence_lem h =
        let (files, w1) =
          sorted_glob (join_path root (txt "src/main/resources/db/migration")) (txt "V*.sql") w in
        let (last, e, h1) =
          carry_on-eq-replied (reply_of (validate_migration_sequence (map name_of_path files))) _ w1
            h in
        (w, last, reply_of-passed _ e)

    instances_lem :
        run_oracle host root (txt "oracle.multi-instance") w ≡ (replied (ℤ.pos 0), w')
        → Instances host root (ℤ.pos 0) w'
    unfolding run_oracle run_other txt text_eq
    instances_lem h = run_multi_instance_oracle-Instances host root w h

    upgrade_tests_lem :
        run_oracle host root (txt "oracle.migration-upgrade") w ≡ (replied (ℤ.pos 0), w')
        → All
            (WasThere host root)
            (txt "src/test/java/com/example/coffee/MigrationUpgradeTest.java" ∷ [])
    unfolding run_oracle run_other tests_of txt text_eq nat_eq
    upgrade_tests_lem h = upgrade_tests host root w h

    transaction_tests_lem :
        run_oracle host root (txt "oracle.transaction") w ≡ (replied (ℤ.pos 0), w')
        → All (WasThere host root) (
            txt "src/test/java/com/example/coffee/domain/point/PointChargeIntegrationTest.java"
            ∷ txt "src/test/java/com/example/coffee/domain/order/OrderIntegrationTest.java"
            ∷ [])
    unfolding run_oracle run_other tests_of txt text_eq nat_eq
    transaction_tests_lem h = transaction_tests host root w h

    concurrency_tests_lem :
        run_oracle host root (txt "oracle.cross-domain-concurrency") w ≡ (replied (ℤ.pos 0), w')
        → All (WasThere host root) (
            txt
              "src/test/java/com/example/coffee/domain/concurrency/CrossDomainConcurrencyIntegrationTest.java"
            ∷ [])
    unfolding run_oracle run_other tests_of txt text_eq nat_eq
    concurrency_tests_lem h = concurrency_tests host root w h

    async_tests_lem :
        run_oracle host root (txt "oracle.async-isolation") w ≡ (replied (ℤ.pos 0), w')
        → All
            (WasThere host root)
            (txt "src/test/java/com/example/coffee/domain/order/OrderAsyncIsolationTest.java" ∷ [])
    unfolding run_oracle run_other tests_of txt text_eq nat_eq
    async_tests_lem h = async_tests host root w h

    api_tests_lem :
        run_oracle host root (txt "oracle.api-contract") w ≡ (replied (ℤ.pos 0), w')
        → All (WasThere host root) (
            txt "src/test/java/com/example/coffee/domain/menu/MenuControllerTest.java"
            ∷ txt "src/test/java/com/example/coffee/domain/point/PointChargeIntegrationTest.java"
            ∷ txt "src/test/java/com/example/coffee/domain/order/OrderIntegrationTest.java"
            ∷ txt "src/test/java/com/example/coffee/domain/ranking/PopularMenuIntegrationTest.java"
            ∷ [])
    unfolding run_oracle run_api_contract txt text_eq
    api_tests_lem h =
        let (c, w1, e, h1) = bind-eq-replied (validate_api_contract host root) _ w h in
        api_tests host root _ h1

    fresh_tests_lem :
        run_oracle host root (txt "oracle.migration-fresh") w ≡ (replied (ℤ.pos 0), w')
        → All
            (WasThere host root)
            (txt "src/test/java/com/example/coffee/CoffeeApplicationTests.java" ∷ [])
    unfolding run_oracle run_migration_fresh txt text_eq
    fresh_tests_lem h =
        let (files, w1) =
          sorted_glob (join_path root (txt "src/main/resources/db/migration")) (txt "V*.sql") w in
        let (last, e, h1) =
          carry_on-eq-replied (reply_of (validate_migration_sequence (map name_of_path files))) _ w1
            h in
        fresh_tests host root _ h1

  code_lem : (r : Reply ℤ) → code_of_reply host r ≡ replied (ℤ.pos 0) → r ≡ replied (ℤ.pos 0)
  unfolding code_of_reply
  code_lem (replied code) h = h
  code_lem (oracle_failure reason) h = absurd (ground (arith, h))
  code_lem (os_error e) h = absurd (ground (arith, h))
  code_lem (escaped e) h = absurd (ground (arith, h))

  -- When `main` gives the exit code 0, the root was resolved, and at that root the oracle that was named stands: the
  -- layers are allowed and without a cycle; the contract and the sources agree; the versions of the migrations found
  -- are a sequence; or the instances were started, tested and removed. For each of the six oracles with test classes,
  -- the API contract and the fresh migration among them, each of its source files was there on some world.
  pub run_main-Stands :
      (root check_id : Text) (w : World) {w' : World}
      → run_main host root check_id w ≡ (replied (ℤ.pos 0), w')
      → (resolved : Text) × (u : World) × (resolve root w ≡ (returned resolved, u))
        × Stands resolved check_id w'
  unfolding run_main
  run_main-Stands root check_id w {w'} h =
      let (tried, w1) = resolve root w in
      let (result, w2) =
        (reply (or_raised tried) >>= λ resolved. run_oracle host resolved check_id) w1 in
      let whole =
        ap (λ r. (r, w2)) (code_lem result (ap (λ r. r.0) h))
        ∙ ap (λ (r : Reply ℤ × World). (replied (ℤ.pos 0), r.1)) h in
      let (resolved, e, ran) =
        carry_on-eq-replied (or_raised tried) (λ resolved. run_oracle host resolved check_id) w1
          whole in
      let at : (id : Text)
          → check_id ≡ id
          → run_oracle host resolved id w1 ≡ (replied (ℤ.pos 0), w') =
        λ id same. ap (λ x. run_oracle host resolved x w1) (sym same) ∙ ran in
      (
        resolved,
        w1,
        ap (λ t. (t, w1)) (or_raised-eq-replied tried e),
        record {
          layers = λ same. architecture_lem resolved w1 (at _ same);
          api = λ same. api_lem resolved w1 (at _ same);
          sequence = λ same. sequence_lem resolved w1 (at _ same);
          api_tests = λ same. api_tests_lem resolved w1 (at _ same);
          fresh_tests = λ same. fresh_tests_lem resolved w1 (at _ same);
          upgrade_tests = λ same. upgrade_tests_lem resolved w1 (at _ same);
          transaction_tests = λ same. transaction_tests_lem resolved w1 (at _ same);
          concurrency_tests = λ same. concurrency_tests_lem resolved w1 (at _ same);
          async_tests = λ same. async_tests_lem resolved w1 (at _ same);
          instances = λ same. instances_lem resolved w1 (at _ same);
        },
      )
