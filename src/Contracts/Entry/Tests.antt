-- ===== src/Contracts/Entry/Tests.antt =====
-- scripts/harness-oracles.py: the test sources that an oracle asks for, `validate_test_sources`.
use coffee_order_system.Prelude.{
  ℕ, ℤ, ◌≡◌, refl, ap, sym, ◌∙◌, subst, length, true, false, not, Option, some, none, List, [], ◌∷◌,
  Text, txt, All, starts_with, text_eq, nat_eq, arith, if◌then◌else◌,
}
use coffee_order_system.Outcome.{value}
use coffee_order_system.System.{join_path}
use coffee_order_system.Contracts.{
  replied, escaped, Host, Task, reply, ◌>>◌, fail_if, require_file, carry_on-eq-replied,
  bind-eq-replied, fail_if-eq-replied,
}
use coffee_order_system.Contracts.Instances.{
  oracle_tests, tests_of, test_path, require_tests, validate_test_sources,
}
use coffee_order_system.Contracts.Entry.{run_tests}

some_injective : {A : Type 0} {a b : A} → some a ≡ some b → a ≡ b
some_injective h = cc

module _ (host : Host) (root : Text) where
  open host use {World, is_file}

  -- On some world the file was there.
  abbrev pub WasThere : Text → Type 0
  WasThere path = (w : World) × ((is_file (join_path root path) w).0 ≡ true)

  require_file-WasThere :
      (path : Text) (w : World) {found : Text} {w' : World}
      → starts_with path (txt "/") ≡ false
      → require_file host root path w ≡ (replied found, w')
      → WasThere path
  unfolding require_file
  require_file-WasThere path w relative h =
      let place = if starts_with path (txt "/") then path else join_path root path in
      let (there, w1) = is_file place w in
      let (u, e, h1) =
        carry_on-eq-replied (fail_if (not there) (value (txt "required file") path)) _ w1 h in
      let missing = fail_if-eq-replied (not there) (value (txt "required file") path) e in
      let present : (is_file place w).0 ≡ true = ground (arith, missing) in
      (
        w,
        ap (λ b. (is_file (if b then path else join_path root path) w).0) (sym relative) ∙ present,
      )

  test_path-relative : (name : Text) → starts_with (test_path name) (txt "/") ≡ false
  unfolding test_path txt starts_with nat_eq
  test_path-relative name = refl

  require_tests-WasThere :
      (names : List Text) (w : World) {w' : World}
      → require_tests host root names w ≡ (replied tt, w')
      → All (λ name. WasThere (test_path name)) names
  unfolding require_tests
  require_tests-WasThere [] w h = tt
  require_tests-WasThere (name ∷ names) w h =
      let (found, w1, e, h1) = bind-eq-replied (require_file host root (test_path name)) _ w h in
      (
        require_file-WasThere (test_path name) w (test_path-relative name) e,
        require_tests-WasThere names w1 h1,
      )

  names_go :
      (known_names : Option (List Text)) (names : List Text) (w : World) {n : ℕ} {w' : World}
      → known_names ≡ some names
      → (elim known_names as (λ o. Task World ℕ) [
        | none ↦ reply (escaped (txt "KeyError"))
        | some given ↦ require_tests host root given >> reply (replied (length given))
      ])
          w
        ≡ (replied n, w')
      → All (λ name. WasThere (test_path name)) names
  names_go none names w known h = absurd (ground (arith, known))
  names_go (some given) names w known h =
      let (u, w1, e, h1) = bind-eq-replied (require_tests host root given) _ w h in
      subst (All (λ name. WasThere (test_path name))) (some_injective known)
        (require_tests-WasThere given w e)

  run_tests-WasThere :
      (id : Text) (names : List Text) (w : World) {code : ℤ} {w' : World}
      → tests_of id oracle_tests ≡ some names
      → run_tests host root id w ≡ (replied code, w')
      → All (λ name. WasThere (test_path name)) names
  unfolding run_tests validate_test_sources
  run_tests-WasThere id names w known h =
      let (n, w1, e, h1) = bind-eq-replied (validate_test_sources host root id) _ w h in
      names_go (tests_of id oracle_tests) names w known e

  pub api_tests :
      (w : World) {code : ℤ} {w' : World}
      → run_tests host root (txt "oracle.api-contract") w ≡ (replied code, w')
      → All WasThere (
          txt "src/test/java/com/example/coffee/domain/menu/MenuControllerTest.java"
          ∷ txt "src/test/java/com/example/coffee/domain/point/PointChargeIntegrationTest.java"
          ∷ txt "src/test/java/com/example/coffee/domain/order/OrderIntegrationTest.java"
          ∷ txt "src/test/java/com/example/coffee/domain/ranking/PopularMenuIntegrationTest.java"
          ∷ [])
  unfolding tests_of test_path txt text_eq nat_eq
  api_tests w h =
      run_tests-WasThere (txt "oracle.api-contract")
        (txt "com.example.coffee.domain.menu.MenuControllerTest"
          ∷ txt "com.example.coffee.domain.point.PointChargeIntegrationTest"
          ∷ txt "com.example.coffee.domain.order.OrderIntegrationTest"
          ∷ txt "com.example.coffee.domain.ranking.PopularMenuIntegrationTest"
          ∷ [])
        w refl h

  pub fresh_tests :
      (w : World) {code : ℤ} {w' : World}
      → run_tests host root (txt "oracle.migration-fresh") w ≡ (replied code, w')
      → All WasThere (txt "src/test/java/com/example/coffee/CoffeeApplicationTests.java" ∷ [])
  unfolding tests_of test_path txt text_eq nat_eq
  fresh_tests w h =
      run_tests-WasThere (txt "oracle.migration-fresh")
        (txt "com.example.coffee.CoffeeApplicationTests" ∷ []) w refl h

  pub upgrade_tests :
      (w : World) {code : ℤ} {w' : World}
      → run_tests host root (txt "oracle.migration-upgrade") w ≡ (replied code, w')
      → All WasThere (txt "src/test/java/com/example/coffee/MigrationUpgradeTest.java" ∷ [])
  unfolding tests_of test_path txt text_eq nat_eq
  upgrade_tests w h =
      run_tests-WasThere (txt "oracle.migration-upgrade")
        (txt "com.example.coffee.MigrationUpgradeTest" ∷ []) w refl h

  pub transaction_tests :
      (w : World) {code : ℤ} {w' : World}
      → run_tests host root (txt "oracle.transaction") w ≡ (replied code, w')
      → All WasThere (
          txt "src/test/java/com/example/coffee/domain/point/PointChargeIntegrationTest.java"
          ∷ txt "src/test/java/com/example/coffee/domain/order/OrderIntegrationTest.java"
          ∷ [])
  unfolding tests_of test_path txt text_eq nat_eq
  transaction_tests w h =
      run_tests-WasThere (txt "oracle.transaction")
        (txt "com.example.coffee.domain.point.PointChargeIntegrationTest"
          ∷ txt "com.example.coffee.domain.order.OrderIntegrationTest"
          ∷ [])
        w refl h

  pub concurrency_tests :
      (w : World) {code : ℤ} {w' : World}
      → run_tests host root (txt "oracle.cross-domain-concurrency") w ≡ (replied code, w')
      → All WasThere (
          txt
            "src/test/java/com/example/coffee/domain/concurrency/CrossDomainConcurrencyIntegrationTest.java"
          ∷ [])
  unfolding tests_of test_path txt text_eq nat_eq
  concurrency_tests w h =
      run_tests-WasThere (txt "oracle.cross-domain-concurrency")
        (txt "com.example.coffee.domain.concurrency.CrossDomainConcurrencyIntegrationTest" ∷ []) w
        refl h

  pub async_tests :
      (w : World) {code : ℤ} {w' : World}
      → run_tests host root (txt "oracle.async-isolation") w ≡ (replied code, w')
      → All WasThere
          (txt "src/test/java/com/example/coffee/domain/order/OrderAsyncIsolationTest.java" ∷ [])
  unfolding tests_of test_path txt text_eq nat_eq
  async_tests w h =
      run_tests-WasThere (txt "oracle.async-isolation")
        (txt "com.example.coffee.domain.order.OrderAsyncIsolationTest" ∷ []) w refl h
