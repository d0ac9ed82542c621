-- ===== src/Gate/Contract.antt =====
-- What a plan that passes the checks of its risks and of its contract changes has declared.
use coffee_order_system.Prelude.{
  ◌≡◌, ◌≢◌, inl, inr, true, false, not, List, [], ◌∷◌, arith, ◌==◌, text_eq, texts_eq, Bool-cases,
  contains, Text, keep, contains-keep, sorted_set, contains-sorted_set,
}
use coffee_order_system.Outcome.{ok, >>=-eq-ok, reject_if-eq-ok}
use coffee_order_system.Paths.{contract_change_path}
use coffee_order_system.Model.{Plan, RiskPolicy, RiskClassification}
use coffee_order_system.Gate.{
  any_matches, difference, validate_risk_declarations, declared_contract_paths, is_undeclared,
  validate_contract_changes,
}

-- No text of a list that is empty but for sorting.
pub sorted-nil : (xs : List Text) (a : Text) → sorted_set xs ≡ [] → contains xs a ≡ false
unfolding contains
sorted-nil xs a h = ground (arith, contains-sorted_set xs a)

pub nil-of_test : (xs : List Text) → not (xs == []) ≡ false → xs ≡ []
nil-of_test xs h = ground arith

module _ (plan : Plan) (classification : RiskClassification)
    (valid : validate_risk_declarations plan classification ≡ ok tt) where
  declarations_nil :
      (classification.unclassified_paths ≡ [])
      × (difference classification.detected_risks plan.declared_risks ≡ [])
  unfolding validate_risk_declarations
  declarations_nil = ground arith

  -- When `validate_risk_declarations` passes, each risk that the classification detected is among
  -- those that the plan declares.
  pub detected-declared :
      (risk : Text)
      → contains classification.detected_risks risk ≡ true
      → contains plan.declared_risks risk ≡ true
  unfolding difference
  detected-declared risk m = ground (
    arith,
    sorted-nil (keep (λ x. not (contains plan.declared_risks x)) classification.detected_risks) risk
        declarations_nil.1,
    contains-keep (λ x. not (contains plan.declared_risks x)) classification.detected_risks risk,
  )

-- The declaration that names a declared path.
declared-witness :
    (declarations paths : List Text) (path : Text)
    → declared_contract_paths declarations ≡ ok paths
    → contains paths path ≡ true
    → (d : Text) × (contains declarations d ≡ true) × (contract_change_path d ≡ ok path)
unfolding contains declared_contract_paths
declared-witness [] paths path h m = absurd (ground arith)
declared-witness (d ∷ ds) paths path h m =
    let (p, hp, rest) = >>=-eq-ok (contract_change_path d) _ h in
    let (ps, hps, e) = >>=-eq-ok (declared_contract_paths ds) _ rest in
    elim (Bool-cases (path == p)) [
      | inl here ↦ (d, ground arith, ground arith)
      | inr there ↦
          let w = declared-witness ds ps path hps (ground arith) in (w.0, ground (arith, w.1), w.2)
    ]

module _ (changed : List Text) (plan : Plan) (policy : RiskPolicy)
    (valid : validate_contract_changes changed plan policy ≡ ok tt) where
  -- When `validate_contract_changes` passes, each changed protected path other than the plan is
  -- named by a declaration of the plan, exactly.
  pub protected-declared :
      (path : Text)
      → contains changed path ≡ true
      → path ≢ plan.relative_path
      → any_matches policy.protected_patterns path ≡ true
      → (d : Text) × (contains plan.contract_changes d ≡ true) × (contract_change_path d ≡ ok path)
  unfolding validate_contract_changes
  protected-declared path m n p =
      let (declared, hd, rest) =
        >>=-eq-ok (declared_contract_paths plan.contract_changes) _ valid in
      let undeclared = keep (is_undeclared plan policy declared) changed in
      declared-witness plan.contract_changes declared path hd (
        ground (
          arith,
          sorted-nil undeclared path (nil-of_test _ (reject_if-eq-ok _ _ rest)),
          contains-keep (is_undeclared plan policy declared) changed path,
        ))
