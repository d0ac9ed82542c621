-- ===== src/Witnesses/Rules.antt =====
-- The checks of patterns and of changed paths on small inputs.
use coffee_order_system.Prelude.{
  ◌≡◌, refl, ◌≢◌, ◌↔◌, true, not, ◌&&◌, [], ◌∷◌, arith, ◌==◌, nat_eq, text_eq, texts_eq, int_eq,
  bool_eq, contains, Text, txt, sorted_set, keep, strip, rstrip, is_control, any, all, split,
  has_part, starts_with, remove_suffix,
}
use coffee_order_system.Outcome.{ok, state_eq}
use coffee_order_system.Paths.{validate_repository_pattern, path_matches, contract_change_path}
use coffee_order_system.Paths.Safe.{validate_repository_pattern-IsSafe, IsSafe}
use coffee_order_system.Paths.Cover.{path_matches-Covers, Covers}
use coffee_order_system.Model.{RiskClassification}
use coffee_order_system.Prelude.{IsSorted}
use coffee_order_system.Gate.{
  scope_violations, any_matches, classify_risks, validate_risk_declarations,
  validate_contract_changes,
}
use coffee_order_system.Gate.Scope.{scope_violations_lem}
use coffee_order_system.Gate.Classify.{classify_risks_lem, is_classified, carries_risk}
use coffee_order_system.Gate.Contract.{detected-declared, protected-declared}
use coffee_order_system.Witnesses.{order_pattern, order_file, a_plan, a_policy, a_change}

order_pattern_valid : validate_repository_pattern order_pattern (txt "plan.schema") ≡ ok tt
unfolding validate_repository_pattern txt text_eq strip nat_eq starts_with contains has_part any
    is_control remove_suffix split
order_pattern_valid = refl

order_pattern_matches : path_matches order_pattern order_file ≡ true
unfolding path_matches txt remove_suffix text_eq rstrip nat_eq starts_with
order_pattern_matches = refl

path_matches-Covers_example :
    (path_matches order_pattern order_file ≡ true) ↔ Covers order_pattern order_file
path_matches-Covers_example =
    path_matches-Covers order_pattern order_file (txt "plan.schema") order_pattern_valid

validate_repository_pattern-IsSafe_example : IsSafe order_pattern
validate_repository_pattern-IsSafe_example =
    validate_repository_pattern-IsSafe order_pattern (txt "plan.schema") order_pattern_valid

scope_violations_run : scope_violations a_change a_plan ≡ txt "README.md" ∷ txt "docs/api.md" ∷ []
unfolding scope_violations txt sorted_set keep text_eq any path_matches remove_suffix rstrip nat_eq
    starts_with
scope_violations_run = refl

scope_violations_lem_example :
    IsSorted (scope_violations a_change a_plan)
    × ((path : Text)
        → contains (scope_violations a_change a_plan) path ≡ (
            contains a_change path
            && not (path == a_plan.relative_path)
            && not (any_matches a_plan.allowed_paths path)))
scope_violations_lem_example = scope_violations_lem a_change a_plan

classify_risks_lem_example :
    let found = classify_risks a_change a_policy (txt "harness/plans/7.json") in
    ((path : Text)
      → contains found.unclassified_paths path ≡ (
          contains a_change path
          && not (path == txt "harness/plans/7.json")
          && not (is_classified a_policy.rules path)))
    × ((risk : Text)
        → contains found.detected_risks risk
          ≡ any
              (λ path.
                not (path == txt "harness/plans/7.json") && carries_risk a_policy.rules risk path)
              a_change)
classify_risks_lem_example = classify_risks_lem a_policy (txt "harness/plans/7.json") a_change

abbrev a_classification : RiskClassification
a_classification = record { detected_risks = txt "transaction" ∷ []; unclassified_paths = [] }

a_plan_declares : validate_risk_declarations a_plan a_classification ≡ ok tt
unfolding validate_risk_declarations txt texts_eq sorted_set keep contains text_eq
a_plan_declares = refl

is_detected : contains a_classification.detected_risks (txt "transaction") ≡ true
unfolding contains txt text_eq nat_eq
is_detected = refl

detected-declared_example : contains a_plan.declared_risks (txt "transaction") ≡ true
detected-declared_example =
    detected-declared a_plan a_classification a_plan_declares (txt "transaction") is_detected

a_plan_covers : validate_contract_changes a_change a_plan a_policy ≡ ok tt
unfolding validate_contract_changes txt contract_change_path nat_eq text_eq any contains all
    validate_repository_pattern strip starts_with has_part is_control remove_suffix split texts_eq
    sorted_set keep path_matches
a_plan_covers = refl

api_protected :
    (contains a_change (txt "docs/api.md") ≡ true)
    × (txt "docs/api.md" ≢ a_plan.relative_path)
    × (any_matches a_policy.protected_patterns (txt "docs/api.md") ≡ true)
unfolding contains any_matches txt text_eq any path_matches remove_suffix
api_protected = (refl, (λ e. ground (arith, e)), refl)

protected-declared_example :
    (d : Text) × (contains a_plan.contract_changes d ≡ true)
    × (contract_change_path d ≡ ok (txt "docs/api.md"))
protected-declared_example =
    protected-declared a_change a_plan a_policy a_plan_covers (txt "docs/api.md") api_protected.0
      api_protected.1 api_protected.2
