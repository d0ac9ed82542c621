-- ===== src/Gate.antt =====
-- scripts/agent-harness.py: the pure checks of the changed paths against the plan and the policy.
pub mod Scope
pub mod Classify
pub mod Contract
pub mod Differences
use coffee_order_system.Prelude.{
  Bool, false, not, ◌&&◌, ◌||◌, List, [], ◌∷◌, ◌++◌, ◌==◌, text_eq, texts_eq, if◌then◌else◌,
  contains, Text, txt, any, keep, sorted_set,
}
use coffee_order_system.Outcome.{
  Result, ok, values, violation_of, reject_if, replan_required, ◌>>=◌, ◌>>◌,
}
use coffee_order_system.Paths.{path_matches, contract_change_path}
use coffee_order_system.Model.{Plan, RiskRule, RiskPolicy, RiskClassification}

-- `any(path_matches(pattern, path) for pattern in patterns)`
unfoldable pub any_matches : List Text → Text → Bool
any_matches patterns path = any (λ pattern. path_matches pattern path) patterns

unfoldable pub is_outside : Plan → Text → Bool
unfolding any_matches
is_outside plan path = not (path == plan.relative_path) && not (any_matches plan.allowed_paths path)

unfoldable pub scope_violations : List Text → Plan → List Text
unfolding is_outside
scope_violations changed_paths plan = sorted_set (keep (is_outside plan) changed_paths)

-- The loop over the rules for one path: `matched`, and `detected_risks` so far.
unfoldable pub match_rules : Text → List RiskRule → Bool → List Text → Bool × List Text
unfolding any_matches
match_rules path [] matched detected = (matched, detected)
match_rules path (rule ∷ rules) matched detected =
    let hit = any_matches rule.patterns path in
    match_rules path rules (matched || hit) (if hit then detected ++ rule.risks else detected)

-- The loop over the sorted paths.
unfoldable pub classify_paths :
    List Text → RiskPolicy → Text → List Text → List Text → RiskClassification
unfolding match_rules
classify_paths [] policy plan_path detected unclassified = record {
  detected_risks = sorted_set detected;
  unclassified_paths = unclassified;
}
classify_paths (path ∷ paths) policy plan_path detected unclassified =
    let (matched, detected') = match_rules path policy.rules false detected in
    classify_paths paths policy plan_path (if path == plan_path then detected else detected')
      (if path == plan_path || matched then unclassified else unclassified ++ (path ∷ []))

unfoldable pub classify_risks : List Text → RiskPolicy → Text → RiskClassification
unfolding classify_paths
classify_risks changed_paths policy plan_path =
    classify_paths (sorted_set changed_paths) policy plan_path [] []

-- `sorted(set(xs) - set(ys))`
unfoldable pub difference : List Text → List Text → List Text
difference xs ys = sorted_set (keep (λ x. not (contains ys x)) xs)

unfoldable pub validate_risk_declarations : Plan → RiskClassification → Result (Unit {0})
unfolding difference
validate_risk_declarations plan classification = do
  reject_if (not (classification.unclassified_paths == [])) (
      violation_of replan_required (txt "risk.classification")
        (values (txt "unclassified paths") classification.unclassified_paths))
  let undeclared = difference classification.detected_risks plan.declared_risks
  reject_if (not (undeclared == [])) (
      violation_of replan_required (txt "risk.declaration")
        (values (txt "undeclared risks") undeclared))

-- `{contract_change_path(declaration) for declaration in declarations}`
unfoldable pub declared_contract_paths : List Text → Result (List Text)
declared_contract_paths [] = ok []
declared_contract_paths (declaration ∷ declarations) = do
  path ← contract_change_path declaration
  paths ← declared_contract_paths declarations
  ok (path ∷ paths)

unfoldable pub is_undeclared : Plan → RiskPolicy → List Text → Text → Bool
unfolding any_matches
is_undeclared plan policy declared path =
    not (path == plan.relative_path)
    && any_matches policy.protected_patterns path
    && not (contains declared path)

unfoldable pub validate_contract_changes : List Text → Plan → RiskPolicy → Result (Unit {0})
unfolding declared_contract_paths is_undeclared
validate_contract_changes changed_paths plan policy = do
  declared ← declared_contract_paths plan.contract_changes
  let undeclared = sorted_set (keep (is_undeclared plan policy declared) changed_paths)
  reject_if (not (undeclared == [])) (
      violation_of replan_required (txt "trust-root.contract")
        (values (txt "undeclared contract changes") undeclared))
