-- ===== src/Witnesses.antt =====
-- Data for the runs of the model and for the examples of the theorems.
mod Rules
mod Files
mod Runs
mod Oracles
mod Policies
mod Checks
mod Evaluations
mod Preparations
mod Places
mod Publishing
mod Contracts
mod Documents
use coffee_order_system.Prelude.{List, [], ◌∷◌, Text, txt}
use coffee_order_system.Model.{Plan, RiskPolicy, GitContext}

abbrev order_pattern : Text
order_pattern = txt "src/order/**"

abbrev order_file : Text
order_file = txt "src/order/A.java"

abbrev some_hash : Text
some_hash = txt "0123456789abcdef0123456789abcdef0123456789abcdef0123456789abcdef"

abbrev some_sha : Text
some_sha = txt "0123456789abcdef0123456789abcdef01234567"

abbrev a_plan : Plan
a_plan = record {
  issue = 7;
  target_branch = txt "main";
  objective = txt "orders";
  allowed_paths = order_pattern ∷ [];
  acceptance_criteria = txt "passes" ∷ [];
  declared_risks = txt "transaction" ∷ [];
  contract_changes = txt "docs/api.md v2" ∷ [];
  non_goals = txt "payments" ∷ [];
  relative_path = txt "harness/plans/7.json";
  plan_hash = some_hash;
}

abbrev a_context : GitContext
a_context = record {
  branch = txt "feature/7-orders";
  target_branch = txt "main";
  base_tip_sha = some_sha;
  merge_base_sha = some_sha;
  candidate_head_sha = some_sha;
  tested_revision_sha = some_sha;
}

abbrev a_policy : RiskPolicy
a_policy = record {
  schema_version = 1;
  known_risks = txt "transaction" ∷ [];
  rules =
      record {
        rule_id = txt "orders";
        patterns = order_pattern ∷ [];
        risks = txt "transaction" ∷ [];
      }
      ∷ [];
  protected_patterns = txt "docs/api.md" ∷ [];
  risk_checks = (txt "transaction", txt "oracle.transaction" ∷ []) ∷ [];
}

abbrev a_change : List Text
a_change = order_file ∷ txt "docs/api.md" ∷ txt "README.md" ∷ []
