-- ===== src/Model.antt =====
-- scripts/agent-harness.py: the frozen dataclasses that the parts share.
use coffee_order_system.Prelude.{ℕ, List, Text}

pub record Plan : Type 0 where
  pub issue : ℕ
  pub target_branch : Text
  pub objective : Text
  pub allowed_paths : List Text
  pub acceptance_criteria : List Text
  pub declared_risks : List Text
  pub contract_changes : List Text
  pub non_goals : List Text
  pub relative_path : Text
  pub plan_hash : Text

pub record RiskRule : Type 0 where
  pub rule_id : Text
  pub patterns : List Text
  pub risks : List Text

-- `risk_checks` holds its entries in insertion order.
pub record RiskPolicy : Type 0 where
  pub schema_version : ℕ
  pub known_risks : List Text
  pub rules : List RiskRule
  pub protected_patterns : List Text
  pub risk_checks : List (Text × List Text)

pub record RiskClassification : Type 0 where
  pub detected_risks : List Text
  pub unclassified_paths : List Text

pub record GitContext : Type 0 where
  pub branch : Text
  pub target_branch : Text
  pub base_tip_sha : Text
  pub merge_base_sha : Text
  pub candidate_head_sha : Text
  pub tested_revision_sha : Text

pub record PlanLock : Type 0 where
  pub schema_version : ℕ
  pub issue : ℕ
  pub plan_path : Text
  pub plan_hash : Text
  pub target_branch : Text
  pub branch : Text
  pub base_tip_sha : Text
  pub merge_base_sha : Text
