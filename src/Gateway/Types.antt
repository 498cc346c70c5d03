-- ===== src/Gateway/Types.antt =====
-- The records of gateway/types.go.
use titanops.Common.{ℕ, String, List}
use titanops.Common.Int.{ℤ}

pub record ModuleHealth : Type 0 where
  pub module_name : String
  pub status : String
  pub since : ℕ

pub record ReasoningChain : Type 0 where
  pub observation : String
  pub analysis : String
  pub action : String
  pub alternatives : List String

pub record AutonomousAction (F : Type 0) : Type 0 where
  pub id : String
  pub module_name : String
  pub action_type : String
  pub confidence : F
  pub reasoning : ReasoningChain
  pub outcome : String
  pub timestamp : ℕ
  pub override_by : String

pub record AuditEntry (F : Type 0) : Type 0 where
  pub timestamp : ℕ
  pub module_name : String
  pub action_type : String
  pub trigger_event : String
  pub confidence : F
  pub reasoning : String
  pub outcome : String
  pub operator_id : String

pub record AuditFilter : Type 0 where
  pub since : ℕ
  pub module_name : String
  pub action_type : String

pub record OverrideRequest : Type 0 where
  pub action_id : String
  pub module_id : String
  pub operation : String
  pub operator_id : String

pub record DeploymentRiskEntry : Type 0 where
  pub service : String
  pub commit_sha : String
  pub deployer : String
  pub risk_score : ℤ
  pub risk_factors : List String
  pub timestamp : String
