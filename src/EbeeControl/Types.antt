-- ===== src/EbeeControl/Types.antt =====
-- The data of modules/ebeecontrol/types.go. A classification that only the module itself makes is a data
-- type; one that comes from outside is the text that it is in Go.
use titanops.Common.{ℕ, String, Bool, Option, List}
use titanops.Common.Int.{ℤ}

pub data ThreatClassification : Type 0 where
  low : ThreatClassification
  medium : ThreatClassification
  high : ThreatClassification
  critical : ThreatClassification

pub data HoneytokenStatus : Type 0 where
  active : HoneytokenStatus
  triggered : HoneytokenStatus
  decommissioned : HoneytokenStatus

pub data ActionType : Type 0 where
  pod_isolation : ActionType
  ip_block : ActionType
  additional_honeytokens : ActionType
  alert : ActionType

pub data ActionResult : Type 0 where
  success : ActionResult
  failure : ActionResult

pub data DecisionType : Type 0 where
  discovery : DecisionType
  deployment : DecisionType
  assessment : DecisionType
  response : DecisionType
  learning : DecisionType
  model_update : DecisionType

pub record AccessEvent : Type 0 where
  pub event_id : String
  pub process_id : ℤ
  pub process_binary_path : String
  pub user_id : ℤ
  pub pod_id : String
  pub namespace : String
  pub honeytoken_path : String
  pub access_type : String
  pub timestamp : ℕ

pub record PodContext (F : Type 0) : Type 0 where
  pub namespace : String
  pub namespace_classification : String
  pub service_criticality : ℤ
  pub davis_anomaly_score : F
  pub anomaly_window_minutes : ℤ

pub record ThreatInputs (F : Type 0) : Type 0 where
  pub namespace_classification : String
  pub service_criticality : ℤ
  pub davis_anomaly_score : F

pub record ThreatAssessment (F : Type 0) : Type 0 where
  pub assessment_id : String
  pub access_event_id : String
  pub classification : ThreatClassification
  pub inputs : ThreatInputs F
  pub assessment_time : ℕ
  pub assessment_latency : ℤ

pub record HoneytokenRegistryEntry : Type 0 where
  pub honeytoken_id : String
  pub pod_id : String
  pub namespace : String
  pub type_name : String
  pub file_path : String
  pub deployment_timestamp : ℕ
  pub status : HoneytokenStatus
  pub last_access_timestamp : Option ℕ
  pub access_count : ℕ

pub record ResponseAction : Type 0 where
  pub action_id : String
  pub action_type : ActionType
  pub target : String
  pub timestamp : ℕ
  pub threat_classification : ThreatClassification
  pub result : ActionResult
  pub retry_count : ℤ

pub record AuditLogEntry : Type 0 where
  pub entry_id : String
  pub timestamp : ℕ
  pub decision_type : DecisionType
  pub decision_rationale : String
  pub input_data_summary : String
  pub outcome : String
  pub retention_days : ℤ

pub record HoneytokenSpec : Type 0 where
  pub type_name : String
  pub name : String
  pub placement : String
  pub content : String

pub record DeploymentRequest : Type 0 where
  pub pod_id : String
  pub namespace : String
  pub honeytokens : List HoneytokenSpec

pub record DeployedHoneytoken : Type 0 where
  pub honeytoken_id : String
  pub pod_id : String
  pub namespace : String
  pub type_name : String
  pub file_path : String
  pub deployment_timestamp : ℕ

pub record DeploymentError : Type 0 where
  pub pod_id : String
  pub failure_reason : String
  pub remediation_actions : List String

pub record Effectiveness : Type 0 where
  pub detection_to_response_latency : ℤ
  pub threat_contained : Bool
  pub false_positive : Bool

pub record OutcomeData : Type 0 where
  pub incident_id : String
  pub access_event : AccessEvent
  pub honeytoken_type : String
  pub placement_location : String
  pub actions_taken : List ResponseAction
  pub effectiveness : Effectiveness
  pub timestamp : ℕ
