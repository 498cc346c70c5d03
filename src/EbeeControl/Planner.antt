-- ===== src/EbeeControl/Planner.antt =====
-- `GenerateResponsePlan` (modules/ebeecontrol/planner.go).
use titanops.Common.{ℕ, String, List, [], ◌∷◌, ◌++◌}
use titanops.EbeeControl.Types.{
  ThreatClassification, low, medium, ActionType, pod_isolation, ip_block, additional_honeytokens,
  ThreatAssessment,
}

pub record PlannedAction : Type 0 where
  pub action_type : ActionType
  pub target : String
  pub priority : ℕ

pub record ResponsePlan : Type 0 where
  pub assessment_id : String
  pub classification : ThreatClassification
  pub namespace : String
  pub pod_id : String
  pub actions : List PlannedAction

-- The isolation and the block of high and critical threats.
abbrev pub containment : ThreatClassification → String → List PlannedAction
containment low pod_id = []
containment medium pod_id = []
containment _ pod_id =
    record { action_type = pod_isolation; target = pod_id; priority = 1 }
    ∷ record { action_type = ip_block; target = pod_id; priority = 2 }
    ∷ []

abbrev pub honeytoken_priority : ThreatClassification → ℕ
honeytoken_priority medium = 1
honeytoken_priority _ = 3

unfoldable pub build_actions : ThreatClassification → String → String → List PlannedAction
build_actions low namespace pod_id = []
build_actions c namespace pod_id =
    containment c pod_id
    ++ record {
      action_type = additional_honeytokens;
      target = namespace;
      priority = honeytoken_priority c;
    }
      ∷ []

unfoldable pub generate_response_plan :
    {F : Type 0} → ThreatAssessment F → String → String → ResponsePlan
generate_response_plan assessment namespace pod_id = record {
  assessment_id = assessment.assessment_id;
  classification = assessment.classification;
  namespace = namespace;
  pod_id = pod_id;
  actions = build_actions assessment.classification namespace pod_id;
}
