-- ===== src/EbeeControl/Agent/Workflow.antt =====
-- `processAccessEvent` and `emitWorkflowEvent`. What lies outside stands in the dependencies and, for one
-- event, in the moment: the new identifiers, the clock and the durations. none is a panic.
use titanops.Common.{
  ℕ, ◌+◌, ◌-◌, ◌/◌, String, Bool, true, false, Option, none, some, List, [], ◌∷◌, ◌++◌, length, ltb,
  ◌==◌, if◌then◌else◌,
}
use titanops.Common.Int.{ℤ, pos, negsuc}
use titanops.Common.Float.{Floats}
use titanops.Common.Text.{Strings, codes, first, ◌+◌ as ◌&◌}
use titanops.Export.Event.{Event}
use titanops.EbeeControl.Types.{
  ThreatClassification, low, medium, high, critical, response, AccessEvent, PodContext,
  ThreatAssessment, AuditLogEntry, OutcomeData,
}
use titanops.EbeeControl.Classifier.{production, classify_threat, classify_threat_with_defaults}
use titanops.EbeeControl.Planner.{PlannedAction, generate_response_plan}
use titanops.EbeeControl.Executor.{
  Call, ResponseExecutorDeps, ResponseConfig, ResponseExecutionResult, execute_response,
}
use titanops.EbeeControl.Trainer.{Print, Trainer, ingest_outcome_data}
use titanops.EbeeControl.Agent.Registry.{Entries, AuditLog, mark_triggered, find_by_path, log}

pub data Json : Type 0 where
  text : String → Json
  flag : Bool → Json
  number : ℤ → Json

pub record AgentDeps (F : Type 0) : Type 0 where
  pub floats : Floats F
  pub strings : Strings
  pub print : Print F
  pub order : Entries → Entries
  pub sort : List PlannedAction → List PlannedAction
  pub get_pod_context : String → String → Option (PodContext F)
  pub executor : ResponseExecutorDeps
  pub marshal : List (String × Json) → Option (List ℕ)

pub record Moment : Type 0 where
  pub assessment_id : String
  pub incident_id : String
  pub entry_id : String
  pub now : ℕ
  pub assessment_latency : ℤ
  pub response_latency : ℤ

pub record Agent (F : Type 0) : Type 0 where
  pub config : ResponseConfig
  pub audit_retention_days : ℤ
  pub registry : Entries
  pub audit_log : AuditLog
  pub trainer : Trainer F
  pub calls : List Call
  pub emitted : List Event

abbrev pub classification_text : ThreatClassification → String
classification_text low = "low"
classification_text medium = "medium"
classification_text high = "high"
classification_text critical = "critical"

abbrev pub bool_text : Bool → String
bool_text true = "true"
bool_text false = "false"

-- `d.Milliseconds()`
abbrev pub milliseconds : ℤ → ℤ
milliseconds (pos n) = pos (n / 1000000)
milliseconds (negsuc n) = let q = (n + 1) / 1000000 in if q == 0 then pos 0 else negsuc (q - 1)

-- `id[:8]`, for texts of one byte a character.
unfoldable pub event_key : String → Option String
event_key id = if ltb (length (codes id)) 8 then none else some ("ebc-" & first 8 id)

module _ {F : Type 0} (deps : AgentDeps F) where
  unfoldable pub assess : Moment → AccessEvent → Option (PodContext F) → ThreatAssessment F
  assess at event (some ctx) = record {
    assessment_id = at.assessment_id;
    access_event_id = event.event_id;
    classification = classify_threat deps.floats ctx;
    inputs = record {
      namespace_classification = ctx.namespace_classification;
      service_criticality = ctx.service_criticality;
      davis_anomaly_score = ctx.davis_anomaly_score;
    };
    assessment_time = at.now;
    assessment_latency = at.assessment_latency;
  }
  assess at event none = record {
    assessment_id = at.assessment_id;
    access_event_id = event.event_id;
    classification = classify_threat_with_defaults deps.floats "" (pos 0) (deps.floats.literal 0 1);
    inputs = record {
      namespace_classification = production;
      service_criticality = pos 5;
      davis_anomaly_score = deps.floats.literal 1 1;
    };
    assessment_time = at.now;
    assessment_latency = at.assessment_latency;
  }

  abbrev pub payload :
      AccessEvent → ThreatAssessment F → ResponseExecutionResult → List (String × Json)
  payload event assessment result =
      ("access_event_id", text event.event_id)
      ∷ ("pod_id", text event.pod_id)
      ∷ ("namespace", text event.namespace)
      ∷ ("honeytoken_path", text event.honeytoken_path)
      ∷ ("classification", text (classification_text assessment.classification))
      ∷ ("all_succeeded", flag result.all_succeeded)
      ∷ ("actions_count", number (pos (length result.actions)))
      ∷ ("latency_ms", number (milliseconds assessment.assessment_latency))
      ∷ []

  -- The events that the emitter has been given.
  unfoldable pub emit_workflow_event :
      ℕ
      → AccessEvent
      → ThreatAssessment F
      → ResponseExecutionResult
      → List Event
      → Option (List Event)
  emit_workflow_event now event assessment result emitted =
      elim (deps.marshal (payload event assessment result)) [
        | none ↦ some emitted
        | some bytes ↦ elim (event_key event.event_id) [
          | none ↦ none
          | some key ↦ some (
              emitted
              ++ record {
                namespace = event.namespace;
                timestamp = now;
                zone = "UTC";
                severity = classification_text assessment.classification;
                module_name = "ebeecontrol";
                event_type = "honeytoken_access_response";
                payload = bytes;
                node = "";
                pod = event.pod_id;
                event_id = key;
                labels = some (
                    ("classification", classification_text assessment.classification)
                    ∷ ("all_succeeded", bool_text result.all_succeeded)
                    ∷ ("pod_id", event.pod_id)
                    ∷ ("namespace", event.namespace)
                    ∷ []);
              }
                ∷ [])
        ]
      ]

  -- The type of the honeytoken that was accessed, a file when it is unknown.
  unfoldable pub honeytoken_type : AccessEvent → Entries → String
  honeytoken_type event registry =
      elim (find_by_path deps.order event.pod_id event.honeytoken_path registry) [
        | none ↦ "decoy_file"
        | some entry ↦ entry.type_name
      ]

  unfoldable pub outcome_of : Moment → AccessEvent → ResponseExecutionResult → Entries → OutcomeData
  outcome_of at event result registry = record {
    incident_id = at.incident_id;
    access_event = event;
    honeytoken_type = honeytoken_type event registry;
    placement_location = event.honeytoken_path;
    actions_taken = result.actions;
    effectiveness = record {
      detection_to_response_latency = at.response_latency;
      threat_contained = result.all_succeeded;
      false_positive = false;
    };
    timestamp = at.now;
  }

  unfoldable pub audit_entry :
      Moment → AccessEvent → ThreatAssessment F → ResponseExecutionResult → ℤ → AuditLogEntry
  audit_entry at event assessment result retention_days =
      let classification = classification_text assessment.classification in
      record {
        entry_id = at.entry_id;
        timestamp = at.now;
        decision_type = response;
        decision_rationale =
            "Full workflow completed for event " & event.event_id & ": " & classification
            & " threat";
        input_data_summary =
            "eventId=" & event.event_id & " podId=" & event.pod_id & " namespace=" & event.namespace
            & " classification=" & classification;
        outcome = "Response: " & bool_text result.all_succeeded & ". Learning: ingested.";
        retention_days = retention_days;
      }

  unfoldable pub process_access_event : Moment → AccessEvent → Agent F → Option (Agent F)
  process_access_event at event a =
      let assessment = assess at event (deps.get_pod_context event.pod_id event.namespace) in
      let registry =
        mark_triggered deps.order event.pod_id event.honeytoken_path event.timestamp a.registry in
      let plan = generate_response_plan assessment event.namespace event.pod_id in
      let (result, calls) =
        execute_response deps.executor deps.sort plan assessment.classification a.config a.calls in
      let outcome = outcome_of at event result registry in
      let (ingested, trainer) =
        ingest_outcome_data deps.floats deps.print deps.strings at.now outcome a.trainer in
      elim (emit_workflow_event at.now event assessment result a.emitted) [
        | none ↦ none
        | some emitted ↦ some (record a {
          registry = registry;
          audit_log =
              log (audit_entry at event assessment result a.audit_retention_days) a.audit_log;
          trainer = trainer;
          calls = calls;
          emitted = emitted;
        })
      ]
