-- ===== src/EbeeControl/Agent/Learning.antt =====
-- What the trainer learns of an access event.
use titanops.Common.{
  ◌+◌, ◌<◌, ◌≡◌, ◌≢◌, refl, ap, ◌∙◌, String, true, false, none, some, List, [], ◌∷◌, ◌++◌, map,
  length, length-map, arith,
}
use titanops.Common.Int.{pos, ltb_ℤ}
use titanops.Common.Text.{Strings, ◌+◌ as ◌&◌}
use titanops.EbeeControl.Types.{
  ThreatClassification, low, medium, high, critical, AccessEvent, AuditLogEntry, OutcomeData,
  ThreatAssessment, ResponseAction,
}
use titanops.EbeeControl.Planner.{PlannedAction, build_actions, generate_response_plan}
use titanops.EbeeControl.Executor.{
  ResponseExecutionResult, execute_actions, execute_response, none_failed,
}
use titanops.EbeeControl.Executor.Response.{
  IsAscending, expected, kind_and_target, execute_response-expected,
}
use titanops.EbeeControl.Trainer.{
  Trainer, ingest_outcome_data, is_blank, is_honeytoken_type, validate_access_event,
  validate_outcome_data,
}
use titanops.EbeeControl.Agent.Registry.{Entries, AuditLog, mark_triggered, log}
use titanops.EbeeControl.Agent.Workflow.{
  AgentDeps, Moment, Agent, assess, honeytoken_type, outcome_of, audit_entry, bool_text,
  process_access_event,
}

-- An outcome without actions is never taken.
validate_no_actions :
    (strings : Strings) (outcome : OutcomeData)
    → outcome.actions_taken ≡ []
    → validate_outcome_data strings outcome ≢ none
unfolding validate_outcome_data
validate_no_actions strings outcome e = ground arith

-- An event that is in order has a path.
path_of_valid :
    (strings : Strings) (event : AccessEvent)
    → validate_access_event strings event ≡ none
    → is_blank strings event.honeytoken_path ≡ false
unfolding validate_access_event
path_of_valid strings event valid = ground arith

valid_of_parts :
    (strings : Strings) (o : OutcomeData)
    → is_blank strings o.incident_id ≡ false
    → validate_access_event strings o.access_event ≡ none
    → is_honeytoken_type o.honeytoken_type ≡ true
    → is_blank strings o.placement_location ≡ false
    → 0 < length o.actions_taken
    → ltb_ℤ o.effectiveness.detection_to_response_latency (pos 0) ≡ false
    → 0 < o.timestamp
    → validate_outcome_data strings o ≡ none
unfolding validate_outcome_data
valid_of_parts strings o incident event type_name place some_action latency instant =
    rw (incident, event, type_name, place, latency, validate_outcome_data) (ground arith)

expected-length :
    (c : ThreatClassification) (namespace pod_id : String)
    → c ≢ low
    → 0 < length (expected c namespace pod_id)
expected-length low namespace pod_id h = absurd (h refl)
expected-length medium namespace pod_id h = omega arith
expected-length high namespace pod_id h = omega arith
expected-length critical namespace pod_id h = omega arith

module _ {F : Type 0} (deps : AgentDeps F) (at : Moment) (event : AccessEvent) (a : Agent F) where
  abbrev pub assessment : ThreatAssessment F
  assessment = assess deps at event (deps.get_pod_context event.pod_id event.namespace)

  abbrev pub registry : Entries
  registry = mark_triggered deps.order event.pod_id event.honeytoken_path event.timestamp a.registry

  abbrev pub result : ResponseExecutionResult
  result =
      (execute_response deps.executor deps.sort
        (generate_response_plan assessment event.namespace event.pod_id) assessment.classification
        a.config a.calls).0

  abbrev pub outcome : OutcomeData
  outcome = outcome_of deps at event result registry

  process_fields :
      (a' : Agent F)
      → process_access_event deps at event a ≡ some a'
      → (a'.trainer
          ≡ (ingest_outcome_data deps.floats deps.print deps.strings at.now outcome a.trainer).1)
        × (a'.audit_log
            ≡ log (audit_entry deps at event assessment result a.audit_retention_days) a.audit_log)
        × (a'.registry ≡ registry)
  unfolding process_access_event
  process_fields a' run = ground arith

  low_result :
      assessment.classification ≡ low
      → deps.sort [] ≡ []
      → (result.actions ≡ []) × (result.all_succeeded ≡ true)
  unfolding execute_response generate_response_plan build_actions execute_actions none_failed
  low_result is sorted =
      let plan = generate_response_plan assessment event.namespace event.pod_id in
      let run : List PlannedAction → List ResponseAction = λ actions.
        (execute_actions deps.executor actions plan assessment.classification a.config []
          a.calls).0 in
      let none_planned : deps.sort plan.actions ≡ [] =
        ap (λ c. deps.sort (build_actions c event.namespace event.pod_id)) is ∙ sorted in
      (ap run none_planned, ap (λ actions. none_failed (run actions)) none_planned)

  log_fields :
      (entry : AuditLogEntry) (al : AuditLog)
      → (kept : AuditLogEntry) × ((log entry al).entries ≡ al.entries ++ kept ∷ [])
        × (kept.outcome ≡ entry.outcome)
  unfolding log
  log_fields entry al = (_, refl, ground arith)

  rejected_unchanged :
      (o : OutcomeData) (t : Trainer F)
      → validate_outcome_data deps.strings o ≢ none
      → (ingest_outcome_data deps.floats deps.print deps.strings at.now o t).1 ≡ t
  unfolding ingest_outcome_data
  rejected_unchanged o t bad = ground (arith, bad)

  -- When sort.Slice leaves the empty slice as it is, an access event that is classified low changes nothing
  -- of the trainer, since its outcome has no actions and is refused; the audit log has one more
  -- entry, whose outcome says that all succeeded and was ingested.
  pub low_not_learned :
      (a' : Agent F)
      → deps.sort [] ≡ []
      → assessment.classification ≡ low
      → process_access_event deps at event a ≡ some a'
      → (a'.trainer ≡ a.trainer)
        × (entry : AuditLogEntry) × (a'.audit_log.entries ≡ a.audit_log.entries ++ entry ∷ [])
        × (entry.outcome ≡ "Response: true. Learning: ingested.")
  unfolding outcome_of audit_entry
  low_not_learned a' sorted is run =
      let (trainer, audit, marked) = process_fields a' run in
      let (empty, all) = low_result is sorted in
      let (entry, entries, says) =
        log_fields (audit_entry deps at event assessment result a.audit_retention_days)
          a.audit_log in
      (
        trainer
            ∙ rejected_unchanged outcome a.trainer (validate_no_actions deps.strings outcome empty),
        entry,
        ap (λ (al : AuditLog). al.entries) audit ∙ entries,
        says ∙ ap (λ ok. "Response: " & bool_text ok & ". Learning: ingested.") all,
      )

  actions-length :
      ((actions : List PlannedAction) → IsAscending 0 actions → deps.sort actions ≡ actions)
      → assessment.classification ≢ low
      → (map kind_and_target result.actions
          ≡ expected assessment.classification event.namespace event.pod_id)
        × (0 < length result.actions)
  unfolding generate_response_plan
  actions-length sorted not_low =
      let kinds =
        execute_response-expected deps.sort assessment.classification
          (generate_response_plan assessment event.namespace event.pod_id) deps.executor a.config
          a.calls sorted refl in
      (
        kinds,
        rw⁻¹ (length-map kind_and_target result.actions) (
            rw kinds
              (expected-length assessment.classification event.namespace event.pod_id not_low)),
      )

  -- What the workflow itself adds to an event has to be in order too.
  pub record IsComplete : Type 0 where
    pub incident : is_blank deps.strings at.incident_id ≡ false
    pub known_type : is_honeytoken_type (honeytoken_type deps event registry) ≡ true
    pub latency : ltb_ℤ at.response_latency (pos 0) ≡ false
    pub instant : 0 < at.now

  valid_outcome :
      validate_access_event deps.strings event ≡ none
      → IsComplete
      → 0 < length result.actions
      → validate_outcome_data deps.strings outcome ≡ none
  unfolding outcome_of
  valid_outcome valid c some_action =
      valid_of_parts deps.strings outcome c.incident valid c.known_type
        (path_of_valid deps.strings event valid) some_action c.latency c.instant

  ingested :
      (o : OutcomeData) (t : Trainer F)
      → validate_outcome_data deps.strings o ≡ none
      → let t' = (ingest_outcome_data deps.floats deps.print deps.strings at.now o t).1 in
        (t'.outcome_dataset ≡ t.outcome_dataset ++ o ∷ [])
        × (t'.dataset_since_last_training ≡ t.dataset_since_last_training + 1)
  unfolding ingest_outcome_data
  ingested o t valid = ground (arith, valid)

  -- When the sort leaves strictly ascending slices as they are, the event has every field in order and the
  -- workflow's own values are complete, the outcome of an event that is not low is appended to the
  -- trainer's dataset and counted towards the next training, and its actions are those that the
  -- classification calls for, on their targets and in their order.
  pub threat_learned :
      (a' : Agent F)
      → ((actions : List PlannedAction) → IsAscending 0 actions → deps.sort actions ≡ actions)
      → assessment.classification ≢ low
      → validate_access_event deps.strings event ≡ none
      → IsComplete
      → process_access_event deps at event a ≡ some a'
      → (a'.trainer.outcome_dataset ≡ a.trainer.outcome_dataset ++ outcome ∷ [])
        × (a'.trainer.dataset_since_last_training ≡ a.trainer.dataset_since_last_training + 1)
        × (map kind_and_target outcome.actions_taken
            ≡ expected assessment.classification event.namespace event.pod_id)
  unfolding outcome_of
  threat_learned a' sorted not_low valid c run =
      let (trainer, audit, marked) = process_fields a' run in
      let (kinds, some_action) = actions-length sorted not_low in
      let (dataset, since) = ingested outcome a.trainer (valid_outcome valid c some_action) in
      (
        ap (λ (t : Trainer F). t.outcome_dataset) trainer ∙ dataset,
        ap (λ (t : Trainer F). t.dataset_since_last_training) trainer ∙ since,
        kinds,
      )
