-- ===== src/EbeeControl/Trainer/Outcome.antt =====
-- `validateOutcomeData`: the first thing that is wrong with an outcome, none for nil.
use titanops.Common.{
  String, Bool, not, ◌||◌, Option, none, some, length, ◌==◌, if◌then◌else◌, str_eq,
}
use titanops.Common.Int.{pos, ltb_ℤ}
use titanops.Common.Text.{Strings, ◌+◌ as ◌&◌}
use titanops.EbeeControl.Types.{AccessEvent, OutcomeData}

abbrev pub is_access_type : String → Bool
is_access_type s = str_eq s "open" || (str_eq s "read" || (str_eq s "write" || str_eq s "stat"))

abbrev pub is_honeytoken_type : String → Bool
is_honeytoken_type s =
    str_eq s "decoy_secret" || (str_eq s "decoy_file" || str_eq s "decoy_credential")

abbrev pub missing : String → String
missing field = "outcome data missing required field: " & field

module _ (strings : Strings) where
  abbrev pub is_blank : String → Bool
  is_blank s = str_eq (strings.trim_space s) ""

  -- The part of the checks that looks at the event.
  unfoldable pub validate_access_event : AccessEvent → Option String
  validate_access_event event =
      if is_blank event.event_id
      then some (missing "accessEvent.eventId")
      else if ltb_ℤ event.process_id (pos 0)
      then some (missing "accessEvent.processId")
      else if is_blank event.process_binary_path
      then some (missing "accessEvent.processBinaryPath")
      else if ltb_ℤ event.user_id (pos 0)
      then some (missing "accessEvent.userId")
      else if is_blank event.pod_id
      then some (missing "accessEvent.podId")
      else if is_blank event.namespace
      then some (missing "accessEvent.namespace")
      else if is_blank event.honeytoken_path
      then some (missing "accessEvent.honeytokenPath")
      else if not (is_access_type event.access_type)
      then some (missing "accessEvent.accessType")
      else if event.timestamp == 0
      then some (missing "accessEvent.timestamp")
      else none

  unfoldable pub validate_outcome_data : OutcomeData → Option String
  validate_outcome_data outcome =
      if is_blank outcome.incident_id
      then some (missing "incidentId")
      else elim (validate_access_event outcome.access_event) [
        | some err ↦ some err
        | none ↦
            if not (is_honeytoken_type outcome.honeytoken_type)
            then some (missing "honeytokenType")
            else if is_blank outcome.placement_location
            then some (missing "placementLocation")
            else if length outcome.actions_taken == 0
            then some (missing "actionsTaken (must have at least one)")
            else if ltb_ℤ outcome.effectiveness.detection_to_response_latency (pos 0)
            then some (missing "effectiveness.detectionToResponseLatency")
            else if outcome.timestamp == 0
            then some (missing "timestamp")
            else none
      ]
