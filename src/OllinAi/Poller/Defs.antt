-- ===== src/OllinAi/Poller/Defs.antt =====
-- The events that the poller makes of what the API returns, and one poll. `serialize` is
-- `SerializePayload`, with whether it truncated, none for its error.
use titanops.Common.{ℕ, String, Bool, false, Option, none, some, List, [], ◌∷◌, if◌then◌else◌}
use titanops.Common.Int.{ℤ, pos, ltb_ℤ}
use titanops.Common.Dict.{insert}
use titanops.Export.Event.{Event}
use titanops.OllinAi.Emitter.{NatsPublisher, NatsEmitter, Published, emit}

pub record DeploymentRiskEntry : Type 0 where
  pub service : String
  pub commit_sha : String
  pub deployer : String
  pub risk_score : ℤ
  pub risk_factors : List String
  pub pipeline_id : String
  pub environment : String
  pub node : String
  pub pod : String
  pub namespace : String

pub record DeploymentRiskPayload : Type 0 where
  pub service : String
  pub commit_sha : String
  pub deployer : String
  pub risk_score : ℤ
  pub risk_factors : List String
  pub pipeline_id : String
  pub environment : String

unfoldable pub map_risk_to_severity : ℤ → String
map_risk_to_severity score =
    if ltb_ℤ (pos 79) score
    then "critical"
    else if ltb_ℤ (pos 59) score
    then "high"
    else if ltb_ℤ (pos 39) score
    then "medium"
    else "low"

-- The bytes and the flag, an empty object when the payload cannot be serialized.
abbrev pub bytes_or_empty : Option (List ℕ × Bool) → List ℕ × Bool
bytes_or_empty none = (123 ∷ 125 ∷ [], false)
bytes_or_empty (some r) = r

module _ (serialize : DeploymentRiskPayload → Option (List ℕ × Bool)) where
  unfoldable pub build_deployment_risk_event : DeploymentRiskEntry → Event
  build_deployment_risk_event entry =
      let (bytes, truncated) = bytes_or_empty (
        serialize (record {
          service = entry.service;
          commit_sha = entry.commit_sha;
          deployer = entry.deployer;
          risk_score = entry.risk_score;
          risk_factors = entry.risk_factors;
          pipeline_id = entry.pipeline_id;
          environment = entry.environment;
        })) in
      let labels =
        ("service", entry.service)
        ∷ ("commit_sha", entry.commit_sha)
        ∷ ("deployer", entry.deployer)
        ∷ ("pipeline_id", entry.pipeline_id)
        ∷ [] in
      record {
        namespace = entry.namespace;
        timestamp = 0;
        zone = "UTC";
        severity = map_risk_to_severity entry.risk_score;
        module_name = "ollinai";
        event_type = "deployment_risk";
        payload = bytes;
        node = entry.node;
        pod = entry.pod;
        event_id = "";
        labels = some (if truncated then insert "payload_truncated" "true" labels else labels);
      }

  unfoldable pub emit_each :
      NatsPublisher → List DeploymentRiskEntry → NatsEmitter → Published → NatsEmitter × Published
  emit_each p [] e trace = (e, trace)
  emit_each p (entry ∷ entries) e trace =
      let (ok, e', trace') = emit p (build_deployment_risk_event entry) e trace in
      emit_each p entries e' trace'

  -- What the poll adds: `fetched` is what the API returns, none for an error.
  unfoldable pub poll_deployment_risk :
      NatsPublisher
      → Option (List DeploymentRiskEntry)
      → NatsEmitter
      → Published
      → NatsEmitter × Published
  poll_deployment_risk p none e trace = (e, trace)
  poll_deployment_risk p (some entries) e trace = emit_each p entries e trace
