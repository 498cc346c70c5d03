-- ===== src/Correlation/Engine/Correlate.antt =====
-- `Correlate`, with the auto-action, the alert on its failure and the export of an incident.
use titanops.Common.{
  ℕ, String, true, false, Option, none, some, List, [], ◌∷◌, ◌++◌, length, ltb, if◌then◌else◌,
}
use titanops.Common.Int.{ℤ, pos, ltb_ℤ}
use titanops.Export.Event.{Event}
use titanops.Common.Text
use titanops.Correlation.Scoring.{calculate_confidence}
use titanops.Correlation.Narrative.{generate_narrative}
use titanops.Correlation.Engine.Types.{
  AutoActionConfig, EngineConfig, AutoAction, CorrelatedIncident, Effect, id_drawn, executed,
  exported, Services, Engine,
}
use titanops.Correlation.Engine.Ingest.{prune_events}
use titanops.Correlation.Engine.Grouping.{EventGroup, group_events, distinct_modules}

-- The first enabled action.
unfoldable pub recommend : List AutoActionConfig → Option AutoAction
recommend [] = none
recommend (ac ∷ acs) =
    if ac.enabled
    then some (record { type_name = ac.type_name; parameters = ac.parameters })
    else recommend acs

-- The event that `emitIncident` exports; the zone of `UTC()` is "UTC".
unfoldable pub incident_event : CorrelatedIncident → Event
incident_event inc = record {
  namespace = "titanops-system";
  timestamp = inc.detected_at;
  zone = "UTC";
  severity = "high";
  module_name = "correlation";
  event_type = "correlated_incident";
  payload = Text.codes inc.narrative;
  node = "";
  pod = "";
  event_id = inc.incident_id;
  labels = none;
}

-- `%q` of the action type stands between quotes; the message goes into the payload.
unfoldable pub failure_event : ℕ → AutoAction → CorrelatedIncident → String → Event
failure_event now action inc err = record {
  namespace = "titanops-system";
  timestamp = now;
  zone = "UTC";
  severity = "critical";
  module_name = "correlation";
  event_type = "action_failure";
  payload = Text.codes (
      Text.◌+◌ "Auto-action \"" (
        Text.◌+◌ action.type_name
          (Text.◌+◌ "\" failed for incident " (Text.◌+◌ inc.incident_id (Text.◌+◌ ": " err)))));
  node = "";
  pod = "";
  event_id = Text.◌+◌ "alert-" inc.incident_id;
  labels = none;
}

module _ (s : Services) where
  -- `e.exporter.Export`, if there is an exporter; its results are not read.
  unfoldable pub export_event : Event → List Effect → List Effect
  export_event ev trace = if s.has_exporter then exported ev ∷ trace else trace

  -- The incident after the call of the executor, and the alert on its failure.
  unfoldable pub after_action :
      AutoAction
      → CorrelatedIncident
      → List Effect
      → Option String
      → CorrelatedIncident × List Effect
  after_action action inc trace none = (record inc { action_executed = true }, trace)
  after_action action inc trace (some err) =
      let failed = record inc { action_error = err } in
      (failed, export_event (failure_event (s.clock trace) action failed err) trace)

  -- `if score >= threshold && action != nil && e.actions != nil`, with the executor first.
  unfoldable pub act_with :
      Option (List Effect → AutoAction → CorrelatedIncident → Option String)
      → ℤ
      → AutoAction
      → CorrelatedIncident
      → List Effect
      → CorrelatedIncident × List Effect
  act_with none threshold action inc trace = (inc, trace)
  act_with (some execute) threshold action inc trace =
      if ltb_ℤ (pos inc.confidence_score) threshold
      then (inc, trace)
      else after_action action inc (executed action inc ∷ trace) (execute trace action inc)

  unfoldable pub act :
      ℤ → Option AutoAction → CorrelatedIncident → List Effect → CorrelatedIncident × List Effect
  act threshold none inc trace = (inc, trace)
  act threshold (some action) inc trace = act_with s.actions threshold action inc trace

  -- The body of the loop for a group with two modules.
  unfoldable pub make_incident :
      EngineConfig → ℕ → EventGroup → List Effect → CorrelatedIncident × List Effect
  make_incident cfg now g trace =
      let score = calculate_confidence g.events g.matched_attributes in
      let action = recommend cfg.auto_actions in
      let (inc, trace') =
        act cfg.confidence_threshold action
          (record {
            incident_id = s.id_gen trace;
            contributing_events = g.events;
            confidence_score = score;
            narrative = generate_narrative s.formatting g.events g.matched_attributes score;
            matched_attributes = g.matched_attributes;
            detected_at = now;
            recommended_action = action;
            action_executed = false;
            action_error = "";
          })
          (id_drawn ∷ trace) in
      (inc, export_event (incident_event inc) trace')

  -- The loop of `Correlate`: the new incidents, and the trace behind them.
  unfoldable pub correlate_groups :
      EngineConfig → ℕ → List EventGroup → List Effect → List CorrelatedIncident × List Effect
  correlate_groups cfg now [] trace = ([], trace)
  correlate_groups cfg now (g ∷ gs) trace =
      let skip = correlate_groups cfg now gs trace in
      let (inc, trace') = make_incident cfg now g trace in
      let (incs, trace'') = correlate_groups cfg now gs trace' in
      if ltb (length (distinct_modules g)) 2 then skip else (inc ∷ incs, trace'')

  -- `order` is the order in which Go walks the map of the groups.
  unfoldable pub correlate :
      (List EventGroup → List EventGroup)
      → Engine
      → Option String
      → ℕ
      → Engine × List CorrelatedIncident × Option String
  correlate order e (some err) now = (e, [], some err)
  correlate order e none now =
      let pruned = prune_events e now in
      let (incs, trace) = correlate_groups e.config now (order (group_events pruned)) e.trace in
      (record pruned { incidents = e.incidents ++ incs; trace = trace }, incs, none)
