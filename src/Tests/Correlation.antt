-- ===== src/Tests/Correlation.antt =====
-- The correlation engine's theorems at concrete inputs.
use titanops.Common.{
  eq_iff, ℕ, ◌*◌, ◌-◌, ◌≤◌, ◌≡◌, ◌⊎◌, ◌↔◌, ◌≢◌, refl, true, false, none, some, List, [], ◌∷◌, ◌++◌,
  map, length, select, arith, All,
}
use mathlib.Core.List.{Memᴰ, Perm}
use titanops.Common.Int.{pos}
use titanops.Common.Text.{codes}
use titanops.Export.Event.{Event}
use titanops.Correlation.Scoring.{second, event_time_span, latest_from, earliest_from}
use titanops.Correlation.Scoring.Span.{AllWithin, event_time_span-le_iff}
use titanops.Correlation.Scoring.Risk.{IsDigit}
use titanops.Correlation.Dedup.{DedupCache, new_dedup_cache, is_duplicate}
use titanops.Correlation.Dedup.Spacing.{admitted, Spaced, new_dedup_cache-Spaced}
use titanops.Correlation.Dedup.Coverage.{Repeats, admitted_covers}
use titanops.Correlation.Engine.{
  default_config, make_incident, EngineConfig, Engine, Services, CorrelatedIncident, TimedEvent,
  IncidentFilter, EventGroup, prune_events, ingest, in_window, add_events, group_events, correlate,
  get_incidents, id_drawn,
}
use titanops.Correlation.Engine.Window.{IsFresh, ingest_window}
use titanops.Correlation.Engine.Groups.{all_events, IsGroup, DistinctKeys, add_events_partition}
use titanops.Correlation.Engine.Actions.{IsGated, correlate-IsGated}
use titanops.Correlation.Engine.Acting.{Acted, make_incident-Acted}
use titanops.Correlation.Engine.Incidents.{Reports, correlate-Reports}
use titanops.Correlation.Engine.Filter.{IsAsked, get_incidents_iff}
use titanops.Tests.Data.{syscall, flow, deploy}

-- An executor that knows one action, an exporter, and a clock that counts the effects.
abbrev services : Services
services = record {
  formatting = record { sort_by_time = λ evs. evs; print_int = λ n. "n" };
  id_gen = λ trace. "INC-1";
  clock = length;
  has_exporter = true;
  actions = some (λ trace action inc. some "not permitted");
}

abbrev window : List TimedEvent
window =
    record { event = syscall; received_at = 20 }
    ∷ record { event = flow; received_at = 30 }
    ∷ record { event = deploy; received_at = 40 }
    ∷ []

abbrev incident : CorrelatedIncident
incident = record {
  incident_id = "INC-0";
  contributing_events = syscall ∷ flow ∷ [];
  confidence_score = 85;
  narrative = "";
  matched_attributes = "node" ∷ [];
  detected_at = 50;
  recommended_action = none;
  action_executed = false;
  action_error = "";
}

abbrev engine : Engine
engine = record {
  config = default_config;
  events = window;
  incidents = incident ∷ [];
  dedup = new_dedup_cache (pos 0);
  trace = id_drawn ∷ [];
}

abbrev as_walked : List EventGroup → List EventGroup
as_walked gs = gs

correlate-Reports_example :
    let (e', incs, err) = correlate services as_walked engine none 60 in
    Reports services 60 (as_walked (group_events (prune_events engine 60))) incs
    × (e'.incidents ≡ engine.incidents ++ incs)
    × (err ≡ none)
correlate-Reports_example = correlate-Reports services as_walked engine 60

-- The second action is the first enabled one.
abbrev acting_config : EngineConfig
acting_config = record {
  time_window = pos (120 * second);
  confidence_threshold = pos 50;
  dedup_window = pos (30 * second);
  auto_actions =
      record { type_name = "scale_down"; enabled = false; parameters = [] }
      ∷ record { type_name = "isolate_pod"; enabled = true; parameters = [] }
      ∷ record { type_name = "alert"; enabled = true; parameters = [] }
      ∷ [];
}

abbrev acting_engine : Engine
acting_engine = record {
  config = acting_config;
  events = window;
  incidents = [];
  dedup = new_dedup_cache (pos 0);
  trace = id_drawn ∷ [];
}

correlate-IsGated_example :
    All (IsGated acting_config) (correlate services as_walked acting_engine none 60).0.trace
correlate-IsGated_example = correlate-IsGated services as_walked acting_engine none 60 (tt, tt)

abbrev node_group : EventGroup
node_group = record { events = syscall ∷ flow ∷ []; matched_attributes = "node" ∷ [] }

make_incident-Acted_example :
    let (inc, after) = make_incident services acting_config 60 node_group (id_drawn ∷ []) in
    Acted services acting_config (id_drawn ∷ []) inc after
make_incident-Acted_example =
    make_incident-Acted services acting_config (id_drawn ∷ []) 60 node_group

abbrev recent_filter : IncidentFilter
recent_filter = record { since = 45; min_confidence = pos 80; modules = "earthworm" ∷ [] }

get_incidents_iff_example :
    Memᴰ incident (get_incidents engine none recent_filter).0
    ↔ (Memᴰ incident engine.incidents × IsAsked recent_filter incident)
get_incidents_iff_example = get_incidents_iff engine recent_filter incident

add_events_partition_example :
    let groups = add_events window [] in
    Perm (all_events groups) (map (λ (te : TimedEvent). te.event) window)
    × All IsGroup groups
    × DistinctKeys groups
add_events_partition_example = add_events_partition window

in_seconds : default_config.time_window ≡ pos (120 * second)
unfolding default_config
in_seconds = refl

ingest_window_example :
    let e' = (ingest engine none deploy 50).0 in
    let duplicate = (is_duplicate engine.dedup deploy 50).1 in
    ((duplicate ≡ true) × (e'.events ≡ engine.events))
    ⊎ ((duplicate ≡ false)
        × (e'.events
            ≡ select (in_window (50 - 120 * second)) engine.events
              ++ record { event = deploy; received_at = 50 } ∷ [])
        × All (IsFresh (120 * second) 50) e'.events)
ingest_window_example = ingest_window engine deploy (120 * second) 50 in_seconds

abbrev stream : List (Event × ℕ)
stream = (syscall, 3) ∷ (flow, 4) ∷ (syscall, 7) ∷ (syscall, 13) ∷ []

new_dedup_cache-Spaced_example : Spaced 10 (admitted (new_dedup_cache (pos 10)) stream)
new_dedup_cache-Spaced_example =
    new_dedup_cache-Spaced 9 stream (omega arith, (omega arith, (omega arith, (omega arith, tt))))

admitted_covers_example :
    All (Repeats 10 (λ p. Memᴰ p (admitted (new_dedup_cache (pos 10)) stream))) stream
admitted_covers_example =
    admitted_covers 9 stream (omega arith, (omega arith, (omega arith, (omega arith, tt))))

abbrev cache : DedupCache
cache = record { window = pos 10; entries = ("tlapix|syscall_anomaly|node-1", 3) ∷ [] }

abbrev pair : List Event
pair = syscall ∷ flow ∷ []

syscall_in : Memᴰ syscall pair
syscall_in = Memᴰ.head refl

flow_in : Memᴰ flow pair
flow_in = Memᴰ.tail (Memᴰ.head refl)

other_module : syscall.module_name ≢ flow.module_name
other_module e = cc ((eq_iff syscall.module_name flow.module_name).1 e)

pair_span : event_time_span pair ≤ 10 * second
unfolding event_time_span latest_from earliest_from
pair_span = omega arith

pair_within : AllWithin (10 * second) pair
pair_within = (event_time_span-le_iff pair (10 * second)).0 pair_span

-- The digits of 2 ^ 63, the least number that wraps.
abbrev digits : List ℕ
digits = codes "9223372036854775808"

digits-IsDigit : All IsDigit digits
digits-IsDigit = ground arith
