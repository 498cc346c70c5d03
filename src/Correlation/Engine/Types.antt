-- ===== src/Correlation/Engine/Types.antt =====
-- The data of the engine. The outside world (clock, identifiers, actions, exporter) answers by what it
-- has been asked so far: a trace of effects, newest first.
use titanops.Common.{ℕ, String, Bool, Option, List}
use titanops.Common.Int.{ℤ}
use titanops.Export.Event.{Event}
use titanops.Correlation.Dedup.{DedupCache}
use titanops.Correlation.Narrative.{Formatting}

pub record AutoActionConfig : Type 0 where
  pub type_name : String
  pub enabled : Bool
  pub parameters : List (String × String)

pub record EngineConfig : Type 0 where
  pub time_window : ℤ
  pub confidence_threshold : ℤ
  pub dedup_window : ℤ
  pub auto_actions : List AutoActionConfig

pub record AutoAction : Type 0 where
  pub type_name : String
  pub parameters : List (String × String)

pub record TimedEvent : Type 0 where
  pub event : Event
  pub received_at : ℕ

pub record CorrelatedIncident : Type 0 where
  pub incident_id : String
  pub contributing_events : List Event
  pub confidence_score : ℕ
  pub narrative : String
  pub matched_attributes : List String
  pub detected_at : ℕ
  pub recommended_action : Option AutoAction
  pub action_executed : Bool
  pub action_error : String

pub record IncidentFilter : Type 0 where
  pub since : ℕ
  pub min_confidence : ℤ
  pub modules : List String

-- `Value` is the number that the source prints.
pub record ConfigError : Type 0 where
  pub field : String
  pub value : ℤ
  pub message : String

-- What the engine asks of the world.
pub data Effect : Type 0 where
  id_drawn : Effect
  executed : AutoAction → CorrelatedIncident → Effect
  exported : Event → Effect

-- `actions` is none for a nil executor; an answer of none is a nil error.
pub record Services : Type 0 where
  pub formatting : Formatting
  pub id_gen : List Effect → String
  pub clock : List Effect → ℕ
  pub has_exporter : Bool
  pub actions : Option (List Effect → AutoAction → CorrelatedIncident → Option String)

pub record Engine : Type 0 where
  pub config : EngineConfig
  pub events : List TimedEvent
  pub incidents : List CorrelatedIncident
  pub dedup : DedupCache
  pub trace : List Effect
