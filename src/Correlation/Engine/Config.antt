-- ===== src/Correlation/Engine/Config.antt =====
-- `DefaultConfig`, `ValidateConfig` and `NewEngine`.
use titanops.Common.{ℕ, ◌*◌, true, ◌||◌, Option, none, some, [], ◌∷◌, if◌then◌else◌}
use titanops.Common.Int.{ℤ, pos, ltb_ℤ}
use titanops.Correlation.Scoring.{second}
use titanops.Correlation.Dedup
use titanops.Correlation.Engine.Types.{EngineConfig, ConfigError, Engine}

abbrev seconds : ℕ → ℤ
seconds n = pos (n * second)

unfoldable pub default_config : EngineConfig
default_config = record {
  time_window = seconds 120;
  confidence_threshold = pos 80;
  dedup_window = pos 0;
  auto_actions =
      record { type_name = "isolate_pod"; enabled = true; parameters = [] }
      ∷ record { type_name = "alert_operator"; enabled = true; parameters = [] }
      ∷ record { type_name = "forensic_report"; enabled = true; parameters = [] }
      ∷ [];
}

unfoldable pub validate_config : EngineConfig → Option ConfigError
validate_config cfg =
    if ltb_ℤ cfg.time_window (seconds 10) || ltb_ℤ (seconds 600) cfg.time_window
    then some (record {
      field = "TimeWindow";
      value = cfg.time_window;
      message = "must be between 10s and 600s";
    })
    else if ltb_ℤ cfg.confidence_threshold (pos 1) || ltb_ℤ (pos 100) cfg.confidence_threshold
    then some (record {
      field = "ConfidenceThreshold";
      value = cfg.confidence_threshold;
      message = "must be between 1 and 100";
    })
    else none

pub data Made : Type 0 where
  made : Engine → Made
  refused : ConfigError → Made

unfoldable pub new_engine : EngineConfig → Made
new_engine cfg = elim (validate_config cfg) [
  | some e ↦ refused e
  | none ↦ made (record {
    config = cfg;
    events = [];
    incidents = [];
    dedup = Dedup.new_dedup_cache cfg.dedup_window;
    trace = [];
  })
]
