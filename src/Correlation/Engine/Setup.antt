-- ===== src/Correlation/Engine/Setup.antt =====
-- What configurations `NewEngine` accepts.
use titanops.Common.{◌*◌, ◌≡◌, ◌↔◌, none, arith}
use titanops.Common.Int.{pos, ◌≤ℤ◌}
use titanops.Correlation.Scoring.{second}
use titanops.Correlation.Engine.Types.{EngineConfig}
use titanops.Correlation.Engine.Config.{default_config, validate_config}

-- A time window of 10 to 600 seconds, and a threshold of 1 to 100.
pub record InRange (cfg : EngineConfig) : Type 0 where
  pub not_short : pos (10 * second) ≤ℤ cfg.time_window
  pub not_long : cfg.time_window ≤ℤ pos (600 * second)
  pub not_low : pos 1 ≤ℤ cfg.confidence_threshold
  pub not_high : cfg.confidence_threshold ≤ℤ pos 100

-- The validation accepts exactly the configurations whose window and threshold are in range.
pub validate_config_iff : (cfg : EngineConfig) → (validate_config cfg ≡ none) ↔ InRange cfg
unfolding validate_config
validate_config_iff cfg = ground arith

-- The default configuration is accepted.
pub default_config-InRange : InRange default_config
unfolding default_config
default_config-InRange = omega arith
