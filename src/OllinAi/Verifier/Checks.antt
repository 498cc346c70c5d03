-- ===== src/OllinAi/Verifier/Checks.antt =====
-- Which signals are checked, and what a check says. A query that is `none` has failed.
use titanops.Common.{String, Bool, true, false, ◌||◌, List, [], ◌∷◌, ◌++◌, if◌then◌else◌, str_eq}
use titanops.Common.Float.{Floats}
use titanops.OllinAi.Change.{
  ChangeType, image, env_var, resource_limits, replica_scale, probe, rollout_strategy, other,
  another, DetectedChange,
}

pub data SignalType : Type 0 where
  error_rate : SignalType
  latency_p99 : SignalType
  pod_restarts : SignalType
  throughput : SignalType
  cpu_saturation : SignalType

abbrev pub signal_text : SignalType → String
signal_text error_rate = "error_rate"
signal_text latency_p99 = "latency_p99"
signal_text pod_restarts = "pod_restarts"
signal_text throughput = "throughput"
signal_text cpu_saturation = "cpu_saturation"

-- The cases of the switch in `selectSignals`.
unfoldable pub signals_of : ChangeType → List SignalType
signals_of image = error_rate ∷ latency_p99 ∷ pod_restarts ∷ throughput ∷ []
signals_of env_var = error_rate ∷ pod_restarts ∷ []
signals_of resource_limits = cpu_saturation ∷ latency_p99 ∷ pod_restarts ∷ []
signals_of replica_scale = throughput ∷ []
signals_of probe = pod_restarts ∷ throughput ∷ []
signals_of rollout_strategy = pod_restarts ∷ throughput ∷ []
signals_of other = error_rate ∷ pod_restarts ∷ []
signals_of (another s) = error_rate ∷ pod_restarts ∷ []

abbrev pub is_signal : SignalType → List SignalType → Bool
is_signal s [] = false
is_signal s (t ∷ signals) = str_eq (signal_text s) (signal_text t) || is_signal s signals

-- `signals[s] = true` for each of the signals.
unfoldable pub add_all : List SignalType → List SignalType → List SignalType
add_all [] signals = signals
add_all (s ∷ more) signals =
    add_all more (if is_signal s signals then signals else signals ++ s ∷ [])

unfoldable pub signals_from : List SignalType → List DetectedChange → List SignalType
signals_from signals [] = signals
signals_from signals (c ∷ changes) =
    signals_from (add_all (signals_of c.change_type) signals) changes

-- `order` is the order in which Go ranges over the map.
unfoldable pub select_signals :
    (List SignalType → List SignalType) → List DetectedChange → List SignalType
select_signals order changes = order (signals_from [] changes)

module _ {F : Type 0} (fl : Floats F) where
  unfoldable pub evaluate_check : SignalType → F → F → F → Bool
  evaluate_check error_rate baseline current threshold =
      if fl.eq baseline (fl.literal 0 1)
      then fl.eq current (fl.literal 0 1)
      else fl.le current (fl.mul baseline threshold)
  evaluate_check latency_p99 baseline current threshold =
      if fl.eq baseline (fl.literal 0 1) then true else fl.le current (fl.mul baseline threshold)
  evaluate_check pod_restarts baseline current threshold = fl.le current threshold
  evaluate_check throughput baseline current threshold =
      if fl.eq baseline (fl.literal 0 1) then true else fl.le (fl.mul baseline threshold) current
  evaluate_check cpu_saturation baseline current threshold = fl.lt current threshold
