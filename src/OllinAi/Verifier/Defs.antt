-- ===== src/OllinAi/Verifier/Defs.antt =====
-- `Verifier`: its configuration, the checks of a change, and the verdicts that it keeps. A query returns a
-- value and whether it failed; a verdict's payload is what `SerializePayload` returns, none for its error.
use titanops.Common.{
  ℕ, zero, suc, ◌-◌, String, Bool, true, false, Option, none, some, List, [], ◌∷◌, ◌++◌, length,
  get_elem?, ltb, if◌then◌else◌,
}
use titanops.Common.Int.{ℤ, pos, negsuc, ltb_ℤ}
use titanops.Common.Float.{Floats}
use titanops.Export.Event.{Event}
use titanops.OllinAi.Change.{DeploymentChange}
use titanops.OllinAi.Verdict.{
  VerdictStatus, healthy, regression, inconclusive, SignalCheck, Verdict, new_verdict,
}
use titanops.OllinAi.Verifier.Checks.{
  SignalType, error_rate, latency_p99, pod_restarts, throughput, cpu_saturation, signal_text,
  select_signals, evaluate_check,
}

abbrev pub minute : ℤ
minute = pos 60000000000

pub record VerifierConfig (F : Type 0) : Type 0 where
  pub baseline_window : ℤ
  pub error_rate_threshold : F
  pub latency_threshold : F
  pub restart_threshold : F
  pub throughput_drop_threshold : F
  pub cpu_threshold : F

-- What the verifier has been given: the source of the metrics, the iteration order of a map, the encoder.
-- The first argument of `query` is 0 for the first query of a check and 1 for the second.
pub record VerifierDeps (F : Type 0) : Type 0 where
  pub floats : Floats F
  pub query : ℕ → SignalType → String → String → ℤ → F × Bool
  pub order : List SignalType → List SignalType
  pub serialize : Verdict F → Option (List ℕ)
  pub has_emitter : Bool

pub record Verifier (F : Type 0) : Type 0 where
  pub config : VerifierConfig F
  pub verdicts : List (Verdict F)
  pub emitted : List Event

module _ {F : Type 0} (deps : VerifierDeps F) where
  -- `if v <= 0 { v = d }`
  abbrev pub or_default : F → F → F
  or_default value default =
      if deps.floats.le value (deps.floats.literal 0 1) then default else value

  unfoldable pub new_verifier : VerifierConfig F → Verifier F
  new_verifier cfg = record {
    config = record {
      baseline_window =
          if ltb_ℤ (pos 0) cfg.baseline_window then cfg.baseline_window else pos 300000000000;
      error_rate_threshold = or_default cfg.error_rate_threshold (deps.floats.literal 15 10);
      latency_threshold = or_default cfg.latency_threshold (deps.floats.literal 2 1);
      restart_threshold = or_default cfg.restart_threshold (deps.floats.literal 1 1);
      throughput_drop_threshold =
          or_default cfg.throughput_drop_threshold (deps.floats.literal 7 10);
      cpu_threshold = or_default cfg.cpu_threshold (deps.floats.literal 9 10);
    };
    verdicts = [];
    emitted = [];
  }

  abbrev pub threshold_of : VerifierConfig F → SignalType → F
  threshold_of cfg error_rate = cfg.error_rate_threshold
  threshold_of cfg latency_p99 = cfg.latency_threshold
  threshold_of cfg pod_restarts = cfg.restart_threshold
  threshold_of cfg throughput = cfg.throughput_drop_threshold
  threshold_of cfg cpu_saturation = cfg.cpu_threshold

  abbrev pub unit_of : SignalType → String
  unit_of error_rate = "ratio"
  unit_of latency_p99 = "ms"
  unit_of pod_restarts = "count"
  unit_of throughput = "req/s"
  unit_of cpu_saturation = "ratio"

  -- The window of the second query.
  abbrev pub current_window : SignalType → ℤ
  current_window pod_restarts = pos 120000000000
  current_window _ = minute

  -- The error of the first query counts for these signals.
  abbrev pub needs_baseline : SignalType → Bool
  needs_baseline pod_restarts = false
  needs_baseline cpu_saturation = false
  needs_baseline _ = true

  unfoldable pub run_single_check :
      VerifierConfig F → SignalType → String → String → Option (SignalCheck F)
  run_single_check cfg signal ns workload =
      let (baseline, baseline_failed) = deps.query 0 signal ns workload cfg.baseline_window in
      let (current, current_failed) = deps.query 1 signal ns workload (current_window signal) in
      let check : SignalCheck F = record {
        signal = signal_text signal;
        baseline_value = baseline;
        current_value = current;
        threshold = threshold_of cfg signal;
        passed = evaluate_check deps.floats signal baseline current (threshold_of cfg signal);
        unit = unit_of signal;
      } in
      if (if needs_baseline signal then baseline_failed else false)
      then none
      else if current_failed
      then none
      else some check

  unfoldable pub run_each :
      VerifierConfig F → List SignalType → String → String → List (SignalCheck F)
  run_each cfg [] ns workload = []
  run_each cfg (signal ∷ signals) ns workload =
      let rest = run_each cfg signals ns workload in
      elim (run_single_check cfg signal ns workload) [ none ↦ rest | some check ↦ check ∷ rest ]

  unfoldable pub run_checks : VerifierConfig F → DeploymentChange → List (SignalCheck F)
  run_checks cfg change =
      run_each cfg (select_signals deps.order change.changes) change.namespace change.workload_name

  abbrev pub status_text : VerdictStatus → String
  status_text healthy = "healthy"
  status_text regression = "regression"
  status_text inconclusive = "inconclusive"

  abbrev pub verdict_severity : VerdictStatus → String
  verdict_severity regression = "high"
  verdict_severity _ = "informational"

  -- The events that the emitter has been given.
  unfoldable pub emit_verdict : Verdict F → List Event → List Event
  emit_verdict verdict emitted = elim (deps.serialize verdict) [
    | none ↦ emitted
    | some bytes ↦
        emitted
        ++ record {
          namespace = verdict.change.namespace;
          timestamp = verdict.completed_at;
          zone = "UTC";
          severity = verdict_severity verdict.status;
          module_name = "ollinai";
          event_type = "deployment_verification";
          payload = bytes;
          node = "";
          pod = "";
          event_id = "";
          labels = some (
              ("workload", verdict.change.workload_name)
              ∷ ("kind", verdict.change.workload_kind)
              ∷ ("verdict", status_text verdict.status)
              ∷ ("commit_sha", verdict.change.commit_sha)
              ∷ []);
        }
          ∷ []
  ]

  -- `done` tells that the context ends before the window of the change does.
  unfoldable pub verify :
      Bool → String → ℕ → ℕ → DeploymentChange → Verifier F → Option (Verdict F) × Verifier F
  verify true id started_at now change v = (none, v)
  verify false id started_at now change v =
      let verdict = new_verdict id now change (run_checks v.config change) started_at in
      (
        some verdict,
        record v {
          verdicts = v.verdicts ++ verdict ∷ [];
          emitted = if deps.has_emitter then emit_verdict verdict v.emitted else v.emitted;
        },
      )

-- The rounds of the loop of `RecentVerdicts` from the index i on; none is a panic.
unfoldable pub collect : {F : Type 0} → List (Verdict F) → ℕ → ℕ → Option (List (Verdict F))
collect verdicts i zero = some []
collect verdicts i (suc left) =
    let rest = collect verdicts (suc i) left in
    elim (get_elem? verdicts (length verdicts - 1 - i)) [
      | none ↦ none
      | some verdict ↦ elim rest [ none ↦ none | some more ↦ some (verdict ∷ more) ]
    ]

unfoldable pub recent_verdicts : {F : Type 0} → Verifier F → ℤ → Option (List (Verdict F))
recent_verdicts v (pos n) =
    let stored = length v.verdicts in collect v.verdicts 0 (if ltb stored n then stored else n)
recent_verdicts v (negsuc n) = none
