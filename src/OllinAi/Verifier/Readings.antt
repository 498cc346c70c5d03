-- ===== src/OllinAi/Verifier/Readings.antt =====
-- What the queries of a signal say, in the terms of the source of the metrics.
use titanops.Common.{
  ◌≡◌, refl, ◌⊎◌, String, Bool, true, false, Option, none, some, List, [], ◌∷◌, All, arith,
  if◌then◌else◌,
}
use mathlib.Core.List.{Memᴰ}
use titanops.Common.Int.{pos}
use titanops.OllinAi.Verdict.{VerdictStatus, healthy, regression, inconclusive, SignalCheck}
use titanops.OllinAi.Verifier.Checks.{
  SignalType, error_rate, latency_p99, pod_restarts, throughput, cpu_saturation, evaluate_check,
}
use titanops.OllinAi.Verifier.Defs.{VerifierConfig, VerifierDeps, run_single_check}

-- What a check of a signal tells: nothing when a query fails.
pub data Reading : Type 0 where
  silent : Reading
  fine : Reading
  bad : Reading

unfoldable pub reading : {F : Type 0} → Option (SignalCheck F) → Reading
reading none = silent
reading (some check) = if check.passed then fine else bad

-- The worst of the readings.
unfoldable pub worst : Reading → Reading → Reading
worst bad r = bad
worst fine bad = bad
worst fine _ = fine
worst silent r = r

unfoldable pub worst_of :
    {F : Type 0} → VerifierDeps F → VerifierConfig F → String → String → List SignalType → Reading
worst_of deps cfg ns workload [] = silent
worst_of deps cfg ns workload (s ∷ signals) =
    worst (reading (run_single_check deps cfg s ns workload))
      (worst_of deps cfg ns workload signals)

unfoldable pub status_for : Reading → VerdictStatus
status_for silent = inconclusive
status_for fine = healthy
status_for bad = regression

module _ {F : Type 0} (deps : VerifierDeps F) (cfg : VerifierConfig F) (ns workload : String) where
  -- The value before the change, over the baseline window, and whether its query failed.
  abbrev baseline : SignalType → F × Bool
  baseline s = deps.query 0 s ns workload cfg.baseline_window

  -- The value behind the change: of the last minute, and for restarts of the last two.
  abbrev current : SignalType → F × Bool
  current pod_restarts = deps.query 1 pod_restarts ns workload (pos 120000000000)
  current s = deps.query 1 s ns workload (pos 60000000000)

  -- The queries that count for the signal have not failed: restarts and CPU need no baseline.
  abbrev pub IsAnswered : SignalType → Type 0
  IsAnswered pod_restarts = (current pod_restarts).1 ≡ false
  IsAnswered cpu_saturation = (current cpu_saturation).1 ≡ false
  IsAnswered s = ((baseline s).1 ≡ false) × ((current s).1 ≡ false)

  abbrev is_zero : F → Bool
  is_zero x = deps.floats.eq x (deps.floats.literal 0 1)

  -- The signal is worse than its threshold allows: errors where there were none, or a rise or fall beyond the
  -- factor; too many restarts; too much CPU.
  abbrev pub IsFailed : SignalType → Type 0
  IsFailed error_rate =
      ((is_zero (baseline error_rate).0 ≡ true) × (is_zero (current error_rate).0 ≡ false))
      ⊎ ((is_zero (baseline error_rate).0 ≡ false)
          × (deps.floats.le (current error_rate).0
                (deps.floats.mul (baseline error_rate).0 cfg.error_rate_threshold)
              ≡ false))
  IsFailed latency_p99 =
      (is_zero (baseline latency_p99).0 ≡ false)
      × (deps.floats.le (current latency_p99).0
            (deps.floats.mul (baseline latency_p99).0 cfg.latency_threshold)
          ≡ false)
  IsFailed pod_restarts = deps.floats.le (current pod_restarts).0 cfg.restart_threshold ≡ false
  IsFailed throughput =
      (is_zero (baseline throughput).0 ≡ false)
      × (deps.floats.le (deps.floats.mul (baseline throughput).0 cfg.throughput_drop_threshold)
            (current throughput).0
          ≡ false)
  IsFailed cpu_saturation = deps.floats.lt (current cpu_saturation).0 cfg.cpu_threshold ≡ false

  abbrev IsRead : SignalType → Reading → Type 0
  IsRead s silent = ¬ IsAnswered s
  IsRead s fine = IsAnswered s × (¬ IsFailed s)
  IsRead s bad = IsAnswered s × IsFailed s

  run_single_check-IsRead :
      (s : SignalType) → IsRead s (reading (run_single_check deps cfg s ns workload))
  unfolding run_single_check evaluate_check reading
  run_single_check-IsRead error_rate = ground arith
  run_single_check-IsRead latency_p99 = ground arith
  run_single_check-IsRead pod_restarts = ground arith
  run_single_check-IsRead throughput = ground arith
  run_single_check-IsRead cpu_saturation = ground arith

  abbrev HasBad : List SignalType → Type 0
  HasBad signals = (s : SignalType) × Memᴰ s signals × IsAnswered s × IsFailed s

  abbrev HasAnswer : List SignalType → Type 0
  HasAnswer signals = (s : SignalType) × Memᴰ s signals × IsAnswered s

  abbrev NoneBad : List SignalType → Type 0
  NoneBad signals = All (λ s. ¬ (IsAnswered s × IsFailed s)) signals

  abbrev AllSilent : List SignalType → Type 0
  AllSilent signals = All (λ s. ¬ IsAnswered s) signals

  abbrev Judged : List SignalType → Reading → Type 0
  Judged signals silent = AllSilent signals
  Judged signals fine = HasAnswer signals × NoneBad signals
  Judged signals bad = HasBad signals

  -- The three verdicts on the selected signals.
  pub data Judgement (signals : List SignalType) : VerdictStatus → Type 0 where
    failing :
        (s : SignalType) → Memᴰ s signals → IsAnswered s → IsFailed s → Judgement signals regression
    passing :
        (s : SignalType)
        → Memᴰ s signals
        → IsAnswered s
        → All (λ t. ¬ (IsAnswered t × IsFailed t)) signals
        → Judgement signals healthy
    unheard : All (λ t. ¬ IsAnswered t) signals → Judgement signals inconclusive

  none_bad_of_silent : (signals : List SignalType) → AllSilent signals → NoneBad signals
  none_bad_of_silent [] h = tt
  none_bad_of_silent (s ∷ signals) h = (λ p. h.0 p.0, none_bad_of_silent signals h.1)

  judge :
      (s : SignalType) (signals : List SignalType) (r r' : Reading)
      → IsRead s r
      → Judged signals r'
      → Judged (s ∷ signals) (worst r r')
  unfolding worst
  judge s signals silent silent h h' = (h, h')
  judge s signals silent fine h ((t, m, a), none_bad) =
      ((t, Memᴰ.tail m, a), ((λ p. h p.0), none_bad))
  judge s signals silent bad h (t, m, a, f) = (t, Memᴰ.tail m, a, f)
  judge s signals fine silent (a, f) h' =
      ((s, Memᴰ.head refl, a), ((λ p. f p.1), none_bad_of_silent signals h'))
  judge s signals fine fine (a, f) h' = ((s, Memᴰ.head refl, a), ((λ p. f p.1), h'.1))
  judge s signals fine bad h (t, m, a, f) = (t, Memᴰ.tail m, a, f)
  judge s signals bad r' (a, f) h' = (s, Memᴰ.head refl, a, f)

  worst_of-Judged :
      (signals : List SignalType) → Judged signals (worst_of deps cfg ns workload signals)
  unfolding worst_of
  worst_of-Judged [] = tt
  worst_of-Judged (s ∷ signals) =
      judge s signals _ _ (run_single_check-IsRead s) (worst_of-Judged signals)

  judged :
      (signals : List SignalType) (r : Reading)
      → Judged signals r
      → Judgement signals (status_for r)
  unfolding status_for
  judged signals silent h = unheard h
  judged signals fine ((s, m, a), none_bad) = passing s m a none_bad
  judged signals bad (s, m, a, f) = failing s m a f

  pub status_for-Judgement :
      (signals : List SignalType)
      → Judgement signals (status_for (worst_of deps cfg ns workload signals))
  status_for-Judgement signals = judged signals _ (worst_of-Judged signals)
