-- ===== src/EbeeControl/Executor/Retry.antt =====
-- How `executePodIsolation` ends.
use titanops.Common.{
  Option, ℕ, suc, ◌≤◌, ◌<◌, ◌≡◌, sym, String, none, true, List, [], ◌∷◌, ◌++◌, arith,
}
use mathlib.Core.Path.{subst}
use titanops.Common.Int.{pos}
use titanops.EbeeControl.Types.{success, failure}
use titanops.EbeeControl.Executor.Defs.{
  Call, isolating, alerting, ResponseExecutorDeps, ResponseConfig, Tried, retry, rounds,
  isolation_warning, Executed, after_isolation, execute_pod_isolation,
}
use titanops.EbeeControl.Executor.Rounds.{Held, Ends, worked, stopped, gave_up, loop}

module _ (deps : ResponseExecutorDeps) (pod_id : String) where
  -- `n` calls of `IsolatePod` that failed and `m` waits that lasted, on top of the trace.
  abbrev pub Refused : List Call → ℕ → ℕ → List Call → Type 0
  Refused = Held deps (λ t. deps.isolate_pod t pod_id) (isolating pod_id)

  -- How `executePodIsolation` ends, with what it has added to the trace.
  pub data IsIsolated (max : ℕ) (failures : List String) (trace : List Call)
      : Executed deps → Type 0 where
    isolated :
        (k : ℕ) (t : List Call)
        → k ≤ max
        → Refused trace k k t
        → deps.isolate_pod t pod_id ≡ none
        → IsIsolated max failures trace (success, pos k, failures, isolating pod_id ∷ t)
    cancelled :
        (k : ℕ) (t : List Call) (text : String)
        → k < max
        → Refused trace (suc k) k t
        → deps.done (alerting text ∷ t) ≡ true
        → IsIsolated max failures trace (failure, pos (suc k), failures, alerting text ∷ t)
    escalated :
        (text escalation : String) (t : List Call)
        → Refused trace (suc max) max t
        → IsIsolated max failures trace
            (failure, pos max, failures ++ text ∷ [], alerting escalation ∷ t)

  ending :
      (max : ℕ) (failures : List String) (trace : List Call) (r : Tried × List Call)
      → Ends deps (λ t. deps.isolate_pod t pod_id) (isolating pod_id) trace (suc max) r
      → IsIsolated max failures trace (after_isolation deps pod_id (pos max) failures r)
  unfolding after_isolation
  ending max failures trace r (worked k t lt h ok) = isolated k t (omega arith) h ok
  ending max failures trace r (stopped k t text lt h over) = cancelled k t text (omega arith) h over
  ending max failures trace r (gave_up last t h) = escalated _ _ t h

  -- The isolation of a pod with a maximum of retries ends in one of three ways. After k calls that
  -- failed, with an alert behind each, the next one returns nil: it succeeds, after k retries. Or, at the
  -- alert behind some call that failed, the context ends: it is cancelled and reports no critical failure. Or
  -- the maximum and one more calls fail, with an alert between each two: it alerts once more and
  -- reports one critical failure.
  pub execute_pod_isolation-IsIsolated :
      (cfg : ResponseConfig) (max : ℕ) (failures : List String) (trace : List Call)
      → cfg.isolation_max_retries ≡ pos max
      → IsIsolated max failures trace (execute_pod_isolation deps pod_id cfg failures trace)
  unfolding execute_pod_isolation
  execute_pod_isolation-IsIsolated cfg max failures trace e =
      let attempt_at : List Call → Option String = λ t. deps.isolate_pod t pod_id in
      subst
        (λ m. IsIsolated max failures trace (
          after_isolation deps pod_id m failures (
            retry deps attempt_at (isolating pod_id) (isolation_warning deps pod_id) (rounds m) 0
              none trace)))
        (sym e)
        (ending max failures trace _
          (loop deps attempt_at (isolating pod_id) trace (isolation_warning deps pod_id) (suc max)))
