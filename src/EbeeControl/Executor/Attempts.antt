-- ===== src/EbeeControl/Executor/Attempts.antt =====
-- The calls that an execution makes for its actions.
use titanops.Common.{
  ℕ, suc, ◌≡◌, refl, sym, String, Option, none, List, [], ◌∷◌, All, Option-cases, inl, inr,
}
use mathlib.Core.Path.{subst}
use titanops.Common.Int.{pos}
use titanops.EbeeControl.Types.{
  ThreatClassification, ActionType, pod_isolation, ip_block, additional_honeytokens, alert,
  ActionResult, success, failure, ResponseAction,
}
use titanops.EbeeControl.Planner.{PlannedAction, ResponsePlan}
use titanops.EbeeControl.Executor.Defs.{
  Call, isolating, blocking, deploying, alerting, ResponseExecutorDeps, ResponseConfig, Tried,
  retry, rounds, isolation_warning, block_warning, after_isolation, after_block,
  execute_pod_isolation, execute_ip_block, execute_honeytoken_deployment, dispatch,
  execute_single_action, execute_actions,
}
use titanops.EbeeControl.Executor.Rounds.{Held, start, failed, Ends, worked, stopped, gave_up, loop}

abbrev Aimed : ResponsePlan → ActionType → String → Type 0
Aimed plan pod_isolation target = target ≡ plan.pod_id
Aimed plan ip_block target = target ≡ plan.pod_id
Aimed plan additional_honeytokens target = target ≡ plan.namespace
Aimed plan alert target = ⊥

-- A planned action has the target that its function is called on.
abbrev pub IsAimed : ResponsePlan → PlannedAction → Type 0
IsAimed plan a = Aimed plan a.action_type a.target

module _ (deps : ResponseExecutorDeps) where
  -- A function called at least once: each call but the last failed, and the result is a success exactly if
  -- the last one returned nil.
  pub data Attempted (attempt_at : List Call → Option String) (entry : Call) (before : List Call)
      : ActionResult → List Call → Type 0 where
    accepted :
        (n m : ℕ) (t : List Call)
        → Held deps attempt_at entry before n m t
        → attempt_at t ≡ none
        → Attempted attempt_at entry before success (entry ∷ t)
    refused :
        (n m : ℕ) (t : List Call)
        → Held deps attempt_at entry before (suc n) m t
        → Attempted attempt_at entry before failure t
    reported :
        (n m : ℕ) (t : List Call) (text : String)
        → Held deps attempt_at entry before (suc n) m t
        → Attempted attempt_at entry before failure (alerting text ∷ t)

  -- The function that an action asks for, called on the action's target.
  abbrev pub Attempt : ActionType → String → List Call → ActionResult → List Call → Type 0
  Attempt pod_isolation target = Attempted (λ t. deps.isolate_pod t target) (isolating target)
  Attempt ip_block target = Attempted (λ t. deps.block_ip t target) (blocking target)
  Attempt additional_honeytokens target =
      Attempted (λ t. deps.deploy_honeytokens t target 2) (deploying target 2)
  Attempt alert target = λ before r after. ⊥

  -- The actions, each attempted on the trace that the one before it has left.
  abbrev pub Carried : List ResponseAction → List Call → List Call → Type 0
  Carried [] before after = after ≡ before
  Carried (a ∷ actions) before after =
      (t : List Call) × Attempt a.action_type a.target before a.result t × Carried actions t after

  after_isolation-Attempted :
      (attempt_at : List Call → Option String) (entry : Call) (trace : List Call) (pod_id : String)
      (max : ℕ) (failures : List String) (r : Tried × List Call)
      → Ends deps attempt_at entry trace (suc max) r
      → let x = after_isolation deps pod_id (pos max) failures r in
        Attempted attempt_at entry trace x.0 x.3
  unfolding after_isolation
  after_isolation-Attempted attempt_at entry trace pod_id max failures r (worked k t lt h ok) =
      accepted k k t h ok
  after_isolation-Attempted attempt_at entry trace pod_id max failures r (stopped k t text lt h o) =
      reported k k t text h
  after_isolation-Attempted attempt_at entry trace pod_id max failures r (gave_up last t h) =
      reported max max t _ h

  after_block-Attempted :
      (attempt_at : List Call → Option String) (entry : Call) (trace : List Call) (pod_id : String)
      (max : ℕ) (failures : List String) (r : Tried × List Call)
      → Ends deps attempt_at entry trace (suc max) r
      → let x = after_block deps pod_id (pos max) failures r in
        Attempted attempt_at entry trace x.0 x.3
  unfolding after_block
  after_block-Attempted attempt_at entry trace pod_id max failures r (worked k t lt h ok) =
      accepted k k t h ok
  after_block-Attempted attempt_at entry trace pod_id max failures r (stopped k t text lt h o) =
      reported k k t text h
  after_block-Attempted attempt_at entry trace pod_id max failures r (gave_up last t h) =
      reported max max t _ h

  deployment-Attempted :
      (namespace : String) (failures : List String) (trace : List Call)
      → let x = execute_honeytoken_deployment deps namespace failures trace in
        Attempt additional_honeytokens namespace trace x.0 x.3
  unfolding execute_honeytoken_deployment
  deployment-Attempted namespace failures trace =
      elim (Option-cases (deps.deploy_honeytokens trace namespace 2)) [
        | inl ok ↦ rw (ok, execute_honeytoken_deployment) (accepted 0 0 trace start ok)
        | inr (err, bad) ↦
            rw (bad, execute_honeytoken_deployment) (refused 0 0 _ (failed 0 0 trace err start bad))
      ]

  module _ (cfg : ResponseConfig) (i b : ℕ) (isolations : cfg.isolation_max_retries ≡ pos i)
      (blocks : cfg.ip_block_max_retries ≡ pos b) (plan : ResponsePlan) where
    isolation-Attempt :
        (pod_id : String) (failures : List String) (trace : List Call)
        → let x = execute_pod_isolation deps pod_id cfg failures trace in
          Attempt pod_isolation pod_id trace x.0 x.3
    unfolding execute_pod_isolation
    isolation-Attempt pod_id failures trace =
        let attempt_at : List Call → Option String = λ t. deps.isolate_pod t pod_id in
        let text = isolation_warning deps pod_id in
        subst
          (λ z.
            let x =
              after_isolation deps pod_id z failures
                (retry deps attempt_at (isolating pod_id) text (rounds z) 0 none trace) in
            Attempted attempt_at (isolating pod_id) trace x.0 x.3)
          (sym isolations)
          (after_isolation-Attempted attempt_at (isolating pod_id) trace pod_id i failures _
            (loop deps attempt_at (isolating pod_id) trace text (suc i)))

    block-Attempt :
        (pod_id : String) (failures : List String) (trace : List Call)
        → let x = execute_ip_block deps pod_id cfg failures trace in
          Attempt ip_block pod_id trace x.0 x.3
    unfolding execute_ip_block
    block-Attempt pod_id failures trace =
        let attempt_at : List Call → Option String = λ t. deps.block_ip t pod_id in
        let text = block_warning deps pod_id in
        subst
          (λ z.
            let x =
              after_block deps pod_id z failures
                (retry deps attempt_at (blocking pod_id) text (rounds z) 0 none trace) in
            Attempted attempt_at (blocking pod_id) trace x.0 x.3)
          (sym blocks)
          (after_block-Attempted attempt_at (blocking pod_id) trace pod_id b failures _
            (loop deps attempt_at (blocking pod_id) trace text (suc b)))

    dispatch-Attempt :
        (kind : ActionType) (target : String) (priority : ℕ) (failures : List String)
        (trace : List Call)
        → IsAimed plan (record { action_type = kind; target = target; priority = priority })
        → let x = dispatch deps kind plan cfg failures trace in Attempt kind target trace x.0 x.3
    unfolding dispatch
    dispatch-Attempt pod_isolation target priority failures trace e =
        rw e (isolation-Attempt plan.pod_id failures trace)
    dispatch-Attempt ip_block target priority failures trace e =
        rw e (block-Attempt plan.pod_id failures trace)
    dispatch-Attempt additional_honeytokens target priority failures trace e =
        rw e (deployment-Attempted plan.namespace failures trace)
    dispatch-Attempt alert target priority failures trace e = elim e [ ]

    pub execute_actions-Carried :
        (actions : List PlannedAction) (c : ThreatClassification) (failures : List String)
        (trace : List Call)
        → All (IsAimed plan) actions
        → let x = execute_actions deps actions plan c cfg failures trace in Carried x.0 trace x.2
    unfolding execute_actions execute_single_action
    execute_actions-Carried [] c failures trace h = refl
    execute_actions-Carried (a ∷ actions) c failures trace h = (
      _,
      dispatch-Attempt a.action_type a.target a.priority failures trace h.0,
      execute_actions-Carried actions c _ _ h.1,
    )
