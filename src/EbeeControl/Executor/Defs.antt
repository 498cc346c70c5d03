-- ===== src/EbeeControl/Executor/Defs.antt =====
-- The execution of a plan. The injected functions, the context, the identifiers and the clock answer by
-- what has been called so far: a trace of calls, newest first.
use titanops.Common.{
  ℕ, zero, suc, String, Bool, true, false, ◌&&◌, Option, none, some, List, [], ◌∷◌, ◌++◌,
  if◌then◌else◌,
}
use titanops.Common.Int.{ℤ, pos, negsuc}
use titanops.Common.Text.{◌+◌ as ◌&◌}
use titanops.EbeeControl.Types.{
  ThreatClassification, ActionType, pod_isolation, ip_block, additional_honeytokens, alert,
  ActionResult, success, failure, ResponseAction,
}
use titanops.EbeeControl.Planner.{PlannedAction, ResponsePlan}

pub data Call : Type 0 where
  isolating : String → Call
  blocking : String → Call
  deploying : String → ℕ → Call
  alerting : String → Call

-- An answer of none is a nil error; `done` tells whether the context ends while a retry waits.
pub record ResponseExecutorDeps : Type 0 where
  pub isolate_pod : List Call → String → Option String
  pub block_ip : List Call → String → Option String
  pub deploy_honeytokens : List Call → String → ℕ → Option String
  pub done : List Call → Bool
  pub new_id : List Call → String
  pub now : List Call → ℕ
  pub print_int : ℕ → String

pub record ResponseConfig : Type 0 where
  pub isolation_timeout : ℤ
  pub isolation_max_retries : ℤ
  pub isolation_retry_interval : ℤ
  pub ip_block_max_retries : ℤ
  pub ip_block_retry_interval : ℤ

pub record ResponseExecutionResult : Type 0 where
  pub actions : List ResponseAction
  pub all_succeeded : Bool
  pub critical_failures : List String

-- How the loop of `executePodIsolation` and of `executeIPBlock` ends.
pub data Tried : Type 0 where
  succeeded : ℕ → Tried
  interrupted : ℕ → Tried
  exhausted : Option String → Tried

-- `%v` of an error.
abbrev pub error_text : Option String → String
error_text none = "<nil>"
error_text (some e) = e

-- `for attempt := 0; attempt <= maxRetries; attempt++`
abbrev pub rounds : ℤ → ℕ
rounds (pos n) = suc n
rounds (negsuc n) = 0

abbrev pub is_success : ActionResult → Bool
is_success success = true
is_success failure = false

-- The loop that sets `AllSucceeded`.
unfoldable pub none_failed : List ResponseAction → Bool
none_failed [] = true
none_failed (a ∷ actions) = is_success a.result && none_failed actions

module _ (deps : ResponseExecutorDeps) where
  -- The loop, with the function that it calls, that call's entry in the trace and the text of its alert.
  module _ (attempt_at : List Call → Option String) (entry : Call)
      (warning : ℕ → Option String → String) where
    -- A round behind the first: the alert, then the wait.
    unfoldable pub wait : ℕ → Option String → List Call → Option (List Call)
    wait zero last trace = some trace
    wait (suc n) last trace =
        let trace' = alerting (warning (suc n) last) ∷ trace in
        if deps.done trace' then none else some trace'

    -- `left` rounds are left, from the round `attempt` on.
    unfoldable pub retry : ℕ → ℕ → Option String → List Call → Tried × List Call
    retry zero attempt last trace = (exhausted last, trace)
    retry (suc left) attempt last trace = elim (wait attempt last trace) [
      | none ↦ (interrupted attempt, alerting (warning attempt last) ∷ trace)
      | some trace' ↦ elim (attempt_at trace') [
        | none ↦ (succeeded attempt, entry ∷ trace')
        | some err ↦ retry left (suc attempt) (some err) (entry ∷ trace')
      ]
    ]

  unfoldable pub isolation_warning : String → ℕ → Option String → String
  isolation_warning pod_id attempt last =
      "Pod isolation failed for "
      & pod_id
      & " (attempt "
      & deps.print_int attempt
      & "): "
      & error_text last
      & ". Retrying..."

  unfoldable pub block_warning : String → ℕ → Option String → String
  block_warning pod_id attempt last =
      "IP block failed for "
      & pod_id
      & " (attempt "
      & deps.print_int attempt
      & "): "
      & error_text last
      & ". Retrying..."

  -- What an action gives: its result, its retries, and the critical failures so far.
  abbrev pub Executed : Type 0
  Executed = ActionResult × ℤ × List String × List Call

  unfoldable pub after_isolation : String → ℤ → List String → Tried × List Call → Executed
  after_isolation pod_id max_retries critical (succeeded attempt, trace) =
      (success, pos attempt, critical, trace)
  after_isolation pod_id max_retries critical (interrupted attempt, trace) =
      (failure, pos attempt, critical, trace)
  after_isolation pod_id max_retries critical (exhausted last, trace) = (
    failure,
    max_retries,
    critical ++ ("Pod isolation failed for " & pod_id & ": " & error_text last) ∷ [],
    alerting (
          "CRITICAL: Pod isolation failed for "
          & pod_id
          & " after all retries exhausted. Manual intervention required. Last error: "
          & error_text last)
        ∷ trace,
  )

  unfoldable pub execute_pod_isolation :
      String → ResponseConfig → List String → List Call → Executed
  execute_pod_isolation pod_id cfg critical trace =
      after_isolation pod_id cfg.isolation_max_retries critical (
        retry (λ t. deps.isolate_pod t pod_id) (isolating pod_id) (isolation_warning pod_id)
          (rounds cfg.isolation_max_retries) 0 none trace)

  unfoldable pub after_block : String → ℤ → List String → Tried × List Call → Executed
  after_block pod_id max_retries critical (succeeded attempt, trace) =
      (success, pos attempt, critical, trace)
  after_block pod_id max_retries critical (interrupted attempt, trace) =
      (failure, pos attempt, critical, trace)
  after_block pod_id max_retries critical (exhausted last, trace) = (
    failure,
    max_retries,
    critical,
    alerting (
          "IP block failed for "
          & pod_id
          & " after all retries exhausted. Last error: "
          & error_text last)
        ∷ trace,
  )

  unfoldable pub execute_ip_block : String → ResponseConfig → List String → List Call → Executed
  execute_ip_block pod_id cfg critical trace =
      after_block pod_id cfg.ip_block_max_retries critical (
        retry (λ t. deps.block_ip t pod_id) (blocking pod_id) (block_warning pod_id)
          (rounds cfg.ip_block_max_retries) 0 none trace)

  unfoldable pub execute_honeytoken_deployment : String → List String → List Call → Executed
  execute_honeytoken_deployment namespace critical trace =
      elim (deps.deploy_honeytokens trace namespace 2) [
        | none ↦ (success, pos 0, critical, deploying namespace 2 ∷ trace)
        | some err ↦ (failure, pos 0, critical, deploying namespace 2 ∷ trace)
      ]

  -- The switch of `executeSingleAction`.
  unfoldable pub dispatch :
      ActionType → ResponsePlan → ResponseConfig → List String → List Call → Executed
  dispatch pod_isolation plan cfg critical trace =
      execute_pod_isolation plan.pod_id cfg critical trace
  dispatch ip_block plan cfg critical trace = execute_ip_block plan.pod_id cfg critical trace
  dispatch additional_honeytokens plan cfg critical trace =
      execute_honeytoken_deployment plan.namespace critical trace
  dispatch alert plan cfg critical trace = (failure, pos 0, critical, trace)

  unfoldable pub execute_single_action :
      PlannedAction
      → ResponsePlan
      → ThreatClassification
      → ResponseConfig
      → List String
      → List Call
      → ResponseAction × List String × List Call
  execute_single_action planned plan c cfg critical trace =
      let (result, retries, critical', trace') =
        dispatch planned.action_type plan cfg critical trace in
      (
        record {
          action_id = deps.new_id trace;
          action_type = planned.action_type;
          target = planned.target;
          timestamp = deps.now trace;
          threat_classification = c;
          result = result;
          retry_count = retries;
        },
        critical',
        trace',
      )

  -- The loop over the sorted actions.
  unfoldable pub execute_actions :
      List PlannedAction
      → ResponsePlan
      → ThreatClassification
      → ResponseConfig
      → List String
      → List Call
      → List ResponseAction × List String × List Call
  execute_actions [] plan c cfg critical trace = ([], critical, trace)
  execute_actions (planned ∷ actions) plan c cfg critical trace =
      let (action, critical', trace') = execute_single_action planned plan c cfg critical trace in
      let (rest, critical'', trace'') = execute_actions actions plan c cfg critical' trace' in
      (action ∷ rest, critical'', trace'')

  -- `sort` is sort.Slice by the priority; of the assessment only the classification is read.
  unfoldable pub execute_response :
      (List PlannedAction → List PlannedAction)
      → ResponsePlan
      → ThreatClassification
      → ResponseConfig
      → List Call
      → ResponseExecutionResult × List Call
  execute_response sort plan c cfg trace =
      let (actions, critical, trace') = execute_actions (sort plan.actions) plan c cfg [] trace in
      (
        record {
          actions = actions;
          all_succeeded = none_failed actions;
          critical_failures = critical;
        },
        trace',
      )
