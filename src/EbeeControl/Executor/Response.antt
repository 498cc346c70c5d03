-- ===== src/EbeeControl/Executor/Response.antt =====
-- The response as a whole: which actions are attempted, in which order, and what the verdict on them says.
use titanops.Common.{
  ℕ, ◌<◌, ◌≡◌, refl, sym, ap, ◌∙◌, ◌↔◌, ◌⊎◌, String, true, false, List, [], ◌∷◌, map, All, arith,
  inl, inr,
}
use mathlib.Core.Path.{subst}
use titanops.Common.Int.{pos}
use titanops.EbeeControl.Executor.Attempts.{IsAimed, Carried, execute_actions-Carried}
use titanops.EbeeControl.Types.{
  ThreatClassification, low, medium, high, critical, ActionType, pod_isolation, ip_block,
  additional_honeytokens, ActionResult, success, failure, ResponseAction, ThreatAssessment,
}
use titanops.EbeeControl.Planner.{
  PlannedAction, ResponsePlan, build_actions, generate_response_plan,
}
use titanops.EbeeControl.Executor.Defs.{
  Call, ResponseExecutorDeps, ResponseConfig, is_success, none_failed, execute_single_action,
  execute_actions, execute_response,
}

-- The first priority is above `n` and each is above the one before it.
abbrev pub IsAscending : ℕ → List PlannedAction → Type 0
IsAscending n [] = Unit
IsAscending n (a ∷ actions) = (n < a.priority) × IsAscending a.priority actions

-- The response that a classification calls for: the kinds of action and their targets.
abbrev pub expected : ThreatClassification → String → String → List (ActionType × String)
expected low namespace pod_id = []
expected medium namespace pod_id = (additional_honeytokens, namespace) ∷ []
expected _ namespace pod_id =
    (pod_isolation, pod_id) ∷ (ip_block, pod_id) ∷ (additional_honeytokens, namespace) ∷ []

abbrev pub kind_and_target : ResponseAction → ActionType × String
kind_and_target a = (a.action_type, a.target)

IsAscending-build_actions :
    (c : ThreatClassification) (namespace pod_id : String)
    → IsAscending 0 (build_actions c namespace pod_id)
unfolding build_actions
IsAscending-build_actions low namespace pod_id = tt
IsAscending-build_actions medium namespace pod_id = (omega arith, tt)
IsAscending-build_actions high namespace pod_id = (omega arith, (omega arith, (omega arith, tt)))
IsAscending-build_actions critical namespace pod_id =
    (omega arith, (omega arith, (omega arith, tt)))

build_actions-expected :
    (c : ThreatClassification) (namespace pod_id : String)
    → map (λ (a : PlannedAction). (a.action_type, a.target)) (build_actions c namespace pod_id)
      ≡ expected c namespace pod_id
unfolding build_actions
build_actions-expected low namespace pod_id = refl
build_actions-expected medium namespace pod_id = refl
build_actions-expected high namespace pod_id = refl
build_actions-expected critical namespace pod_id = refl

execute_actions-map :
    (deps : ResponseExecutorDeps) (actions : List PlannedAction) (plan : ResponsePlan)
    (c : ThreatClassification) (cfg : ResponseConfig) (failures : List String) (trace : List Call)
    → map kind_and_target ((execute_actions deps actions plan c cfg failures trace).0)
      ≡ map (λ (a : PlannedAction). (a.action_type, a.target)) actions
unfolding execute_actions execute_single_action
execute_actions-map deps [] plan c cfg failures trace = refl
execute_actions-map deps (a ∷ actions) plan c cfg failures trace =
    ap (λ rest. (a.action_type, a.target) ∷ rest) (execute_actions-map deps actions plan c cfg _ _)

is_success-cases :
    (r : ActionResult)
    → (is_success r ≡ true × (r ≡ success)) ⊎ (is_success r ≡ false × (r ≡ failure))
is_success-cases success = inl (refl, refl)
is_success-cases failure = inr (refl, refl)

none_failed-All :
    (actions : List ResponseAction)
    → none_failed actions ≡ true
    → All (λ (a : ResponseAction). a.result ≡ success) actions
unfolding none_failed
none_failed-All [] h = tt
none_failed-All (a ∷ actions) h =
    let cases = is_success-cases a.result in (ground arith, none_failed-All actions (ground arith))

none_failed_of_All :
    (actions : List ResponseAction)
    → All (λ (a : ResponseAction). a.result ≡ success) actions
    → none_failed actions ≡ true
unfolding none_failed
none_failed_of_All [] h = refl
none_failed_of_All (a ∷ actions) (h, hs) = rw (h, none_failed) (none_failed_of_All actions hs)

build_actions-IsAimed :
    (plan : ResponsePlan) (c : ThreatClassification)
    → All (IsAimed plan) (build_actions c plan.namespace plan.pod_id)
unfolding build_actions
build_actions-IsAimed plan low = tt
build_actions-IsAimed plan medium = (refl, tt)
build_actions-IsAimed plan high = (refl, (refl, (refl, tt)))
build_actions-IsAimed plan critical = (refl, (refl, (refl, tt)))

pub execute_response-expected :
    (sort : List PlannedAction → List PlannedAction) (c : ThreatClassification)
    (plan : ResponsePlan) (deps : ResponseExecutorDeps) (cfg : ResponseConfig) (trace : List Call)
    → ((actions : List PlannedAction) → IsAscending 0 actions → sort actions ≡ actions)
    → plan.actions ≡ build_actions c plan.namespace plan.pod_id
    → map kind_and_target (execute_response deps sort plan c cfg trace).0.actions
      ≡ expected c plan.namespace plan.pod_id
unfolding execute_response
execute_response-expected sort c plan deps cfg trace sorted built =
    execute_actions-map deps (sort plan.actions) plan c cfg [] trace
    ∙ ap (λ actions. map (λ (a : PlannedAction). (a.action_type, a.target)) (sort actions)) built
    ∙ ap (map (λ (a : PlannedAction). (a.action_type, a.target)))
        (sorted _ (IsAscending-build_actions c plan.namespace plan.pod_id))
    ∙ build_actions-expected c plan.namespace plan.pod_id

-- For every assessment, when sort.Slice leaves actions whose priorities strictly ascend as they are and
-- neither maximum of retries is negative, the execution of the generated plan logs every action that the
-- classification calls for, on its target and in the order isolation, block, honeytokens. For each of
-- them in that order it calls the injected function on the target at least once, every call but the last
-- fails, and the action is logged as a success exactly if the last one returns nil. It reports that all
-- succeeded exactly when each of the logged actions did.
pub execute_response-generate_response_plan :
    {F : Type 0} (sort : List PlannedAction → List PlannedAction) (assessment : ThreatAssessment F)
    (namespace pod_id : String) (deps : ResponseExecutorDeps) (cfg : ResponseConfig)
    (trace : List Call) (isolation_retries block_retries : ℕ)
    → ((actions : List PlannedAction) → IsAscending 0 actions → sort actions ≡ actions)
    → cfg.isolation_max_retries ≡ pos isolation_retries
    → cfg.ip_block_max_retries ≡ pos block_retries
    → let (result, trace') =
        execute_response deps sort
          (generate_response_plan assessment namespace pod_id)
          assessment.classification
          cfg
          trace in
      (map kind_and_target result.actions ≡ expected assessment.classification namespace pod_id)
      × Carried deps result.actions trace trace'
      × (result.all_succeeded ≡ true
          ↔ All (λ (a : ResponseAction). a.result ≡ success) result.actions)
unfolding execute_response generate_response_plan
execute_response-generate_response_plan sort assessment namespace pod_id deps cfg trace i b sorted
      isolations blocks =
    let c = assessment.classification in
    let plan = generate_response_plan assessment namespace pod_id in
    let same =
      sorted (build_actions c namespace pod_id) (IsAscending-build_actions c namespace pod_id) in
    (
      execute_response-expected sort c plan deps cfg trace sorted refl,
      execute_actions-Carried deps cfg i b isolations blocks plan (sort plan.actions) c [] trace
          (subst (All (IsAimed plan)) (sym same) (build_actions-IsAimed plan c)),
      (none_failed-All _, none_failed_of_All _),
    )
