-- ===== src/Gateway/Stores.antt =====
-- The stores of gateway/stores.go and gateway/audit.go: each is the slice that it guards.
use titanops.Common.{
  ℕ, ◌-◌, String, Bool, not, ◌&&◌, ◌||◌, Option, none, some, List, [], ◌∷◌, ◌++◌, length, drop,
  select, str_eq, ltb, ◌==◌, if◌then◌else◌,
}
use titanops.Common.Int.{ℤ, pos, ltb_ℤ, pos_part}
use titanops.Gateway.Types.{
  ModuleHealth, AutonomousAction, AuditEntry, AuditFilter, OverrideRequest, DeploymentRiskEntry,
}

abbrev operational : ℕ → String → ModuleHealth
operational now m = record { module_name = m; status = "operational"; since = now }

unfoldable pub new_health_store : ℕ → List ModuleHealth
new_health_store now =
    operational now "earthworm"
    ∷ operational now "tlapix"
    ∷ operational now "ebeecontrol"
    ∷ operational now "quack"
    ∷ []

-- `HealthStore.Update`, at the time `now`.
unfoldable pub update : ℕ → String → String → List ModuleHealth → List ModuleHealth
update now m status [] = []
update now m status (h ∷ hs) =
    if str_eq h.module_name m
    then record { module_name = h.module_name; status = status; since = now } ∷ hs
    else h ∷ update now m status hs

-- The entries of a slice from the last `limit` on; a slice without a positive limit is whole.
unfoldable pub last_of {ℓ} : {A : Type ℓ} → ℤ → List A → List A
last_of limit l =
    if ltb_ℤ (pos 0) limit && ltb (pos_part limit) (length l)
    then drop (length l - pos_part limit) l
    else l

-- `OllinAIStore.AddDeployment` and `RecentDeployments`.
unfoldable pub add_deployment :
    DeploymentRiskEntry → List DeploymentRiskEntry → List DeploymentRiskEntry
add_deployment entry deployments = deployments ++ entry ∷ []

unfoldable pub recent_deployments : ℤ → List DeploymentRiskEntry → List DeploymentRiskEntry
recent_deployments limit deployments =
    if not (ltb_ℤ (pos 0) limit) || length deployments == 0
    then []
    else let start : ℕ =
        if ltb (pos_part limit) (length deployments)
        then length deployments - pos_part limit
        else 0 in
      drop start deployments

module _ {F : Type 0} where
  -- `ActionStore`.
  unfoldable pub add : AutonomousAction F → List (AutonomousAction F) → List (AutonomousAction F)
  add action actions = actions ++ action ∷ []

  unfoldable pub get : String → List (AutonomousAction F) → Option (AutonomousAction F)
  get action_id [] = none
  get action_id (a ∷ actions) = if str_eq a.id action_id then some a else get action_id actions

  unfoldable pub recent : ℤ → ℕ → List (AutonomousAction F) → List (AutonomousAction F)
  recent limit since actions =
      last_of limit (select (λ a. not (not (since == 0) && ltb a.timestamp since)) actions)

  unfoldable pub update_outcome :
      String → String → String → List (AutonomousAction F) → List (AutonomousAction F)
  update_outcome action_id outcome operator_id [] = []
  update_outcome action_id outcome operator_id (a ∷ actions) =
      if str_eq a.id action_id
      then record {
        id = a.id;
        module_name = a.module_name;
        action_type = a.action_type;
        confidence = a.confidence;
        reasoning = a.reasoning;
        outcome = outcome;
        timestamp = a.timestamp;
        override_by = operator_id;
      }
        ∷ actions
      else a ∷ update_outcome action_id outcome operator_id actions

  -- `AuditStore`.
  unfoldable pub record_action : AutonomousAction F → List (AuditEntry F) → List (AuditEntry F)
  record_action action entries =
      entries
      ++ record {
        timestamp = action.timestamp;
        module_name = action.module_name;
        action_type = action.action_type;
        trigger_event = action.reasoning.observation;
        confidence = action.confidence;
        reasoning = action.reasoning.analysis;
        outcome = action.outcome;
        operator_id = "";
      }
        ∷ []

  -- The entry that `RecordOverride` writes at the time `now`.
  unfoldable pub override_entry : F → ℕ → OverrideRequest → String → AuditEntry F
  override_entry zero_f now req outcome = record {
    timestamp = now;
    module_name = req.module_id;
    action_type = req.operation;
    trigger_event = "";
    confidence = zero_f;
    reasoning = "operator override";
    outcome = outcome;
    operator_id = req.operator_id;
  }

  unfoldable pub record_override :
      F → ℕ → OverrideRequest → String → List (AuditEntry F) → List (AuditEntry F)
  record_override zero_f now req outcome entries =
      entries ++ override_entry zero_f now req outcome ∷ []

  -- The loop of `Query` passes over an entry.
  unfoldable pub skips : AuditFilter → AuditEntry F → Bool
  skips filter entry =
      (not (filter.since == 0) && ltb entry.timestamp filter.since)
      || ((not (str_eq filter.module_name "") && not (str_eq entry.module_name filter.module_name))
          || (not (str_eq filter.action_type "")
              && not (str_eq entry.action_type filter.action_type)))

  unfoldable pub query : AuditFilter → List (AuditEntry F) → List (AuditEntry F)
  query filter entries = select (λ entry. not (skips filter entry)) entries
