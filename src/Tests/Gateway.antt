-- ===== src/Tests/Gateway.antt =====
-- The gateway's theorems at concrete inputs. The floats are numbers here.
use titanops.Common.{ℕ, ◌≡◌, String, some, List, [], ◌∷◌}
use titanops.Common.Int.{pos}
use titanops.Common.Text.{◌+◌}
use titanops.Gateway.Types.{AutonomousAction, OverrideRequest, DeploymentRiskEntry}
use titanops.Gateway.Stores.{get}
use titanops.Gateway.Overrides.{
  OverrideStore, approve_action, reject_action, handle_overrides, is_module_paused,
}
use titanops.Gateway.Trail.{IsAudited, handle_overrides-IsAudited}
use titanops.Gateway.Pausing.{Turn, pause, resume, take_turns, last_word, take_turns-last_word}
use titanops.Gateway.Outcome.{answer_after, decided_actions}

abbrev quote : String → String
quote s = "'" + s + "'"

abbrev action : String → ℕ → AutonomousAction ℕ
action id t = record {
  id = id;
  module_name = "quack";
  action_type = "isolate_pod";
  confidence = 90;
  reasoning = record { observation = ""; analysis = ""; action = ""; alternatives = [] };
  outcome = "pending";
  timestamp = t;
  override_by = "";
}

abbrev store : OverrideStore ℕ
store = record {
  paused_modules = ("tlapix", "ana") ∷ [];
  audit = [];
  actions = action "a1" 10 ∷ action "a2" 20 ∷ action "a3" 30 ∷ [];
}

abbrev approval : OverrideRequest
approval = record { action_id = "a2"; module_id = ""; operation = "approve"; operator_id = "ana" }

handle_overrides-IsAudited_example :
    IsAudited 0 quote 40 approval store (handle_overrides 0 quote 40 "POST" (some approval) store)
handle_overrides-IsAudited_example = handle_overrides-IsAudited 0 quote 40 "POST" approval store

abbrev turns : List Turn
turns = pause 1 "quack" "ana" ∷ pause 2 "quack" "luis" ∷ resume 3 "tlapix" "ana" ∷ []

take_turns-last_word_example :
    is_module_paused "quack" (take_turns 0 quote turns store)
    ≡ last_word "quack" turns (is_module_paused "quack" store)
take_turns-last_word_example = take_turns-last_word 0 quote "quack" turns store

decided_actions_example :
    (get "a2" (approve_action 0 quote 40 "a2" "ana" store).0.actions
      ≡ answer_after "a2" "a2" "success" "ana" (get "a2" store.actions))
    × (get "a2" (reject_action 0 quote 40 "a2" "ana" store).0.actions
        ≡ answer_after "a2" "a2" "rejected" "ana" (get "a2" store.actions))
decided_actions_example = decided_actions 0 quote 40 "a2" "ana" store "a2"

abbrev deployment : String → DeploymentRiskEntry
deployment sha = record {
  service = "api";
  commit_sha = sha;
  deployer = "ana";
  risk_score = pos 40;
  risk_factors = [];
  timestamp = "";
}
