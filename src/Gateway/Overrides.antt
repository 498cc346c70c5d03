-- ===== src/Gateway/Overrides.antt =====
-- `OverrideStore` (gateway/overrides.go), with the two stores that it is wired to as fields, and
-- `handleOverrides` (gateway/handler.go).
use titanops.Common.{ℕ, String, Bool, Option, none, some, List, str_eq, if◌then◌else◌}
use titanops.Common.Dict.{insert, erase, has}
use titanops.Common.Text.{◌+◌}
use titanops.Gateway.Types.{AutonomousAction, AuditEntry, OverrideRequest}
use titanops.Gateway.Stores.{get, update_outcome, record_override}

pub record OverrideStore (F : Type 0) : Type 0 where
  pub paused_modules : List (String × String)
  pub audit : List (AuditEntry F)
  pub actions : List (AutonomousAction F)

-- What the handler writes: an error's status and text, or status 200 with the operation.
pub data Response : Type 0 where
  failed : ℕ → String → Response
  ok : String → Response

-- `quote` is the verb %q of fmt, and `zero_f` the zero of float64.
module _ {F : Type 0} (zero_f : F) (quote : String → String) where
  unfoldable pub not_found : String → String
  not_found action_id = "action " + quote action_id + " not found"

  -- `ApproveAction` and `RejectAction` once they have found the action; they differ in their words.
  unfoldable pub decided :
      String
      → String
      → String
      → ℕ
      → String
      → String
      → OverrideStore F
      → AutonomousAction F
      → OverrideStore F
  decided action_outcome operation outcome now action_id operator_id s action = record {
    paused_modules = s.paused_modules;
    audit =
        record_override zero_f now
          (record {
            action_id = action_id;
            module_id = action.module_name;
            operation = operation;
            operator_id = operator_id;
          })
          outcome s.audit;
    actions = update_outcome action_id action_outcome operator_id s.actions;
  }

  unfoldable pub decide :
      String
      → String
      → String
      → ℕ
      → String
      → String
      → OverrideStore F
      → OverrideStore F × Option String
  decide action_outcome operation outcome now action_id operator_id s =
      elim (get action_id s.actions) [
        | none ↦ (s, some (not_found action_id))
        | some action ↦
            (decided action_outcome operation outcome now action_id operator_id s action, none)
      ]

  unfoldable pub approve_action :
      ℕ → String → String → OverrideStore F → OverrideStore F × Option String
  approve_action = decide "success" "approve" "approved"

  unfoldable pub reject_action :
      ℕ → String → String → OverrideStore F → OverrideStore F × Option String
  reject_action = decide "rejected" "reject" "rejected"

  unfoldable pub pause_module :
      ℕ → String → String → OverrideStore F → OverrideStore F × Option String
  pause_module now module_id operator_id s = (
    record {
      paused_modules = insert module_id operator_id s.paused_modules;
      audit =
          record_override zero_f now
            (record {
              action_id = "";
              module_id = module_id;
              operation = "pause";
              operator_id = operator_id;
            })
            "paused" s.audit;
      actions = s.actions;
    },
    none,
  )

  unfoldable pub resume_module :
      ℕ → String → String → OverrideStore F → OverrideStore F × Option String
  resume_module now module_id operator_id s = (
    record {
      paused_modules = erase module_id s.paused_modules;
      audit =
          record_override zero_f now
            (record {
              action_id = "";
              module_id = module_id;
              operation = "resume";
              operator_id = operator_id;
            })
            "resumed" s.audit;
      actions = s.actions;
    },
    none,
  )

  -- The end of the handler: an error is a 404.
  unfoldable pub answer : String → OverrideStore F × Option String → OverrideStore F × Response
  answer operation (s, none) = (s, ok operation)
  answer operation (s, some err) = (s, failed 404 err)

  -- The switch over the operation.
  unfoldable pub perform : ℕ → OverrideRequest → OverrideStore F → OverrideStore F × Response
  perform now req s =
      if str_eq req.operation "approve"
      then (if str_eq req.action_id ""
          then (s, failed 400 "action_id is required for approve")
          else answer req.operation (approve_action now req.action_id req.operator_id s))
      else if str_eq req.operation "reject"
      then (if str_eq req.action_id ""
          then (s, failed 400 "action_id is required for reject")
          else answer req.operation (reject_action now req.action_id req.operator_id s))
      else if str_eq req.operation "pause"
      then (if str_eq req.module_id ""
          then (s, failed 400 "module_id is required for pause")
          else answer req.operation (pause_module now req.module_id req.operator_id s))
      else if str_eq req.operation "resume"
      then (if str_eq req.module_id ""
          then (s, failed 400 "module_id is required for resume")
          else answer req.operation (resume_module now req.module_id req.operator_id s))
      else (s, failed 400 "invalid operation: must be approve, reject, pause, or resume")

  -- `body` is what the JSON decoder makes of the request's body.
  unfoldable pub handle_overrides :
      ℕ → String → Option OverrideRequest → OverrideStore F → OverrideStore F × Response
  handle_overrides now method body s =
      if str_eq method "POST"
      then elim body [
        | none ↦ (s, failed 400 "invalid request body")
        | some req ↦
            if str_eq req.operator_id ""
            then (s, failed 400 "operator_id is required")
            else perform now req s
      ]
      else (s, failed 405 "method not allowed")

module _ {F : Type 0} where
  unfoldable pub is_module_paused : String → OverrideStore F → Bool
  is_module_paused module_id s = has module_id s.paused_modules
