-- ===== src/Kernel/Types.antt =====
-- The kernel's state. A module's code is not in the state: what its methods do is an argument of the
-- operations that call them. The shared clients that the kernel only passes on have no field.
use titanops.Common.{ℕ, String, Bool, Option, List}

pub data ModuleState : Type 0 where
  registered : ModuleState
  starting : ModuleState
  running : ModuleState
  stopping : ModuleState
  stopped : ModuleState
  failed : ModuleState

pub record ModuleEntry : Type 0 where
  pub version : String
  pub state : ModuleState
  pub started : ℕ

pub record EventFilter : Type 0 where
  pub module_name : String
  pub event_type : String
  pub min_severity : String

-- `handler` names the function that was subscribed.
pub record Subscription : Type 0 where
  pub filter : EventFilter
  pub handler : ℕ
  pub closed : Bool

pub record RuntimeKernel : Type 0 where
  pub modules : List (String × ModuleEntry)
  pub subs : List Subscription
  pub configs : List (String × String)
  pub has_emitter : Bool
  pub cluster_id : String

-- How a call of a module's method ends: `returned none` for a nil error.
pub data Outcome : Type 0 where
  returned : Option String → Outcome
  panicked : String → Outcome

pub data HealthState : Type 0 where
  healthy : HealthState
  degraded : HealthState
  unhealthy : HealthState

pub record ComponentHealth : Type 0 where
  pub state : HealthState
  pub message : String

pub record HealthStatus : Type 0 where
  pub state : HealthState
  pub message : String
  pub components : List (String × ComponentHealth)
  pub last_check : ℕ
