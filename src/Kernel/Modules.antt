-- ===== src/Kernel/Modules.antt =====
-- Registration, start, stop and health of modules. `quote` is the verb %q of fmt.
use titanops.Common.{ℕ, String, Bool, true, false, Option, none, some, List, [], ◌∷◌, if◌then◌else◌}
use titanops.Common.Dict.{lookup, insert}
use titanops.Common.Text.{◌+◌}
use titanops.Kernel.Types.{
  ModuleState, ModuleEntry, RuntimeKernel, Outcome, returned, panicked, HealthStatus, unhealthy,
}

unfoldable pub new_kernel : String → RuntimeKernel
new_kernel cluster_id = record {
  modules = [];
  subs = [];
  configs = [];
  has_emitter = false;
  cluster_id = cluster_id;
}

unfoldable pub set_module_config : String → String → RuntimeKernel → RuntimeKernel
set_module_config module_id cfg k = record k { configs = insert module_id cfg k.configs }

unfoldable pub module_config : String → RuntimeKernel → Option String
module_config module_id k = lookup module_id k.configs

abbrev pub with_state : ModuleState → ModuleEntry → ModuleEntry
with_state st entry = record entry { state = st }

-- `k.modules[id] = entry`
abbrev pub put : String → ModuleEntry → RuntimeKernel → RuntimeKernel
put id entry k = record k { modules = insert id entry k.modules }

unfoldable pub is_running : ModuleState → Bool
is_running ModuleState.running = true
is_running _ = false

-- The running modules of an order in which the map is walked.
unfoldable pub running_ids : List String → RuntimeKernel → List String
running_ids [] k = []
running_ids (id ∷ ids) k =
    let rest = running_ids ids k in
    elim (lookup id k.modules) [
      | none ↦ rest
      | some entry ↦ if is_running entry.state then id ∷ rest else rest
    ]

unfoldable pub get_module : String → RuntimeKernel → Option String
get_module id k = elim (lookup id k.modules) [
  | none ↦ none
  | some entry ↦ if is_running entry.state then some id else none
]

module _ (quote : String → String) where
  unfoldable pub register : String → String → RuntimeKernel → RuntimeKernel × Option String
  register id version k = elim (lookup id k.modules) [
    | some _ ↦ (k, some ("module " + quote id + " already registered"))
    | none ↦
        (put id (record { version = version; state = ModuleState.registered; started = 0 }) k, none)
  ]

  -- `start id` is the module's `Start`, which is handed the kernel and may call it.
  module _ (start : String → RuntimeKernel → RuntimeKernel × Outcome) (now : ℕ) where
    -- What follows `Start`; `entry` is the copy that was taken before it.
    unfoldable pub after_start :
        String → ModuleEntry → RuntimeKernel × Outcome → RuntimeKernel × Option String
    after_start id entry (k, returned none) = (
      put id (record { version = entry.version; state = ModuleState.running; started = now }) k,
      none,
    )
    after_start id entry (k, returned (some err)) = (
      put id (with_state ModuleState.failed entry) k,
      some ("module " + quote id + " start failed: " + err),
    )
    after_start id entry (k, panicked r) = (
      put id (with_state ModuleState.failed entry) k,
      some ("module " + quote id + " panicked during start: " + r),
    )

    unfoldable pub start_module : String → RuntimeKernel → RuntimeKernel × Option String
    start_module id k = elim (lookup id k.modules) [
      | none ↦ (k, some ("module " + quote id + " not registered"))
      | some entry ↦
          after_start id (with_state ModuleState.starting entry)
            (start id (put id (with_state ModuleState.starting entry) k))
    ]

    -- `errs = append(errs, err)` under its test.
    unfoldable pub with_error : Option String → List String → List String
    with_error none errs = errs
    with_error (some err) errs = err ∷ errs

    -- `ids` are the keys of the map in the order in which it is walked.
    unfoldable pub start_all : List String → RuntimeKernel → RuntimeKernel × List String
    start_all [] k = (k, [])
    start_all (id ∷ ids) k =
        let (k', err) = start_module id k in
        let (k'', errs) = start_all ids k' in (k'', with_error err errs)

-- `stop id` is the module's `Stop`: it is not handed the kernel, but may have kept it.
module _ (stop : String → RuntimeKernel → RuntimeKernel × Outcome) where
  -- The deferred function, which runs whether `Stop` returns or panics.
  unfoldable pub stop_module : String → RuntimeKernel → RuntimeKernel
  stop_module id k = elim (lookup id k.modules) [
    | none ↦ k
    | some entry ↦
        put id (with_state ModuleState.stopped entry)
          (stop id (put id (with_state ModuleState.stopping entry) k)).0
  ]

  unfoldable pub stop_modules : List String → RuntimeKernel → RuntimeKernel
  stop_modules [] k = k
  stop_modules (id ∷ ids) k = stop_modules ids (stop_module id k)

  unfoldable pub stop_all : List String → RuntimeKernel → RuntimeKernel
  stop_all order k = stop_modules (running_ids order k) k

-- A call of `HealthCheck`: its status, or a panic.
pub data Checked : Type 0 where
  answered : HealthStatus → Checked
  crashed : String → Checked

unfoldable pub check_module_health : ℕ → Checked → HealthStatus
check_module_health now (answered status) = status
check_module_health now (crashed r) = record {
  state = unhealthy;
  message = "health check panicked: " + r;
  components = [];
  last_check = now;
}

-- The checks run at once; each fills its own key.
unfoldable pub health_of : (String → Checked) → ℕ → List String → List (String × HealthStatus)
health_of check now [] = []
health_of check now (id ∷ ids) =
    insert id (check_module_health now (check id)) (health_of check now ids)

unfoldable pub health_check_all :
    (String → Checked) → ℕ → List String → RuntimeKernel → List (String × HealthStatus)
health_check_all check now order k = health_of check now (running_ids order k)
