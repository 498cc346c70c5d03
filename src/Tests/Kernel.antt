-- ===== src/Tests/Kernel.antt =====
-- The kernel's theorems at concrete inputs.
use titanops.Common.{
  ◌≡◌, ◌⊎◌, refl, String, true, false, none, some, List, [], ◌∷◌, ◌++◌, length, str_eq, eq_iff,
  if◌then◌else◌,
}
use mathlib.Core.List.{Memᴰ}
use titanops.Kernel.Types.{
  ModuleState, ModuleEntry, EventFilter, RuntimeKernel, Outcome, returned, panicked,
}
use titanops.Kernel.Modules.{start_all, stop_all}
use titanops.Kernel.Events.{subscribe, close, emit}
use titanops.Kernel.States.{state_of}
use titanops.Kernel.Lifecycle.{not_running, IsNodup, KeepsStates, start_all-errors}
use titanops.Kernel.Shutdown.{after_stop, StopKeepsStates, stop_all-after_stop}
use titanops.Kernel.Delivery.{IsWanted, subscribe-close}
use titanops.Tests.Data.{syscall}

abbrev entry : ModuleState → ModuleEntry
entry st = record { version = "v1"; state = st; started = 0 }

abbrev critical_only : EventFilter
critical_only = record { module_name = "tlapix"; event_type = ""; min_severity = "high" }

abbrev kernel : RuntimeKernel
kernel = record {
  modules =
      ("tlapix", entry ModuleState.running)
      ∷ ("quack", entry ModuleState.registered)
      ∷ ("ollinai", entry ModuleState.registered)
      ∷ [];
  subs = record { filter = critical_only; handler = 7; closed = false } ∷ [];
  configs = [];
  has_emitter = true;
  cluster_id = "dev";
}

abbrev quote : String → String
quote s = s

-- The start of "quack" panics, the others start.
abbrev start : String → RuntimeKernel → RuntimeKernel × Outcome
start id k = (k, if str_eq id "quack" then panicked "nil map" else returned none)

start-KeepsStates : KeepsStates quote start 5
start-KeepsStates i j k = refl

abbrev ids : List String
ids = "quack" ∷ "ollinai" ∷ []

ids-IsNodup : IsNodup ids
ids-IsNodup = (((λ e. cc ((eq_iff "ollinai" "quack").1 e)), tt), (tt, tt))

start_all-errors_example :
    let (k', errs) = start_all quote start 5 ids kernel in length errs ≡ not_running ids k'
start_all-errors_example = start_all-errors quote start 5 start-KeepsStates ids kernel ids-IsNodup

-- A `Stop` that fails.
abbrev stop : String → RuntimeKernel → RuntimeKernel × Outcome
stop id k = (k, returned (some "busy"))

stop-StopKeepsStates : StopKeepsStates stop
stop-StopKeepsStates i j k = refl

stop_all-after_stop_example :
    state_of "tlapix" (stop_all stop ("quack" ∷ "tlapix" ∷ []) kernel)
    ≡ after_stop (state_of "tlapix" kernel)
stop_all-after_stop_example =
    stop_all-after_stop stop stop-StopKeepsStates ("quack" ∷ "tlapix" ∷ []) "tlapix" kernel
      (Memᴰ.tail (Memᴰ.head refl))

subscribe-close_example :
    let (k', index) = subscribe critical_only 9 kernel in
    let (started, err) = emit none syscall kernel in
    ((IsWanted critical_only syscall × (emit none syscall k' ≡ (started ++ 9 ∷ [], none)))
      ⊎ ((¬ IsWanted critical_only syscall) × (emit none syscall k' ≡ (started, none))))
    × (emit none syscall (close index k') ≡ (started, err))
    × (err ≡ none)
subscribe-close_example = subscribe-close none syscall critical_only 9 kernel refl
