-- ===== src/EbeeControl/Agent/Reachable.antt =====
-- The states of the registry and the monitor that the agent reaches.
use titanops.Common.{ℕ, ◌≡◌, sym, Bool, String, Option, some, List, []}
use titanops.Common.Int.{ℤ}
use titanops.Common.Text.{Strings}
use titanops.Common.Dict.{lookup}
use mathlib.Core.Path.{subst}
use titanops.EbeeControl.Monitor.{
  TetragonKprobeEvent, TetragonMonitor, new_tetragon_monitor, on_event, handle_raw_event,
}
use titanops.EbeeControl.Monitor.Delivery.{handle_keeps}
use titanops.EbeeControl.Agent.Registry.{Entries, mark_triggered}
use titanops.EbeeControl.Agent.Discovery.{HighRiskService, Deployer, Discovery, execute_discovery}
use titanops.EbeeControl.Agent.Watched.{
  IsWatched, IsRange, execute_discovery-IsWatched, mark_triggered-IsWatched,
}

module _ (F : Type 0) {D : Type 0} (client : Deployer D) (strings : Strings)
    (order : Entries → Entries) where
  -- A new agent; a discovery cycle; the start of a workflow; a subscription; a raw event.
  pub data IsReachable : Entries → TetragonMonitor → Type 0 where
    started :
        (capacity : ℤ) (simulation : Bool)
        → IsReachable [] (new_tetragon_monitor capacity simulation)
    discovered :
        (sort : List (HighRiskService F) → List (HighRiskService F)) (print_int : ℕ → String)
        (entry_id : String) (now : ℕ) (retention_days : ℤ)
        (found : Option (List (HighRiskService F))) (d : Discovery D)
        → IsReachable d.registry d.monitor
        → IsReachable
            (execute_discovery client sort print_int entry_id now retention_days found d).registry
            (execute_discovery client sort print_int entry_id now retention_days found d).monitor
    accessed :
        (pod_id path : String) (time : ℕ) (registry : Entries) (m : TetragonMonitor)
        → IsReachable registry m
        → IsReachable (mark_triggered order pod_id path time registry) m
    subscribed :
        (callback : String) (registry : Entries) (m : TetragonMonitor)
        → IsReachable registry m
        → IsReachable registry (on_event m callback)
    observed :
        (id : String) (raw : TetragonKprobeEvent) (registry : Entries) (m : TetragonMonitor)
        → IsReachable registry m
        → IsReachable registry (handle_raw_event strings id raw m).0

  -- When the iteration of a map meets nothing but its entries, then in every state that the agent reaches
  -- by discovery cycles, workflows, subscriptions and raw events, the registry has no honeytoken twice and
  -- the monitor watches the path of every one that it has.
  pub IsReachable-IsWatched :
      (registry : Entries) (m : TetragonMonitor)
      → IsRange order
      → IsReachable registry m
      → IsWatched registry m
  unfolding new_tetragon_monitor on_event lookup
  IsReachable-IsWatched registry m range (started capacity simulation) = (tt, λ id entry found. cc)
  IsReachable-IsWatched registry m range
        (discovered sort print_int entry_id now days services d r) =
      execute_discovery-IsWatched client sort print_int entry_id now days services d
        (IsReachable-IsWatched d.registry d.monitor range r)
  IsReachable-IsWatched registry m range (accessed pod_id path time registry' m' r) =
      mark_triggered-IsWatched order pod_id path time registry' m' range
        (IsReachable-IsWatched registry' m' range r)
  IsReachable-IsWatched registry m range (subscribed callback registry' m' r) =
      IsReachable-IsWatched registry' m' range r
  IsReachable-IsWatched registry m range (observed id raw registry' m' r) =
      let (dict, watched) = IsReachable-IsWatched registry' m' range r in
      (
        dict,
        λ id' entry found.
            subst (λ paths. lookup entry.file_path paths ≡ some tt)
              (sym (handle_keeps strings id raw m').0) (watched id' entry found),
      )
