-- ===== src/EbeeControl/Agent/Watched.antt =====
-- Every honeytoken of the registry is watched by the monitor.
use titanops.Common.{
  ℕ, ◌≡◌, refl, String, Bool, true, false, ◌&&◌, Option, none, some, List, [], ◌∷◌, All, arith,
  eq_iff, Bool-cases, inl, inr, if◌then◌else◌, str_eq,
}
use mathlib.Core.Path.{subst}
use titanops.Common.Int.{ℤ}
use titanops.Common.Dict.{lookup, lookup-insert, IsDict, insert-IsDict}
use titanops.EbeeControl.Types.{HoneytokenRegistryEntry, DeployedHoneytoken}
use titanops.EbeeControl.Deployer.{DeploymentResponse}
use titanops.EbeeControl.Monitor.{TetragonMonitor, register_path}
use titanops.EbeeControl.Agent.Registry.{
  Entries, entry_of, register, find, triggered_at, mark_triggered,
}
use titanops.EbeeControl.Agent.Discovery.{
  HighRiskService, Deployer, Discovery, register_all, settle, deploy_to_pod, deploy_to_pods,
  deploy_to_services, execute_discovery,
}

-- The registry has no identifier twice, and the monitor has the path of each of its entries.
abbrev pub IsWatched : Entries → TetragonMonitor → Type 0
IsWatched registry m =
    IsDict registry
    × ((id : String) (entry : HoneytokenRegistryEntry)
        → lookup id registry ≡ some entry
        → lookup entry.file_path m.registered_paths ≡ some tt)

register-IsWatched :
    (ht : DeployedHoneytoken) (registry : Entries) (m : TetragonMonitor)
    → IsWatched registry m
    → IsWatched (register ht registry) (register_path m ht.file_path)
unfolding register register_path entry_of
register-IsWatched ht registry m w = (
  insert-IsDict ht.honeytoken_id (entry_of ht) registry w.0,
  λ id entry found. ground (
    arith,
    lookup-insert ht.honeytoken_id id (entry_of ht) registry,
    lookup-insert ht.file_path entry.file_path tt m.registered_paths,
    w.1 id entry,
    eq_iff ht.file_path entry.file_path,
    found,
  ),
)

register_all-IsWatched :
    (deployed : List DeployedHoneytoken) (registry : Entries) (m : TetragonMonitor)
    → IsWatched registry m
    → let (registry', m') = register_all deployed registry m in IsWatched registry' m'
unfolding register_all
register_all-IsWatched [] registry m w = w
register_all-IsWatched (ht ∷ deployed) registry m w =
    register_all-IsWatched deployed (register ht registry) (register_path m ht.file_path)
      (register-IsWatched ht registry m w)

settle-IsWatched :
    {D : Type 0} (deployer : D) (answer : Option DeploymentResponse) (d : Discovery D)
    → IsWatched d.registry d.monitor
    → let d' = settle deployer answer d in IsWatched d'.registry d'.monitor
unfolding settle
settle-IsWatched {D} deployer none d w = w
settle-IsWatched {D} deployer (some resp) d w =
    either resp.success _ _
      (register_all-IsWatched resp.deployed_honeytokens d.registry d.monitor w) w
  where
    either :
        (b : Bool) (x y : Discovery D)
        → IsWatched x.registry x.monitor
        → IsWatched y.registry y.monitor
        → let z = if b then x else y in IsWatched z.registry z.monitor
    either true x y wx wy = wx
    either false x y wx wy = wy

module _ {F D : Type 0} (client : Deployer D) where
  deploy_to_pod-IsWatched :
      (svc : HighRiskService F) (pod_id : String) (d : Discovery D)
      → IsWatched d.registry d.monitor
      → let d' = deploy_to_pod client svc pod_id d in IsWatched d'.registry d'.monitor
  unfolding deploy_to_pod
  deploy_to_pod-IsWatched svc pod_id d w = settle-IsWatched _ _ d w

  deploy_to_pods-IsWatched :
      (svc : HighRiskService F) (pods : List String) (d : Discovery D)
      → IsWatched d.registry d.monitor
      → let d' = deploy_to_pods client svc pods d in IsWatched d'.registry d'.monitor
  unfolding deploy_to_pods
  deploy_to_pods-IsWatched svc [] d w = w
  deploy_to_pods-IsWatched svc (pod_id ∷ pods) d w =
      deploy_to_pods-IsWatched svc pods (deploy_to_pod client svc pod_id d)
        (deploy_to_pod-IsWatched svc pod_id d w)

  deploy_to_services-IsWatched :
      (services : List (HighRiskService F)) (d : Discovery D)
      → IsWatched d.registry d.monitor
      → let d' = deploy_to_services client services d in IsWatched d'.registry d'.monitor
  unfolding deploy_to_services
  deploy_to_services-IsWatched [] d w = w
  deploy_to_services-IsWatched (svc ∷ services) d w =
      deploy_to_services-IsWatched services (deploy_to_pods client svc svc.pod_identifiers d)
        (deploy_to_pods-IsWatched svc svc.pod_identifiers d w)

  pub execute_discovery-IsWatched :
      (sort : List (HighRiskService F) → List (HighRiskService F)) (print_int : ℕ → String)
      (entry_id : String) (now : ℕ) (retention_days : ℤ) (found : Option (List (HighRiskService F)))
      (d : Discovery D)
      → IsWatched d.registry d.monitor
      → let d' = execute_discovery client sort print_int entry_id now retention_days found d in
        IsWatched d'.registry d'.monitor
  unfolding execute_discovery
  execute_discovery-IsWatched sort print_int entry_id now retention_days none d w = w
  execute_discovery-IsWatched sort print_int entry_id now retention_days (some []) d w = w
  execute_discovery-IsWatched sort print_int entry_id now retention_days (some (svc ∷ services)) d
        w =
      deploy_to_services-IsWatched (sort (svc ∷ services)) _ w

-- An iteration of a map meets what the map holds.
abbrev pub IsRange : (Entries → Entries) → Type 0
IsRange order =
    (m : Entries)
    → IsDict m
    → All (λ (e : String × HoneytokenRegistryEntry). lookup e.0 m ≡ some e.1) (order m)

find_sound :
    (pod_id path : String) (m xs : Entries) (e : String × HoneytokenRegistryEntry)
    → All (λ (x : String × HoneytokenRegistryEntry). lookup x.0 m ≡ some x.1) xs
    → find pod_id path xs ≡ some e
    → lookup e.0 m ≡ some e.1
unfolding find
find_sound pod_id path m [] e inside found = cc
find_sound pod_id path m ((id, entry) ∷ xs) e (here, behind) found =
    elim (Bool-cases (str_eq entry.pod_id pod_id && str_eq entry.file_path path)) [
      | inl is ↦
          let met : some (id, entry) ≡ some e = rw (is, find) at found in
          let same : (id, entry) ≡ e = ground (arith, met) in
          subst (λ (x : String × HoneytokenRegistryEntry). lookup x.0 m ≡ some x.1) same here
      | inr other ↦ find_sound pod_id path m xs e behind (rw (other, find) at found)
    ]

pub mark_triggered-IsWatched :
    (order : Entries → Entries) (pod_id path : String) (time : ℕ) (registry : Entries)
    (m : TetragonMonitor)
    → IsRange order
    → IsWatched registry m
    → IsWatched (mark_triggered order pod_id path time registry) m
unfolding mark_triggered triggered_at
mark_triggered-IsWatched order pod_id path time registry m range w =
    go (find pod_id path (order registry)) refl
  where
    go :
        (o : Option (String × HoneytokenRegistryEntry))
        → find pod_id path (order registry) ≡ o
        → IsWatched (mark_triggered order pod_id path time registry) m
    go none e = rw (e, mark_triggered) w
    go (some (k, old)) e =
        let held =
          find_sound pod_id path registry (order registry) (k, old) (range registry w.0) e in
        rw (e, mark_triggered)
          (
            insert-IsDict k (triggered_at time old) registry w.0,
            λ id entry found. ground (
              arith,
              found,
              lookup-insert k id (triggered_at time old) registry,
              w.1 k old held,
              w.1 id entry,
            ),
          )
