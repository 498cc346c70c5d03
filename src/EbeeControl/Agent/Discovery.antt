-- ===== src/EbeeControl/Agent/Discovery.antt =====
-- `executeDiscovery`: the services that are found, a deployment for each of their pods, and what is then
-- registered and watched. `D` is the state of the deployer that the agent was given.
use titanops.Common.{ℕ, ◌+◌, String, Option, none, some, List, [], ◌∷◌, length, if◌then◌else◌}
use titanops.Common.Int.{ℤ}
use titanops.Common.Text.{◌+◌ as ◌&◌}
use titanops.EbeeControl.Types.{deployment, HoneytokenSpec, DeploymentRequest, DeployedHoneytoken}
use titanops.EbeeControl.Deployer.{DeploymentResponse}
use titanops.EbeeControl.Monitor.{TetragonMonitor, register_path}
use titanops.EbeeControl.Agent.Registry.{Entries, AuditLog, register, log}

pub record HighRiskService (F : Type 0) : Type 0 where
  pub service_id : String
  pub service_name : String
  pub namespace : String
  pub pod_identifiers : List String
  pub risk_score : F

-- The interface `Deployer`; none is an error.
pub record Deployer (D : Type 0) : Type 0 where
  pub deploy : DeploymentRequest → D → Option DeploymentResponse × D

pub record Discovery (D : Type 0) : Type 0 where
  pub deployer : D
  pub registry : Entries
  pub monitor : TetragonMonitor
  pub audit_log : AuditLog
  pub total_deployed : ℕ
  pub total_failed : ℕ

unfoldable pub generate_honeytoken_specs : {F : Type 0} → HighRiskService F → List HoneytokenSpec
generate_honeytoken_specs svc =
    record {
      type_name = "decoy_secret";
      name = "service-account-token";
      placement = "/var/run/secrets/" & svc.service_name & "/token";
      content = "";
    }
    ∷ record {
      type_name = "decoy_file";
      name = "aws-credentials";
      placement = "/home/app/.aws/credentials-" & svc.service_name;
      content = "";
    }
    ∷ []

-- The loop over the honeytokens of a response.
unfoldable pub register_all :
    List DeployedHoneytoken → Entries → TetragonMonitor → Entries × TetragonMonitor
register_all [] registry monitor = (registry, monitor)
register_all (ht ∷ deployed) registry monitor =
    register_all deployed (register ht registry) (register_path monitor ht.file_path)

-- What the loop does with the answer of the deployer.
unfoldable pub settle : {D : Type 0} → D → Option DeploymentResponse → Discovery D → Discovery D
settle deployer none d = record d { deployer = deployer; total_failed = d.total_failed + 1 }
settle deployer (some resp) d =
    let (registry, monitor) = register_all resp.deployed_honeytokens d.registry d.monitor in
    if resp.success
    then record d {
      deployer = deployer;
      registry = registry;
      monitor = monitor;
      total_deployed = d.total_deployed + length resp.deployed_honeytokens;
    }
    else record d { deployer = deployer; total_failed = d.total_failed + 1 }

module _ {F D : Type 0} (client : Deployer D) where
  unfoldable pub deploy_to_pod : HighRiskService F → String → Discovery D → Discovery D
  deploy_to_pod svc pod_id d =
      let (response, deployer) =
        client.deploy
          (record {
            pod_id = pod_id;
            namespace = svc.namespace;
            honeytokens = generate_honeytoken_specs svc;
          })
          d.deployer in
      settle deployer response d

  unfoldable pub deploy_to_pods : HighRiskService F → List String → Discovery D → Discovery D
  deploy_to_pods svc [] d = d
  deploy_to_pods svc (pod_id ∷ pods) d = deploy_to_pods svc pods (deploy_to_pod svc pod_id d)

  unfoldable pub deploy_to_services : List (HighRiskService F) → Discovery D → Discovery D
  deploy_to_services [] d = d
  deploy_to_services (svc ∷ services) d =
      deploy_to_services services (deploy_to_pods svc svc.pod_identifiers d)

  -- `found` is what the query returns, none for an error; `sort` is sort.Slice by the risk score.
  unfoldable pub execute_discovery :
      (List (HighRiskService F) → List (HighRiskService F))
      → (ℕ → String)
      → String
      → ℕ
      → ℤ
      → Option (List (HighRiskService F))
      → Discovery D
      → Discovery D
  execute_discovery sort print_int entry_id now retention_days none d = d
  execute_discovery sort print_int entry_id now retention_days (some []) d = d
  execute_discovery sort print_int entry_id now retention_days (some (svc ∷ services)) d =
      let found = svc ∷ services in
      let count = print_int (length found) in
      let d' =
        deploy_to_services (sort found) (record d { total_deployed = 0; total_failed = 0 }) in
      record d' {
        audit_log =
            log
              (record {
                entry_id = entry_id;
                timestamp = now;
                decision_type = deployment;
                decision_rationale =
                    "Deployed honeytokens after discovery cycle (" & count & " services found)";
                input_data_summary =
                    "services="
                    & count
                    & " deployed="
                    & print_int d'.total_deployed
                    & " failed="
                    & print_int d'.total_failed;
                outcome = "Deployed " & print_int d'.total_deployed & " honeytokens total";
                retention_days = retention_days;
              })
              d'.audit_log;
      }
