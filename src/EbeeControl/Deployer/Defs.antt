-- ===== src/EbeeControl/Deployer/Defs.antt =====
-- `K8sDeployer` and `InMemoryDeployer`. The client, the identifiers and the clock answer by the calls of the
-- client so far, the newest first; a creation stands there with its outcome.
use titanops.Common.{
  ℕ, String, Bool, true, false, not, Option, none, some, List, [], ◌∷◌, ◌++◌, if◌then◌else◌, str_eq,
}
use titanops.Common.Text.{Strings, first, ◌+◌ as ◌&◌}
use titanops.Common.Dict.{lookup, insert, erase}
use titanops.EbeeControl.Types.{
  HoneytokenSpec, DeploymentRequest, DeployedHoneytoken, DeploymentError,
}
use titanops.EbeeControl.Deployer.Requests.{
  validate_deployment_request, select_remediation_actions, generate_decoy_content,
}

pub record Secret : Type 0 where
  pub namespace : String
  pub name : String
  pub labels : List (String × String)
  pub data_name : String
  pub data_content : String

pub data SecretCall : Type 0 where
  created : String → String → SecretCall
  refused : String → String → SecretCall
  deleted : String → String → SecretCall

-- A creation returns none for nil; what a deletion returns is thrown away.
pub record K8sSecretClient : Type 0 where
  pub create_secret : List SecretCall → Secret → Option String
  pub new_id : List SecretCall → String
  pub now : List SecretCall → ℕ

pub record DeploymentResponse : Type 0 where
  pub success : Bool
  pub deployed_honeytokens : List DeployedHoneytoken
  pub errors : List DeploymentError

pub data DeploymentStatus : Type 0 where
  active : DeploymentStatus
  triggered : DeploymentStatus
  decommissioned : DeploymentStatus
  not_found : DeploymentStatus

abbrev pub Store : Type 0
Store = List (String × DeployedHoneytoken)

unfoldable pub secret_name : String → String
secret_name id = "ebeecontrol-ht-" & first 8 id

abbrev pub refusal : DeploymentRequest → String → List String → DeploymentResponse
refusal req reason actions = record {
  success = false;
  deployed_honeytokens = [];
  errors =
      record { pod_id = req.pod_id; failure_reason = reason; remediation_actions = actions } ∷ [];
}

abbrev pub completed : List DeployedHoneytoken → DeploymentResponse
completed deployed = record { success = true; deployed_honeytokens = deployed; errors = [] }

abbrev pub honeytoken : DeploymentRequest → HoneytokenSpec → String → ℕ → DeployedHoneytoken
honeytoken req spec id now = record {
  honeytoken_id = id;
  pod_id = req.pod_id;
  namespace = req.namespace;
  type_name = spec.type_name;
  file_path = spec.placement;
  deployment_timestamp = now;
}

unfoldable pub roll_back :
    List DeployedHoneytoken → Store → List SecretCall → Store × List SecretCall
roll_back [] store trace = (store, trace)
roll_back (ht ∷ deployed) store trace =
    roll_back deployed (erase ht.honeytoken_id store)
      (deleted ht.namespace (secret_name ht.honeytoken_id) ∷ trace)

module _ (strings : Strings) (client : K8sSecretClient) where
  unfoldable pub secret : DeploymentRequest → HoneytokenSpec → String → Secret
  secret req spec id = record {
    namespace = req.namespace;
    name = secret_name id;
    labels =
        ("app.kubernetes.io/managed-by", "ebeecontrol")
        ∷ ("ebeecontrol.io/honeytoken-id", id)
        ∷ ("ebeecontrol.io/type", spec.type_name)
        ∷ [];
    data_name = spec.name;
    data_content = generate_decoy_content strings spec id;
  }

  -- The loop over the honeytokens, with those already deployed.
  unfoldable pub deploy_each :
      DeploymentRequest
      → List HoneytokenSpec
      → List DeployedHoneytoken
      → Store
      → List SecretCall
      → DeploymentResponse × Store × List SecretCall
  deploy_each req [] deployed store trace = (completed deployed, store, trace)
  deploy_each req (spec ∷ specs) deployed store trace =
      let id = client.new_id trace in
      let name = secret_name id in
      elim (client.create_secret trace (secret req spec id)) [
        | some err ↦
            let (store', trace') = roll_back deployed store (refused req.namespace name ∷ trace) in
            (refusal req err (select_remediation_actions strings err), store', trace')
        | none ↦
            let trace' = created req.namespace name ∷ trace in
            let ht = honeytoken req spec id (client.now trace') in
            deploy_each req specs (deployed ++ ht ∷ []) (insert id ht store) trace'
      ]

  unfoldable pub deploy :
      DeploymentRequest → Store → List SecretCall → DeploymentResponse × Store × List SecretCall
  deploy req store trace =
      let err = validate_deployment_request strings req in
      if not (str_eq err "")
      then (refusal req err ("retry_deployment" ∷ []), store, trace)
      else deploy_each req req.honeytokens [] store trace

unfoldable pub undeploy : String → Store → List SecretCall → Store × List SecretCall
undeploy id store trace = elim (lookup id store) [
  | none ↦ (store, trace)
  | some ht ↦ (erase id store, deleted ht.namespace (secret_name id) ∷ trace)
]

unfoldable pub get_deployment_status : String → Store → DeploymentStatus
get_deployment_status id store = elim (lookup id store) [ none ↦ not_found | some ht ↦ active ]
