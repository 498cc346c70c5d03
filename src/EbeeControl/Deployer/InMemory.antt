-- ===== src/EbeeControl/Deployer/InMemory.antt =====
-- `InMemoryDeployer`: the deployer without a cluster. The identifiers and the clock answer by the number of
-- calls before.
use titanops.Common.{ℕ, suc, String, not, List, [], ◌∷◌, ◌++◌, if◌then◌else◌, str_eq}
use titanops.Common.Text.{Strings}
use titanops.Common.Dict.{insert, erase}
use titanops.EbeeControl.Types.{HoneytokenSpec, DeploymentRequest, DeployedHoneytoken}
use titanops.EbeeControl.Deployer.Requests.{validate_deployment_request}
use titanops.EbeeControl.Deployer.Defs.{DeploymentResponse, Store, refusal, completed, honeytoken}

module _ (strings : Strings) (new_id : ℕ → String) (now : ℕ → ℕ) where
  unfoldable pub store_each :
      DeploymentRequest
      → List HoneytokenSpec
      → List DeployedHoneytoken
      → Store
      → ℕ
      → DeploymentResponse × Store
  store_each req [] deployed store calls = (completed deployed, store)
  store_each req (spec ∷ specs) deployed store calls =
      let ht = honeytoken req spec (new_id calls) (now calls) in
      store_each req specs (deployed ++ ht ∷ []) (insert ht.honeytoken_id ht store) (suc calls)

  unfoldable pub deploy_in_memory : DeploymentRequest → Store → ℕ → DeploymentResponse × Store
  deploy_in_memory req store calls =
      let err = validate_deployment_request strings req in
      if not (str_eq err "")
      then (refusal req err ("retry_deployment" ∷ []), store)
      else store_each req req.honeytokens [] store calls

unfoldable pub undeploy_in_memory : String → Store → Store
undeploy_in_memory id store = erase id store
