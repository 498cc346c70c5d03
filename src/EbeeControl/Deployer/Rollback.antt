-- ===== src/EbeeControl/Deployer/Rollback.antt =====
-- A deployment that fails halfway leaves the store and the cluster as they were.
use titanops.Common.{
  ◌≡◌, ◌≢◌, inl, inr, refl, ◌∙◌, sym, ap, String, true, false, Option, none, some, List, [], ◌∷◌,
  ◌++◌, map, append_nil, Bool-cases, str_eq,
}
use mathlib.Core.Path.{subst}
use titanops.Common.Text.{Strings}
use titanops.Common.Dict.{lookup, insert}
use titanops.EbeeControl.Deployer.Restores.{
  is_live, lookup-roll_back, is_live-roll_back, Restores, Restores-insert,
}
use titanops.EbeeControl.Types.{HoneytokenSpec, DeploymentRequest, DeployedHoneytoken}
use titanops.EbeeControl.Deployer.Requests.{validate_deployment_request, select_remediation_actions}
use titanops.EbeeControl.Deployer.Defs.{
  Secret, SecretCall, created, refused, K8sSecretClient, DeploymentResponse, Store, secret_name,
  refusal, completed, honeytoken, roll_back, secret, deploy_each, deploy,
}

-- What a honeytoken shows of its request.
abbrev pub placed : DeployedHoneytoken → String × String × String × String
placed ht = (ht.type_name, ht.file_path, ht.pod_id, ht.namespace)

abbrev pub asked : DeploymentRequest → HoneytokenSpec → String × String × String × String
asked req spec = (spec.type_name, spec.placement, req.pod_id, req.namespace)

-- How a deployment ends: with every honeytoken that was asked for, or with one error and nothing of it
-- in the store or in the cluster.
pub data IsAllOrNothing (req : DeploymentRequest) (store₀ : Store) (trace₀ : List SecretCall)
    : DeploymentResponse × Store × List SecretCall → Type 0 where
  everything :
      (deployed : List DeployedHoneytoken) (store : Store) (trace : List SecretCall)
      → map placed deployed ≡ map (asked req) req.honeytokens
      → IsAllOrNothing req store₀ trace₀ (completed deployed, store, trace)
  nothing :
      (reason : String) (actions : List String) (store : Store) (trace : List SecretCall)
      → ((id : String) → lookup id store ≡ lookup id store₀)
      → ((ns name : String) → is_live ns name trace ≡ is_live ns name trace₀)
      → IsAllOrNothing req store₀ trace₀ (refusal req reason actions, store, trace)

map-append_one :
    {A B : Type 0} (f : A → B) (xs : List A) (x : A) (ys : List B)
    → map f (xs ++ x ∷ []) ++ ys ≡ map f xs ++ f x ∷ ys
map-append_one f [] x ys = refl
map-append_one f (z ∷ xs) x ys = ap (λ rest. f z ∷ rest) (map-append_one f xs x ys)

module _ (strings : Strings) (client : K8sSecretClient) (req : DeploymentRequest) (store₀ : Store)
    (trace₀ : List SecretCall) where
  failed :
      (reason : String) (actions : List String) (name : String) (deployed : List DeployedHoneytoken)
      (store : Store) (trace : List SecretCall)
      → Restores store₀ trace₀ deployed store trace
      → let (store', trace') = roll_back deployed store (refused req.namespace name ∷ trace) in
        IsAllOrNothing req store₀ trace₀ (refusal req reason actions, store', trace')
  unfolding is_live
  failed reason actions name deployed store trace r =
      nothing reason actions _ _
        (λ id.
          lookup-roll_back id deployed store (refused req.namespace name ∷ trace) ∙ r.stored id)
        (λ ns nm.
          is_live-roll_back ns nm deployed store (refused req.namespace name ∷ trace)
          ∙ r.live ns nm)

  -- A secret that the cluster creates was not there.
  created_absent :
      ((calls : List SecretCall) (s : Secret)
        → is_live s.namespace s.name calls ≡ true
        → client.create_secret calls s ≢ none)
      → (trace : List SecretCall) (spec : HoneytokenSpec) (id : String)
      → client.create_secret trace (secret strings client req spec id) ≡ none
      → is_live req.namespace (secret_name id) trace ≡ false
  unfolding secret
  created_absent taken trace spec id e =
      elim (Bool-cases (is_live req.namespace (secret_name id) trace)) [
        | inl live ↦ absurd (taken trace (secret strings client req spec id) live e)
        | inr absent ↦ absent
      ]

  deploy_each-IsAllOrNothing :
      ((calls : List SecretCall) → lookup (client.new_id calls) store₀ ≡ none)
      → ((calls : List SecretCall) (s : Secret)
          → is_live s.namespace s.name calls ≡ true
          → client.create_secret calls s ≢ none)
      → (specs : List HoneytokenSpec) (deployed : List DeployedHoneytoken) (store : Store)
        (trace : List SecretCall)
      → map placed deployed ++ map (asked req) specs ≡ map (asked req) req.honeytokens
      → Restores store₀ trace₀ deployed store trace
      → IsAllOrNothing req store₀ trace₀ (deploy_each strings client req specs deployed store trace)
  unfolding deploy_each
  deploy_each-IsAllOrNothing fresh taken [] deployed store trace split r =
      everything deployed store trace (sym (append_nil _) ∙ split)
  deploy_each-IsAllOrNothing fresh taken (spec ∷ specs) deployed store trace split r =
      go (client.create_secret trace (secret strings client req spec id)) refl (λ absent.
        deploy_each-IsAllOrNothing fresh taken specs (deployed ++ ht ∷ []) (insert id ht store)
          trace' (map-append_one placed deployed ht (map (asked req) specs) ∙ split)
          (Restores-insert store₀ trace₀ deployed store trace ht (fresh trace) absent r))
    where
      id : String
      id = client.new_id trace

      trace' : List SecretCall
      trace' = created req.namespace (secret_name id) ∷ trace

      ht : DeployedHoneytoken
      ht = honeytoken req spec id (client.now trace')

      P : DeploymentResponse × Store × List SecretCall → Type 0
      P = IsAllOrNothing req store₀ trace₀

      go :
          (o : Option String)
          → client.create_secret trace (secret strings client req spec id) ≡ o
          → (is_live req.namespace (secret_name id) trace ≡ false
              → P (
                  deploy_each strings client req specs
                    (deployed ++ ht ∷ [])
                    (insert id ht store)
                    trace'))
          → P (deploy_each strings client req (spec ∷ specs) deployed store trace)
      go none e rest =
          let absent : is_live req.namespace (secret_name id) trace ≡ false =
            created_absent taken trace spec id e in
          let same : deploy_each strings client req (spec ∷ specs) deployed store trace
              ≡ deploy_each strings client req specs (deployed ++ ht ∷ []) (insert id ht store)
                  trace' =
            rw (e, deploy_each) refl in
          subst P (sym same) (rest absent)
      go (some err) e rest =
          let same : deploy_each strings client req (spec ∷ specs) deployed store trace ≡ _ =
            rw (e, deploy_each) refl in
          subst P (sym same) (
            failed err (select_remediation_actions strings err) (secret_name id) deployed store
              trace r)

  -- When no new identifier stands in the store yet, and the cluster refuses a secret whose name it has, a
  -- deployment either succeeds with one honeytoken for each of those asked for, in their order and in the
  -- pod asked for, or fails with exactly one error and leaves each entry of the store, and, deletions
  -- succeeding, each secret of the cluster, as it was.
  pub deploy-IsAllOrNothing :
      ((calls : List SecretCall) → lookup (client.new_id calls) store₀ ≡ none)
      → ((calls : List SecretCall) (s : Secret)
          → is_live s.namespace s.name calls ≡ true
          → client.create_secret calls s ≢ none)
      → IsAllOrNothing req store₀ trace₀ (deploy strings client req store₀ trace₀)
  unfolding deploy
  deploy-IsAllOrNothing fresh taken =
      elim (Bool-cases (str_eq (validate_deployment_request strings req) "")) [
        | inl valid ↦
            rw (valid, deploy)
              (deploy_each-IsAllOrNothing fresh taken req.honeytokens [] store₀ trace₀ refl
                (record { stored = λ id. refl; live = λ ns name. refl }))
        | inr bad ↦ rw (bad, deploy) (nothing _ _ store₀ trace₀ (λ id. refl) (λ ns name. refl))
      ]
