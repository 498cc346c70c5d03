-- ===== src/EbeeControl/Deployer/Restores.antt =====
-- What a rollback would restore while a deployment is under way.
use titanops.Common.{
  ◌≡◌, refl, String, Bool, false, not, ◌||◌, ◌&&◌, none, List, [], ◌∷◌, ◌++◌, arith, eq_iff,
  if◌then◌else◌, str_eq,
}
use titanops.Common.Dict.{lookup, insert, erase, lookup-insert, lookup-erase}
use titanops.EbeeControl.Types.{DeployedHoneytoken}
use titanops.EbeeControl.Deployer.Defs.{
  SecretCall, created, refused, deleted, Store, secret_name, roll_back,
}

-- Whether the cluster has a secret, when deletions succeed.
unfoldable pub is_live : String → String → List SecretCall → Bool
is_live ns name [] = false
is_live ns name (created n m ∷ calls) = (str_eq n ns && str_eq m name) || is_live ns name calls
is_live ns name (refused n m ∷ calls) = is_live ns name calls
is_live ns name (deleted n m ∷ calls) = not (str_eq n ns && str_eq m name) && is_live ns name calls

abbrev pub is_id : String → List DeployedHoneytoken → Bool
is_id id [] = false
is_id id (ht ∷ deployed) = str_eq ht.honeytoken_id id || is_id id deployed

abbrev pub is_secret : String → String → List DeployedHoneytoken → Bool
is_secret ns name [] = false
is_secret ns name (ht ∷ deployed) =
    (str_eq ht.namespace ns && str_eq (secret_name ht.honeytoken_id) name)
    || is_secret ns name deployed

pub lookup-roll_back :
    (id : String) (deployed : List DeployedHoneytoken) (store : Store) (trace : List SecretCall)
    → lookup id (roll_back deployed store trace).0
      ≡ (if is_id id deployed then none else lookup id store)
unfolding roll_back
lookup-roll_back id [] store trace = refl
lookup-roll_back id (ht ∷ deployed) store trace =
    let rest =
      lookup-roll_back id deployed (erase ht.honeytoken_id store)
        (deleted ht.namespace (secret_name ht.honeytoken_id) ∷ trace) in
    ground (arith, lookup-erase ht.honeytoken_id id store)

pub is_live-roll_back :
    (ns name : String) (deployed : List DeployedHoneytoken) (store : Store)
    (trace : List SecretCall)
    → is_live ns name (roll_back deployed store trace).1
      ≡ (if is_secret ns name deployed then false else is_live ns name trace)
unfolding roll_back is_live
is_live-roll_back ns name [] store trace = refl
is_live-roll_back ns name (ht ∷ deployed) store trace =
    let rest =
      is_live-roll_back ns name deployed (erase ht.honeytoken_id store)
        (deleted ht.namespace (secret_name ht.honeytoken_id) ∷ trace) in
    ground arith

is_id-append :
    (id : String) (deployed : List DeployedHoneytoken) (ht : DeployedHoneytoken)
    → is_id id (deployed ++ ht ∷ []) ≡ (str_eq ht.honeytoken_id id || is_id id deployed)
is_id-append id [] ht = refl
is_id-append id (first ∷ deployed) ht = ground (arith, is_id-append id deployed ht)

is_secret-append :
    (ns name : String) (deployed : List DeployedHoneytoken) (ht : DeployedHoneytoken)
    → is_secret ns name (deployed ++ ht ∷ []) ≡ (
        (str_eq ht.namespace ns && str_eq (secret_name ht.honeytoken_id) name)
        || is_secret ns name deployed)
is_secret-append ns name [] ht = refl
is_secret-append ns name (first ∷ deployed) ht =
    ground (arith, is_secret-append ns name deployed ht)

-- What a rollback of `deployed` would leave is what was there first.
pub record Restores (store₀ : Store) (trace₀ : List SecretCall) (deployed : List DeployedHoneytoken)
    (store : Store) (trace : List SecretCall) : Type 0 where
  pub stored :
      (id : String) → (if is_id id deployed then none else lookup id store) ≡ lookup id store₀
  pub live :
      (ns name : String)
      → (if is_secret ns name deployed then false else is_live ns name trace)
        ≡ is_live ns name trace₀

module _ (store₀ : Store) (trace₀ : List SecretCall) where
  pub Restores-insert :
      (deployed : List DeployedHoneytoken) (store : Store) (trace : List SecretCall)
      (ht : DeployedHoneytoken)
      → lookup ht.honeytoken_id store₀ ≡ none
      → is_live ht.namespace (secret_name ht.honeytoken_id) trace ≡ false
      → Restores store₀ trace₀ deployed store trace
      → Restores store₀ trace₀
          (deployed ++ ht ∷ [])
          (insert ht.honeytoken_id ht store)
          (created ht.namespace (secret_name ht.honeytoken_id) ∷ trace)
  unfolding is_live
  Restores-insert deployed store trace ht fresh absent r = record {
    stored = λ id. ground (
      arith,
      is_id-append id deployed ht,
      lookup-insert ht.honeytoken_id id ht store,
      r.stored id,
      eq_iff ht.honeytoken_id id,
    );
    live = λ ns name. ground (
      arith,
      is_secret-append ns name deployed ht,
      r.live ns name,
      eq_iff ht.namespace ns,
      eq_iff (secret_name ht.honeytoken_id) name,
    );
  }
