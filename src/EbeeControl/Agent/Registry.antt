-- ===== src/EbeeControl/Agent/Registry.antt =====
-- `HoneytokenRegistry` and `AuditLog`. `order` is the order in which Go ranges over the map.
use titanops.Common.{
  ℕ, ◌+◌, String, ◌&&◌, Option, none, some, List, [], ◌∷◌, ◌++◌, map, if◌then◌else◌, str_eq,
}
use titanops.Common.Int.{ℤ, pos, ltb_ℤ, eqb_ℤ}
use titanops.Common.Dict.{insert}
use titanops.EbeeControl.Types.{
  active, triggered, HoneytokenRegistryEntry, DeployedHoneytoken, AuditLogEntry,
}

abbrev pub Entries : Type 0
Entries = List (String × HoneytokenRegistryEntry)

abbrev pub new_honeytoken_registry : Entries
new_honeytoken_registry = []

unfoldable pub entry_of : DeployedHoneytoken → HoneytokenRegistryEntry
entry_of ht = record {
  honeytoken_id = ht.honeytoken_id;
  pod_id = ht.pod_id;
  namespace = ht.namespace;
  type_name = ht.type_name;
  file_path = ht.file_path;
  deployment_timestamp = ht.deployment_timestamp;
  status = active;
  last_access_timestamp = none;
  access_count = 0;
}

unfoldable pub register : DeployedHoneytoken → Entries → Entries
register ht entries = insert ht.honeytoken_id (entry_of ht) entries

-- The first entry that an iteration meets on a pod and a path.
unfoldable pub find : String → String → Entries → Option (String × HoneytokenRegistryEntry)
find pod_id path [] = none
find pod_id path ((id, entry) ∷ rest) =
    if str_eq entry.pod_id pod_id && str_eq entry.file_path path
    then some (id, entry)
    else find pod_id path rest

unfoldable pub triggered_at : ℕ → HoneytokenRegistryEntry → HoneytokenRegistryEntry
triggered_at time entry = record entry {
  status = triggered;
  last_access_timestamp = some time;
  access_count = entry.access_count + 1;
}

module _ (order : Entries → Entries) where
  unfoldable pub mark_triggered : String → String → ℕ → Entries → Entries
  mark_triggered pod_id path time entries = elim (find pod_id path (order entries)) [
    | none ↦ entries
    | some (id, entry) ↦ insert id (triggered_at time entry) entries
  ]

  unfoldable pub find_by_path : String → String → Entries → Option HoneytokenRegistryEntry
  find_by_path pod_id path entries = elim (find pod_id path (order entries)) [
    | none ↦ none
    | some (id, entry) ↦ some entry
  ]

  unfoldable pub get_all : Entries → List HoneytokenRegistryEntry
  get_all entries = map (λ (e : String × HoneytokenRegistryEntry). e.1) (order entries)

pub record AuditLog : Type 0 where
  pub entries : List AuditLogEntry
  pub retention_days : ℤ

unfoldable pub new_audit_log : ℤ → AuditLog
new_audit_log retention_days = record {
  entries = [];
  retention_days = if ltb_ℤ retention_days (pos 90) then pos 90 else retention_days;
}

unfoldable pub log : AuditLogEntry → AuditLog → AuditLog
log entry al =
    let kept : AuditLogEntry =
      if eqb_ℤ entry.retention_days (pos 0)
      then record entry { retention_days = al.retention_days }
      else entry in
    record al { entries = al.entries ++ kept ∷ [] }
