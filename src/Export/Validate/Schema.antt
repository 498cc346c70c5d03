-- ===== src/Export/Validate/Schema.antt =====
-- `ValidateEvent` decides the event schema.
use titanops.Common.{
  append_nil_iff, ◌≤◌, ◌<◌, ◌≡◌, ◌≢◌, ◌↔◌, String, true, false, [], length, arith, str_eq, eq_iff,
  Bool-cases, inl, inr,
}
use titanops.Export.Event.{Event}
use titanops.Export.Validate.Defs.{
  max_payload_size, one_of, valid_severities, valid_modules, check_namespace, check_timestamp,
  check_severity, check_module, check_event_type, check_payload, validate_event,
}

-- The schema that the comments of `ValidateEvent` and `MaxPayloadSize` describe.
pub record IsWellFormed (e : Event) : Type 0 where
  pub named : e.namespace ≢ ""
  pub stamped : 0 < e.timestamp
  pub utc : e.zone ≡ "UTC"
  pub severe : one_of e.severity valid_severities ≡ true
  pub known : one_of e.module_name valid_modules ≡ true
  pub typed : e.event_type ≢ ""
  pub filled : 0 < length e.payload
  pub small : length e.payload ≤ max_payload_size

namespace_iff : (e : Event) → (check_namespace e ≡ []) ↔ (e.namespace ≢ "")
unfolding check_namespace
namespace_iff e = ground (arith, eq_iff e.namespace "")

timestamp_iff : (e : Event) → (check_timestamp e ≡ []) ↔ ((0 < e.timestamp) × (e.zone ≡ "UTC"))
unfolding check_timestamp
timestamp_iff e = ground (arith, eq_iff e.zone "UTC")

no_severity : (s : String) → str_eq s "" ≡ true → one_of s valid_severities ≡ false
no_severity s h = rw ((eq_iff s "").0 h)

no_module : (s : String) → str_eq s "" ≡ true → one_of s valid_modules ≡ false
no_module s h = rw ((eq_iff s "").0 h)

severity_iff : (e : Event) → (check_severity e ≡ []) ↔ (one_of e.severity valid_severities ≡ true)
unfolding check_severity
severity_iff e = elim (Bool-cases (str_eq e.severity "")) [
  | inl empty ↦ rw (empty, no_severity e.severity empty) (ground arith)
  | inr full ↦ rw full (elim (Bool-cases (one_of e.severity valid_severities)) [
    | inl found ↦ rw found (ground arith)
    | inr missing ↦ rw missing (ground arith)
  ])
]

module_iff : (e : Event) → (check_module e ≡ []) ↔ (one_of e.module_name valid_modules ≡ true)
unfolding check_module
module_iff e = elim (Bool-cases (str_eq e.module_name "")) [
  | inl empty ↦ rw (empty, no_module e.module_name empty) (ground arith)
  | inr full ↦ rw full (elim (Bool-cases (one_of e.module_name valid_modules)) [
    | inl found ↦ rw found (ground arith)
    | inr missing ↦ rw missing (ground arith)
  ])
]

event_type_iff : (e : Event) → (check_event_type e ≡ []) ↔ (e.event_type ≢ "")
unfolding check_event_type
event_type_iff e = ground (arith, eq_iff e.event_type "")

payload_iff :
    (e : Event)
    → (check_payload e ≡ []) ↔ ((0 < length e.payload) × (length e.payload ≤ max_payload_size))
unfolding check_payload
payload_iff e = ground arith

-- An event passes the validation exactly if it meets the schema: a namespace and an event type, a
-- set time in UTC, a known severity and module, and a payload of 1 to 65536 bytes.
pub validate_event_iff : (e : Event) → (validate_event e ≡ []) ↔ IsWellFormed e
unfolding validate_event
validate_event_iff e = (
  λ h.
      let a = (append_nil_iff (check_namespace e) _).0 h in
      let b = (append_nil_iff (check_timestamp e) _).0 a.1 in
      let c = (append_nil_iff (check_severity e) _).0 b.1 in
      let d = (append_nil_iff (check_module e) _).0 c.1 in
      let f = (append_nil_iff (check_event_type e) _).0 d.1 in
      let stamp = (timestamp_iff e).0 b.0 in
      let size = (payload_iff e).0 f.1 in
      record {
        named = (namespace_iff e).0 a.0;
        stamped = stamp.0;
        utc = stamp.1;
        severe = (severity_iff e).0 c.0;
        known = (module_iff e).0 d.0;
        typed = (event_type_iff e).0 f.0;
        filled = size.0;
        small = size.1;
      },
  λ w. rw (
    (namespace_iff e).1 w.named,
    (timestamp_iff e).1 (w.stamped, w.utc),
    (severity_iff e).1 w.severe,
    (module_iff e).1 w.known,
    (event_type_iff e).1 w.typed,
    (payload_iff e).1 (w.filled, w.small),
  ),
)
