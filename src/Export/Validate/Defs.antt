-- ===== src/Export/Validate/Defs.antt =====
-- `ValidateEvent`: one list of errors for each block of the function, in its order.
use titanops.Common.{
  ℕ, String, Bool, true, false, not, ◌||◌, List, [], ◌∷◌, ◌++◌, length, ltb, ◌==◌, if◌then◌else◌,
  str_eq,
}
use titanops.Export.Event.{Event}

abbrev pub max_payload_size : ℕ
max_payload_size = 65536

abbrev pub one_of : String → List String → Bool
one_of s [] = false
one_of s (t ∷ ts) = str_eq s t || one_of s ts

abbrev pub valid_severities : List String
valid_severities = "critical" ∷ "high" ∷ "medium" ∷ "low" ∷ "informational" ∷ []

abbrev pub valid_modules : List String
valid_modules = "tlapix" ∷ "earthworm" ∷ "ebeecontrol" ∷ "quack" ∷ "correlation" ∷ []

-- The rejected value before it is printed: a text, a time with its zone, or a number of bytes.
pub data Rejected : Type 0 where
  text : String → Rejected
  time : ℕ → String → Rejected
  bytes : ℕ → Rejected

pub record ValidationError : Type 0 where
  pub field : String
  pub value : Rejected
  pub message : String

abbrev is_empty : String → Bool
is_empty s = str_eq s ""

-- The errors of a check that found what is in the list, and nothing otherwise.
abbrev report : Bool → String → Rejected → String → List ValidationError
report true field value message = record { field = field; value = value; message = message } ∷ []
report false field value message = []

unfoldable pub check_namespace : Event → List ValidationError
check_namespace e = report (is_empty e.namespace) "namespace" (text "") "required field is empty"

unfoldable pub check_timestamp : Event → List ValidationError
check_timestamp e =
    if e.timestamp == 0
    then report true "timestamp" (text "")
        "required field is empty; must be a valid UTC timestamp in RFC 3339 format with millisecond precision"
    else report (not (str_eq e.zone "UTC")) "timestamp" (time e.timestamp e.zone)
        "timestamp must be in UTC timezone"

unfoldable pub check_severity : Event → List ValidationError
check_severity e =
    if is_empty e.severity
    then report true "severity" (text "") "required field is empty"
    else report (not (one_of e.severity valid_severities)) "severity" (text e.severity)
        "invalid severity level; must be one of: critical, high, medium, low, informational"

unfoldable pub check_module : Event → List ValidationError
check_module e =
    if is_empty e.module_name
    then report true "module" (text "") "required field is empty"
    else report (not (one_of e.module_name valid_modules)) "module" (text e.module_name)
        "invalid module; must be one of: tlapix, earthworm, ebeecontrol, quack, correlation"

unfoldable pub check_event_type : Event → List ValidationError
check_event_type e = report (is_empty e.event_type) "event_type" (text "") "required field is empty"

unfoldable pub check_payload : Event → List ValidationError
check_payload e =
    report (length e.payload == 0) "payload" (text "") "required field is empty"
    ++ report (ltb max_payload_size (length e.payload)) "payload" (bytes (length e.payload))
        "payload exceeds maximum size of 65536 bytes (64 KB)"

unfoldable pub validate_event : Event → List ValidationError
validate_event e =
    check_namespace e
    ++ (check_timestamp e
        ++ (check_severity e ++ (check_module e ++ (check_event_type e ++ check_payload e))))
