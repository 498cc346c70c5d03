-- ===== src/Export/Event.antt =====
-- The telemetry event of shared/titanops-export/exporter.go. A time is a number of nanoseconds from
-- Go's zero time, and text is native text.
use titanops.Common.{ℕ, String, List, Option, none}
use titanops.Common.Dict

-- `Module` is `module_name`, since `module` is taken. A nil `Labels` is `none`.
pub record Event : Type 0 where
  pub namespace : String
  pub timestamp : ℕ
  pub zone : String  -- `Timestamp.Location().String()`
  pub severity : String
  pub module_name : String
  pub event_type : String
  pub payload : List ℕ
  pub node : String
  pub pod : String
  pub event_id : String
  pub labels : Option (List (String × String))

-- `ev.Labels[key]`, which a nil map answers too.
abbrev pub label : Event → String → Option String
label ev key = elim ev.labels [ Option.none ↦ none | Option.some m ↦ Dict.lookup key m ]
