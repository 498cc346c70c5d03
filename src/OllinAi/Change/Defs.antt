-- ===== src/OllinAi/Change/Defs.antt =====
-- What changed in a workload, and how long to wait before it is verified.
use titanops.Common.{
  ℕ, String, Bool, true, false, ◌||◌, List, [], ◌∷◌, length, ltb, leb, ◌-◌, ◌==◌, get_elem?, Option,
  if◌then◌else◌,
}
use titanops.Common.Int.{ℤ}
use titanops.Common.Text.{codes, first, ◌+◌ as ◌&◌}
use titanops.OllinAi.Change.Decimal.{int_to_str}

-- `another` stands for a text that is none of the constants.
pub data ChangeType : Type 0 where
  image : ChangeType
  env_var : ChangeType
  resource_limits : ChangeType
  replica_scale : ChangeType
  probe : ChangeType
  rollout_strategy : ChangeType
  other : ChangeType
  another : String → ChangeType

pub data ChangeSeverity : Type 0 where
  high : ChangeSeverity
  medium : ChangeSeverity
  low : ChangeSeverity
  unnamed : String → ChangeSeverity

pub record DetectedChange : Type 0 where
  pub change_type : ChangeType
  pub severity : ChangeSeverity
  pub field : String
  pub old_value : String
  pub new_value : String

pub record DeploymentChange : Type 0 where
  pub workload_name : String
  pub workload_kind : String
  pub namespace : String
  pub changes : List DetectedChange
  pub detected_at : ℕ
  pub commit_sha : String
  pub deployer : String

unfoldable pub severity_rank : ChangeSeverity → ℕ
severity_rank high = 3
severity_rank medium = 2
severity_rank low = 1
severity_rank (unnamed s) = 0

-- The loop of `HighestSeverity`, with the highest that it has seen.
unfoldable pub highest_from : ChangeSeverity → List DetectedChange → ChangeSeverity
highest_from highest [] = highest
highest_from highest (c ∷ changes) =
    let next =
      if ltb (severity_rank highest) (severity_rank c.severity) then c.severity else highest in
    highest_from next changes

unfoldable pub highest_severity : DeploymentChange → ChangeSeverity
highest_severity dc = highest_from low dc.changes

-- `c.Type == t` for a constant `t`.
unfoldable pub is_type : ChangeType → ChangeType → Bool
is_type image image = true
is_type env_var env_var = true
is_type resource_limits resource_limits = true
is_type replica_scale replica_scale = true
is_type probe probe = true
is_type rollout_strategy rollout_strategy = true
is_type other other = true
is_type _ _ = false

unfoldable pub has_type : List DetectedChange → ChangeType → Bool
has_type [] t = false
has_type (c ∷ changes) t =
    let rest = has_type changes t in if is_type c.change_type t then true else rest

unfoldable pub has_change_type : DeploymentChange → ChangeType → Bool
has_change_type dc t = has_type dc.changes t

-- In seconds.
unfoldable pub check_window : DeploymentChange → ℕ
check_window dc =
    if has_change_type dc resource_limits
    then 120
    else if has_change_type dc image || has_change_type dc probe
    then 90
    else if has_change_type dc env_var
    then 60
    else if has_change_type dc replica_scale
    then 20
    else 60

-- For texts of one byte a character.
unfoldable pub truncate_value : String → ℕ → String
truncate_value s max_len = if leb (length (codes s)) max_len then s else first max_len s & "..."

-- The bytes of a number as a text: `string(digits)`.
abbrev pub numerals : List String
numerals = "0" ∷ "1" ∷ "2" ∷ "3" ∷ "4" ∷ "5" ∷ "6" ∷ "7" ∷ "8" ∷ "9" ∷ []

abbrev pub digit : ℕ → String
digit d =
    if d == 45
    then "-"
    else elim (get_elem? numerals (d - 48)) [ Option.none ↦ "" | Option.some s ↦ s ]

abbrev pub text_of : List ℕ → String
text_of [] = ""
text_of (d ∷ ds) = digit d & text_of ds

abbrev pub change : ChangeType → ChangeSeverity → String → String → String → DetectedChange
change t severity field old_value new_value = record {
  change_type = t;
  severity = severity;
  field = field;
  old_value = old_value;
  new_value = new_value;
}

unfoldable pub classify_image_change : String → String → String → DetectedChange
classify_image_change field old_image new_image = change image high field old_image new_image

unfoldable pub classify_env_change : String → String → String → DetectedChange
classify_env_change field old_val new_val =
    change env_var high field (truncate_value old_val 128) (truncate_value new_val 128)

unfoldable pub classify_resource_change : String → String → String → DetectedChange
classify_resource_change field old_val new_val = change resource_limits medium field old_val new_val

unfoldable pub classify_replica_change : ℤ → ℤ → DetectedChange
classify_replica_change old_replicas new_replicas =
    change replica_scale low "spec.replicas" (text_of (int_to_str old_replicas))
      (text_of (int_to_str new_replicas))

unfoldable pub classify_probe_change : String → String → DetectedChange
classify_probe_change field description = change probe high field "" description

unfoldable pub classify_rollout_strategy_change : String → String → DetectedChange
classify_rollout_strategy_change old_strategy new_strategy =
    change rollout_strategy medium "spec.strategy.type" old_strategy new_strategy
