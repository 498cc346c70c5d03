-- ===== src/Correlation/Scoring/Defs.antt =====
-- `CalculateConfidence` and what it adds up.
use titanops.Common.{
  ℕ, ◌+◌, ◌-◌, ◌*◌, ◌/◌, ◌%◌, ◌^◌, String, Bool, true, ◌&&◌, none, some, List, [], ◌∷◌, length, ltb,
  leb, if◌then◌else◌, str_eq,
}
use titanops.Common.Int.{ℤ, pos, negsuc, signed64}
use titanops.Common.Dict
use titanops.Common.Text.{codes}
use titanops.Export.Event.{Event, label}

abbrev pub module_base_score : ℕ
module_base_score = 20

abbrev pub attribute_bonus : ℕ
attribute_bonus = 10

abbrev pub proximity_bonus_close : ℕ
proximity_bonus_close = 10

abbrev pub proximity_bonus_near : ℕ
proximity_bonus_near = 5

abbrev pub max_confidence : ℕ
max_confidence = 100

abbrev pub max_deployment_risk_bonus : ℕ
max_deployment_risk_bonus = 20

-- Nanoseconds in a second.
abbrev pub second : ℕ
second = 1_000_000_000

unfoldable pub deployment_risk_bonus : ℤ → ℕ
deployment_risk_bonus (negsuc n) = 0
deployment_risk_bonus (pos n) = if ltb 100 n then max_deployment_risk_bonus else n / 5

-- The loop over the characters of a label; `score` is the bit pattern of an `int`.
unfoldable pub parse_score : ℕ → List ℕ → ℤ
parse_score score [] = signed64 score
parse_score score (c ∷ cs) =
    let rest = parse_score ((score * 10 + (c - b'0')) % 2 ^ 64) cs in
    if leb b'0' c && leb c b'9' then rest else pos 0

unfoldable pub extract_risk_score : Event → ℤ
extract_risk_score ev = elim (label ev "risk_score") [
  | none ↦ pos 0
  | some s ↦ parse_score 0 (codes s)
]

unfoldable pub is_deployment_risk : Event → Bool
is_deployment_risk ev = str_eq ev.module_name "ollinai" && str_eq ev.event_type "deployment_risk"

unfoldable pub max_bonus_from : ℕ → List Event → ℕ
max_bonus_from best [] = best
max_bonus_from best (ev ∷ evs) =
    let bonus = deployment_risk_bonus (extract_risk_score ev) in
    max_bonus_from (if is_deployment_risk ev && ltb best bonus then bonus else best) evs

unfoldable pub deployment_risk_bonus_from_events : List Event → ℕ
deployment_risk_bonus_from_events evs = max_bonus_from 0 evs

unfoldable pub earliest_from : ℕ → List Event → ℕ
earliest_from t [] = t
earliest_from t (ev ∷ evs) = earliest_from (if ltb ev.timestamp t then ev.timestamp else t) evs

unfoldable pub latest_from : ℕ → List Event → ℕ
latest_from t [] = t
latest_from t (ev ∷ evs) = latest_from (if ltb t ev.timestamp then ev.timestamp else t) evs

-- The source keeps both ends in one loop. No event: 0. One event: also 0.
unfoldable pub event_time_span : List Event → ℕ
event_time_span [] = 0
event_time_span (ev ∷ []) = 0
event_time_span (ev ∷ ev' ∷ evs) =
    latest_from ev.timestamp (ev' ∷ evs) - earliest_from ev.timestamp (ev' ∷ evs)

-- `modules[ev.Module] = true` for each event.
unfoldable pub module_set : List Event → List (String × Bool) → List (String × Bool)
module_set [] m = m
module_set (ev ∷ evs) m = module_set evs (Dict.insert ev.module_name true m)

unfoldable pub proximity_bonus : ℕ → ℕ
proximity_bonus span =
    if leb span (10 * second)
    then proximity_bonus_close
    else if leb span (30 * second)
    then proximity_bonus_near
    else 0

unfoldable pub calculate_confidence : List Event → List String → ℕ
calculate_confidence evs matched =
    let score =
      length (module_set evs []) * module_base_score
      + length matched * attribute_bonus
      + proximity_bonus (event_time_span evs)
      + deployment_risk_bonus_from_events evs in
    if ltb (length evs) 2 then 0 else if ltb max_confidence score then max_confidence else score
