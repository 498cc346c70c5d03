-- ===== src/Correlation/Narrative.antt =====
-- The text of an incident, correlation/narrative.go. `sort.Slice` and the decimal print of `fmt`
-- are parameters.
use titanops.Common.{
  ℕ, ◌/◌, ◌%◌, String, Bool, true, ◌&&◌, none, some, List, [], ◌∷◌, ◌++◌, ltb, ◌==◌, if◌then◌else◌,
  str_eq,
}
use titanops.Common.Text.{◌+◌, join}
use titanops.Common.Dict
use titanops.Export.Event.{Event, label}
use titanops.Correlation.Scoring.{event_time_span, is_deployment_risk, second}

-- What the narrative asks of the Go library.
pub record Formatting : Type 0 where
  pub sort_by_time : List Event → List Event
  pub print_int : ℕ → String

-- `ev.Labels[key]`, where a missing key is the empty text.
abbrev label_or_empty : Event → String → String
label_or_empty ev key = elim (label ev key) [ none ↦ "" | some s ↦ s ]

-- The distinct modules, each with the type of its first event, as "m reported t".
unfoldable pub reports_from : List (String × Bool) → List Event → List String
reports_from seen [] = []
reports_from seen (ev ∷ evs) = elim (Dict.lookup ev.module_name seen) [
  | some b ↦ reports_from seen evs
  | none ↦
      (ev.module_name + " reported " + ev.event_type)
      ∷ reports_from (Dict.insert ev.module_name true seen) evs
]

abbrev init : List String → List String
init [] = []
init (s ∷ []) = []
init (s ∷ t ∷ l) = s ∷ init (t ∷ l)

abbrev last : String → List String → String
last d [] = d
last d (s ∷ l) = last s l

unfoldable pub join_with_and : List String → String
join_with_and [] = ""
join_with_and (s ∷ []) = s
join_with_and (s ∷ t ∷ []) = s + " and " + t
join_with_and (s ∷ t ∷ u ∷ l) = join ", " (init (s ∷ t ∷ u ∷ l)) + " and " + last u l

abbrev is_empty : String → Bool
is_empty s = str_eq s ""

abbrev unless_empty : String → String → String
unless_empty s text = if is_empty s then "" else text

abbrev parenthesis : List String → String
parenthesis [] = ""
parenthesis (p ∷ ps) = " (" + join " " (p ∷ ps) + ")"

unfoldable pub build_deployment_meta_string : Event → String
build_deployment_meta_string ev =
    let service = label_or_empty ev "service" in
    let commit_sha = label_or_empty ev "commit_sha" in
    let deployer = label_or_empty ev "deployer" in
    let risk_score = label_or_empty ev "risk_score" in
    let meta_parts : List String =
      (if is_empty commit_sha then [] else ("commit " + commit_sha) ∷ [])
      ++ (if is_empty deployer then [] else ("by " + deployer) ∷ []) in
    if is_empty service && (is_empty commit_sha && is_empty deployer)
    then ""
    else "Deployment"
      + unless_empty service (" of " + service)
      + parenthesis meta_parts
      + unless_empty risk_score (" with risk score " + risk_score)
      + " occurred within the correlation window."

unfoldable pub generate_deployment_meta : List Event → String
generate_deployment_meta [] = ""
generate_deployment_meta (ev ∷ evs) =
    if is_deployment_risk ev then build_deployment_meta_string ev else generate_deployment_meta evs

module _ (f : Formatting) where
  unfoldable pub format_duration : ℕ → String
  format_duration d =
      let seconds = d / second in
      if ltb d second
      then "less than 1s"
      else if ltb seconds 60
      then f.print_int seconds + "s"
      else if seconds % 60 == 0
      then f.print_int (seconds / 60) + "m"
      else f.print_int (seconds / 60) + "m" + f.print_int (seconds % 60) + "s"

  -- The text behind the test for no events.
  unfoldable pub narrative_of : List Event → List String → ℕ → String
  narrative_of sorted matched score =
      let meta = generate_deployment_meta sorted in
      "Correlated incident detected: "
      + join_with_and (reports_from [] sorted)
      + " on "
      + join ", " matched
      + " within "
      + format_duration (event_time_span sorted)
      + ". Confidence: "
      + f.print_int score
      + "%."
      + unless_empty meta (" " + meta)

  unfoldable pub generate_narrative : List Event → List String → ℕ → String
  generate_narrative [] matched score = "No events to correlate."
  generate_narrative (ev ∷ evs) matched score =
      narrative_of (f.sort_by_time (ev ∷ evs)) matched score
