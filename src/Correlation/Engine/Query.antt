-- ===== src/Correlation/Engine/Query.antt =====
-- `GetIncidents`.
use titanops.Common.{
  String, Bool, false, not, ◌&&◌, ◌||◌, Option, none, some, List, [], ◌∷◌, length, ltb, ◌==◌,
  select,
}
use titanops.Common.Int.{pos, ltb_ℤ}
use titanops.Export.Event.{Event}
use titanops.Correlation.Engine.Types.{CorrelatedIncident, IncidentFilter, Engine}
use titanops.Correlation.Engine.Grouping.{contains}

unfoldable pub any_of_modules : List Event → List String → Bool
any_of_modules [] modules = false
any_of_modules (ev ∷ evs) modules = contains ev.module_name modules || any_of_modules evs modules

unfoldable pub involves_modules : CorrelatedIncident → List String → Bool
involves_modules inc modules = any_of_modules inc.contributing_events modules

-- The three tests of the loop of `GetIncidents`, none of which is applied to its zero value.
unfoldable pub passes : IncidentFilter → CorrelatedIncident → Bool
passes filter inc =
    (filter.since == 0 || not (ltb inc.detected_at filter.since))
    && ((not (ltb_ℤ (pos 0) filter.min_confidence)
          || not (ltb_ℤ (pos inc.confidence_score) filter.min_confidence))
        && (length filter.modules == 0 || involves_modules inc filter.modules))

unfoldable pub get_incidents :
    Engine → Option String → IncidentFilter → List CorrelatedIncident × Option String
get_incidents e (some err) filter = ([], some err)
get_incidents e none filter = (select (passes filter) e.incidents, none)
