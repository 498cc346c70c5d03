-- ===== src/Correlation/Engine/Acting.antt =====
-- The auto-action of an incident, from the configuration to the alert.
use titanops.Common.{
  ℕ, ◌≡◌, refl, ◌∙◌, sym, ap, ◌⊎◌, String, true, false, Option, none, some, List, [], ◌∷◌, arith,
  All, Bool-cases, inl, inr, str_eq, if◌then◌else◌,
}
use mathlib.Core.Path.{subst}
use titanops.Common.Int.{pos, ltb_ℤ, ◌≤ℤ◌}
use titanops.Common.Text.{◌+◌ as ◌&◌}
use titanops.Export.Event.{Event}
use titanops.Correlation.Engine.Types.{
  AutoActionConfig, EngineConfig, AutoAction, CorrelatedIncident, Effect, id_drawn, executed,
  exported, Services,
}
use titanops.Correlation.Engine.Grouping.{EventGroup}
use titanops.Correlation.Engine.Correlate.{
  recommend, incident_event, failure_event, export_event, act, make_incident,
}
use titanops.Correlation.Engine.Actions.{
  act-Outcome, idle, succeeded, failed, IsFirstEnabled, Found, recommend-Found, recommended,
}

-- The calls of the executor on a trace, newest first.
unfoldable pub attempts : List Effect → List (AutoAction × CorrelatedIncident)
attempts [] = []
attempts (id_drawn ∷ trace) = attempts trace
attempts (exported ev ∷ trace) = attempts trace
attempts (executed a inc ∷ trace) = (a, inc) ∷ attempts trace

-- The alerts on failed actions on a trace, newest first.
unfoldable pub alerts : List Effect → List Event
alerts [] = []
alerts (id_drawn ∷ trace) = alerts trace
alerts (exported ev ∷ trace) =
    let rest = alerts trace in if str_eq ev.event_type "action_failure" then ev ∷ rest else rest
alerts (executed a inc ∷ trace) = alerts trace

module _ (s : Services) (cfg : EngineConfig) (before : List Effect) where
  -- A critical event that bears the incident's identifier, if there is an exporter.
  abbrev pub IsAlerted : CorrelatedIncident → List Effect → Type 0
  IsAlerted inc after =
      ((s.has_exporter ≡ true)
        × (ev : Event) × (alerts after ≡ ev ∷ alerts before)
        × (ev.severity ≡ "critical")
        × (ev.event_id ≡ "alert-" & inc.incident_id))
      ⊎ ((s.has_exporter ≡ false) × (alerts after ≡ alerts before))

  -- What became of the auto-action of an incident that is made on the trace `before`.
  pub data Acted (inc : CorrelatedIncident) (after : List Effect) : Type 0 where
    left :
        All (λ (ac : AutoActionConfig). ac.enabled ≡ false) cfg.auto_actions
          ⊎ (s.actions ≡ none)
          ⊎ (ltb_ℤ (pos inc.confidence_score) cfg.confidence_threshold ≡ true)
        → attempts after ≡ attempts before
        → alerts after ≡ alerts before
        → inc.action_executed ≡ false
        → inc.action_error ≡ ""
        → Acted inc after
    ran :
        (a : AutoAction) (execute : List Effect → AutoAction → CorrelatedIncident → Option String)
        (given : CorrelatedIncident)
        → IsFirstEnabled cfg.auto_actions a
        → s.actions ≡ some execute
        → cfg.confidence_threshold ≤ℤ pos inc.confidence_score
        → attempts after ≡ (a, given) ∷ attempts before
        → given.incident_id ≡ inc.incident_id
        → ((execute (id_drawn ∷ before) a given ≡ none)
            × (inc.action_executed ≡ true)
            × (inc.action_error ≡ "")
            × (alerts after ≡ alerts before))
          ⊎ ((err : String) × (execute (id_drawn ∷ before) a given ≡ some err)
              × (inc.action_executed ≡ false)
              × (inc.action_error ≡ err)
              × IsAlerted inc after)
        → Acted inc after

  attempts-export_event :
      (ev : Event) (t : List Effect) → attempts (export_event s ev t) ≡ attempts t
  unfolding export_event attempts
  attempts-export_event ev t = ground arith

  alerts-incident_event :
      (inc : CorrelatedIncident) (t : List Effect)
      → alerts (export_event s (incident_event inc) t) ≡ alerts t
  unfolding export_event alerts incident_event
  alerts-incident_event inc t = ground arith

  failure-IsAlerted :
      (now : ℕ) (a : AutoAction) (inc noted : CorrelatedIncident) (err : String) (t : List Effect)
      → alerts t ≡ alerts before
      → noted.incident_id ≡ inc.incident_id
      → IsAlerted inc
          (export_event s (incident_event inc) (export_event s (failure_event now a noted err) t))
  unfolding export_event alerts incident_event failure_event
  failure-IsAlerted now a inc noted err t same id = elim (Bool-cases s.has_exporter) [
    | inl on ↦ inl (
      on,
      failure_event now a noted err,
      rw on (ap (λ l. failure_event now a noted err ∷ l) same),
      refl,
      ap (λ i. "alert-" & i) id,
    )
    | inr off ↦ inr (off, rw off same)
  ]

  abbrev Announced : CorrelatedIncident × List Effect → Type 0
  Announced r = Acted r.0 (export_event s (incident_event r.0) r.1)

  reasons :
      (inc : CorrelatedIncident)
      → (recommend cfg.auto_actions ≡ none)
        ⊎ (s.actions ≡ none)
        ⊎ (ltb_ℤ (pos inc.confidence_score) cfg.confidence_threshold ≡ true)
      → All (λ (ac : AutoActionConfig). ac.enabled ≡ false) cfg.auto_actions
        ⊎ (s.actions ≡ none)
        ⊎ (ltb_ℤ (pos inc.confidence_score) cfg.confidence_threshold ≡ true)
  reasons inc (inl e) = inl (subst (Found cfg.auto_actions) e (recommend-Found cfg.auto_actions))
  reasons inc (inr r) = inr r

  act-Announced :
      (inc : CorrelatedIncident)
      → inc.action_executed ≡ false
      → inc.action_error ≡ ""
      → Announced
          (act s cfg.confidence_threshold (recommend cfg.auto_actions) inc (id_drawn ∷ before))
  unfolding attempts alerts
  act-Announced inc quiet blank =
      elim (act-Outcome s cfg.confidence_threshold (recommend cfg.auto_actions) inc
        (id_drawn ∷ before)) [
          | idle why e ↦ subst Announced (sym e) (
              left (reasons inc why) (attempts-export_event _ _) (alerts-incident_event _ _) quiet
                blank)
          | succeeded a execute found e_actions met ok e ↦ subst Announced (sym e) (
              ran a execute inc (recommended _ a found) e_actions met (attempts-export_event _ _)
                refl (inl (ok, refl, blank, alerts-incident_event _ _)))
          | failed a execute err found e_actions met bad e ↦ subst Announced (sym e) (
              ran a execute inc (recommended _ a found) e_actions met
                (attempts-export_event _ _ ∙ attempts-export_event _ _) refl
                (inr (err, bad, quiet, refl, failure-IsAlerted _ a _ _ err _ refl refl)))
        ]

  -- The auto-action of a new incident runs once, exactly if some entry of the configuration is enabled, there
  -- is an executor and the score meets the threshold, and it is the first enabled one then. A success
  -- is noted on the incident; a failure is noted with its error and followed by one critical alert
  -- with the incident's identifier, if there is an exporter. Without a failure there is no alert.
  pub make_incident-Acted :
      (now : ℕ) (g : EventGroup)
      → let (inc, after) = make_incident s cfg now g before in Acted inc after
  unfolding make_incident
  make_incident-Acted now g = act-Announced _ refl refl
