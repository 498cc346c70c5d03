-- ===== src/OllinAi/Poller/Bonus.antt =====
-- The deployment events of the poller in the score of the correlation engine.
use titanops.Common.{ℕ, ◌≡◌, refl, ap, ◌∙◌, String, Bool, Option, none, List, [], ◌∷◌, map, arith}
use titanops.Common.Dict.{lookup, insert}
use titanops.Export.Event.{Event, label}
use titanops.Correlation.Scoring.{
  deployment_risk_bonus, extract_risk_score, max_bonus_from, deployment_risk_bonus_from_events,
}
use titanops.OllinAi.Emitter.{completed}
use titanops.OllinAi.Poller.Defs.{
  DeploymentRiskEntry, DeploymentRiskPayload, build_deployment_risk_event,
}

module _ (serialize : DeploymentRiskPayload → Option (List ℕ × Bool)) (id : String) (now : ℕ) where
  -- The event that the emitter sends for an entry.
  abbrev pub sent : DeploymentRiskEntry → Event
  sent entry = completed id now (build_deployment_risk_event serialize entry)

  no_label : (entry : DeploymentRiskEntry) → label (sent entry) "risk_score" ≡ none
  unfolding completed build_deployment_risk_event insert lookup
  no_label entry = ground arith

  no_score :
      (entry : DeploymentRiskEntry) → deployment_risk_bonus (extract_risk_score (sent entry)) ≡ 0
  unfolding extract_risk_score deployment_risk_bonus
  no_score entry = rw (no_label entry, extract_risk_score) refl

  none_first :
      (entry : DeploymentRiskEntry) (events : List Event)
      → max_bonus_from 0 (sent entry ∷ events) ≡ max_bonus_from 0 events
  unfolding max_bonus_from
  none_first entry events = ap (λ best. max_bonus_from best events) (ground (arith, no_score entry))

  no_bonus : (entries : List DeploymentRiskEntry) → max_bonus_from 0 (map sent entries) ≡ 0
  unfolding max_bonus_from
  no_bonus [] = refl
  no_bonus (entry ∷ entries) = none_first entry (map sent entries) ∙ no_bonus entries

  -- However high the risks that the API reports, the deployment bonus of a group of the events that the
  -- poller makes of them and the emitter sends is 0.
  pub deployment_risk_bonus-sent :
      (entries : List DeploymentRiskEntry)
      → deployment_risk_bonus_from_events (map sent entries) ≡ 0
  unfolding deployment_risk_bonus_from_events
  deployment_risk_bonus-sent entries = no_bonus entries
