-- ===== src/Correlation/Engine/Actions.antt =====
-- When the auto-action of an incident runs, and what follows.
use titanops.Common.{
  ℕ, ◌≡◌, refl, ◌∙◌, sym, ap, ◌⊎◌, String, Bool, true, false, ◌++◌, Option, none, some, List, [],
  ◌∷◌, arith, All, Bool-cases, Option-cases, inl, inr, ltb, if◌then◌else◌, length,
}
use mathlib.Core.Path.{subst}
use titanops.Common.Int.{ℤ, pos, ltb_ℤ, ◌≤ℤ◌}
use titanops.Export.Event.{Event}
use titanops.Correlation.Engine.Types.{
  AutoActionConfig, EngineConfig, AutoAction, CorrelatedIncident, Effect, id_drawn, executed,
  exported, Services, Engine,
}
use titanops.Correlation.Engine.Grouping.{EventGroup, distinct_modules}
use titanops.Correlation.Engine.Correlate.{
  recommend, failure_event, export_event, after_action, act_with, act, make_incident,
  correlate_groups, correlate,
}

module _ (s : Services) (threshold : ℤ) (action : Option AutoAction) (inc : CorrelatedIncident)
    (trace : List Effect) where
  -- The outcomes of the auto-action: none, a success, or a failure with an alert.
  pub data Outcome : Type 0 where
    idle :
        (action ≡ none) ⊎ (s.actions ≡ none) ⊎ (ltb_ℤ (pos inc.confidence_score) threshold ≡ true)
        → act s threshold action inc trace ≡ (inc, trace)
        → Outcome
    succeeded :
        (a : AutoAction) (execute : List Effect → AutoAction → CorrelatedIncident → Option String)
        → action ≡ some a
        → s.actions ≡ some execute
        → threshold ≤ℤ pos inc.confidence_score
        → execute trace a inc ≡ none
        → act s threshold action inc trace
          ≡ (record inc { action_executed = true }, executed a inc ∷ trace)
        → Outcome
    failed :
        (a : AutoAction) (execute : List Effect → AutoAction → CorrelatedIncident → Option String)
        (err : String)
        → action ≡ some a
        → s.actions ≡ some execute
        → threshold ≤ℤ pos inc.confidence_score
        → execute trace a inc ≡ some err
        → act s threshold action inc trace ≡ (
          record inc { action_error = err },
          export_event s
              (failure_event
                (s.clock (executed a inc ∷ trace))
                a
                (record inc { action_error = err })
                err)
              (executed a inc ∷ trace),
        )
        → Outcome

-- The auto-action runs exactly if there is an executor, an action, and a score that meets
-- the threshold; a success is noted on the incident, and a failure is noted with its error and
-- followed by an alert to the exporter, if there is one.
pub act-Outcome :
    (s : Services) (threshold : ℤ) (action : Option AutoAction) (inc : CorrelatedIncident)
    (trace : List Effect)
    → Outcome s threshold action inc trace
unfolding act act_with after_action
act-Outcome s threshold none inc trace = idle (inl refl) refl
act-Outcome s threshold (some a) inc trace = elim (Option-cases s.actions) [
  | inl e ↦ idle (inr (inl e)) (ap (λ x. act_with s x threshold a inc trace) e)
  | inr (execute, e) ↦
      let at = ap (λ x. act_with s x threshold a inc trace) e in
      elim (Bool-cases (ltb_ℤ (pos inc.confidence_score) threshold)) [
        | inl low ↦ idle (inr (inr low)) (at ∙ rw low)
        | inr high ↦ elim (Option-cases (execute trace a inc)) [
          | inl ok ↦ succeeded a execute refl e (ground arith) ok (at ∙ rw (high, ok, after_action))
          | inr (err, bad) ↦
              failed a execute err refl e (ground arith) bad (at ∙ rw (high, bad, after_action))
        ]
      ]
]

-- The action of the first enabled entry of the configuration: those before it are disabled.
pub record IsFirstEnabled (acs : List AutoActionConfig) (a : AutoAction) : Type 0 where
  pub before : List AutoActionConfig
  pub chosen : AutoActionConfig
  pub behind : List AutoActionConfig
  pub parts : acs ≡ before ++ chosen ∷ behind
  pub disabled : All (λ (ac : AutoActionConfig). ac.enabled ≡ false) before
  pub enabled : chosen.enabled ≡ true
  pub named : a.type_name ≡ chosen.type_name
  pub given : a.parameters ≡ chosen.parameters

-- What `recommend` finds, or why it finds nothing.
abbrev pub Found : List AutoActionConfig → Option AutoAction → Type 0
Found acs none = All (λ (ac : AutoActionConfig). ac.enabled ≡ false) acs
Found acs (some a) = IsFirstEnabled acs a

later :
    (ac : AutoActionConfig) (acs : List AutoActionConfig) (o : Option AutoAction)
    → ac.enabled ≡ false
    → Found acs o
    → Found (ac ∷ acs) o
later ac acs none off h = (off, h)
later ac acs (some a) off h = record {
  before = ac ∷ h.before;
  chosen = h.chosen;
  behind = h.behind;
  parts = ap (λ rest. ac ∷ rest) h.parts;
  disabled = (off, h.disabled);
  enabled = h.enabled;
  named = h.named;
  given = h.given;
}

search_step :
    (ac : AutoActionConfig) (acs : List AutoActionConfig) (o : Option AutoAction) (b : Bool)
    → ac.enabled ≡ b
    → Found acs o
    → Found
        (ac ∷ acs)
        (if b then some (record { type_name = ac.type_name; parameters = ac.parameters }) else o)
search_step ac acs o true on h = record {
  before = [];
  chosen = ac;
  behind = acs;
  parts = refl;
  disabled = tt;
  enabled = on;
  named = refl;
  given = refl;
}
search_step ac acs o false off h = later ac acs o off h

pub recommend-Found : (acs : List AutoActionConfig) → Found acs (recommend acs)
unfolding recommend
recommend-Found [] = tt
recommend-Found (ac ∷ acs) =
    search_step ac acs (recommend acs) ac.enabled refl (recommend-Found acs)

-- An action that ran was the first enabled one, for an incident that met the threshold.
abbrev pub IsGated : EngineConfig → Effect → Type 0
IsGated cfg id_drawn = Unit
IsGated cfg (exported ev) = Unit
IsGated cfg (executed a inc) =
    (cfg.confidence_threshold ≤ℤ pos inc.confidence_score) × IsFirstEnabled cfg.auto_actions a

pub recommended :
    (acs : List AutoActionConfig) (a : AutoAction) → recommend acs ≡ some a → IsFirstEnabled acs a
recommended acs a e = subst (Found acs) e (recommend-Found acs)

module _ (s : Services) (cfg : EngineConfig) where
  export_event-IsGated :
      (ev : Event) (trace : List Effect)
      → All (IsGated cfg) trace
      → All (IsGated cfg) (export_event s ev trace)
  unfolding export_event
  export_event-IsGated ev trace h = elim (Bool-cases s.has_exporter) [
    | inl e ↦
        subst (λ b. All (IsGated cfg) (if b then exported ev ∷ trace else trace)) (sym e) (tt, h)
    | inr e ↦ subst (λ b. All (IsGated cfg) (if b then exported ev ∷ trace else trace)) (sym e) h
  ]

  act-IsGated :
      (inc : CorrelatedIncident) (trace : List Effect)
      → All (IsGated cfg) trace
      → All (IsGated cfg) (act s cfg.confidence_threshold (recommend cfg.auto_actions) inc trace).1
  act-IsGated inc trace h =
      elim (act-Outcome s cfg.confidence_threshold (recommend cfg.auto_actions) inc trace) [
        | idle _ e ↦ rw e h
        | succeeded a execute found _ met _ e ↦ rw e ((met, recommended _ a found), h)
        | failed a execute err found _ met _ e ↦
            rw e (export_event-IsGated _ (executed a inc ∷ trace) ((met, recommended _ a found), h))
      ]

  make_incident-IsGated :
      (now : ℕ) (g : EventGroup) (trace : List Effect)
      → All (IsGated cfg) trace
      → All (IsGated cfg) (make_incident s cfg now g trace).1
  unfolding make_incident
  make_incident-IsGated now g trace h =
      export_event-IsGated _ _ (act-IsGated _ (id_drawn ∷ trace) (tt, h))

  correlate_groups-IsGated :
      (now : ℕ) (gs : List EventGroup) (trace : List Effect)
      → All (IsGated cfg) trace
      → All (IsGated cfg) (correlate_groups s cfg now gs trace).1
  unfolding correlate_groups
  correlate_groups-IsGated now [] trace h = h
  correlate_groups-IsGated now (g ∷ gs) trace h =
      elim (Bool-cases (ltb (length (distinct_modules g)) 2)) [
        | inl few ↦ rw few (correlate_groups-IsGated now gs trace h)
        | inr many ↦ rw many (
            correlate_groups-IsGated now gs (make_incident s cfg now g trace).1
              (make_incident-IsGated now g trace h))
      ]

-- `Correlate` runs no action but the first enabled one, and only for an incident whose score meets
-- the threshold: if that holds of the effects before, it holds of the effects behind.
pub correlate-IsGated :
    (s : Services) (order : List EventGroup → List EventGroup) (e : Engine) (ctx : Option String)
    (now : ℕ)
    → All (IsGated e.config) e.trace
    → All (IsGated e.config) (correlate s order e ctx now).0.trace
unfolding correlate
correlate-IsGated s order e (some err) now h = h
correlate-IsGated s order e none now h = correlate_groups-IsGated s e.config now _ e.trace h
