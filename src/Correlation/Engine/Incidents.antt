-- ===== src/Correlation/Engine/Incidents.antt =====
-- Which incidents `Correlate` finds.
use titanops.Common.{
  ℕ, ◌≤◌, ◌<◌, ◌≡◌, refl, ◌∙◌, sym, ap, ◌≢◌, ◌↔◌, String, false, Option, none, List, [], ◌∷◌, ◌++◌,
  length, arith, All, Bool-cases, inl, inr, str_eq, eq_iff, ltb,
}
use mathlib.Core.List.{Memᴰ}
use titanops.Common.Int.{ℤ}
use titanops.Export.Event.{Event}
use titanops.Correlation.Scoring.{calculate_confidence}
use titanops.Correlation.Scoring.Bounds.{calculate_confidence-le, cross_module_confidence}
use titanops.Correlation.Engine.Types.{
  EngineConfig, AutoAction, CorrelatedIncident, Effect, Services, Engine,
}
use titanops.Correlation.Engine.Ingest.{prune_events}
use titanops.Correlation.Engine.Grouping.{
  EventGroup, contains, distinct_from, distinct_modules, group_events,
}
use titanops.Correlation.Engine.Actions.{act-Outcome, idle, succeeded, failed}
use titanops.Correlation.Engine.Correlate.{act, make_incident, correlate_groups, correlate}

-- Two of the events come from different modules.
abbrev pub IsCross : List Event → Type 0
IsCross evs = (a : Event) × (b : Event) × Memᴰ a evs × Memᴰ b evs × (a.module_name ≢ b.module_name)

distinct_from-new :
    (seen : List String) (evs : List Event)
    → 0 < length (distinct_from seen evs)
    → (a : Event) × Memᴰ a evs × (contains a.module_name seen ≡ false)
unfolding distinct_from
distinct_from-new seen [] h = absurd (omega arith)
distinct_from-new seen (ev ∷ evs) h = elim (Bool-cases (contains ev.module_name seen)) [
  | inl old ↦
      let (a, m, e) = distinct_from-new seen evs (rw (old, distinct_from) at h) in
      (a, Memᴰ.tail m, e)
  | inr new ↦ (ev, Memᴰ.head refl, new)
]

new-distinct_from :
    (seen : List String) (evs : List Event) (a : Event)
    → Memᴰ a evs
    → contains a.module_name seen ≡ false
    → 0 < length (distinct_from seen evs)
unfolding distinct_from
new-distinct_from seen [] a m e = elim m [ ]
new-distinct_from seen (ev ∷ evs) a (Memᴰ.head same) e =
    let new : contains ev.module_name seen ≡ false =
      ap (λ (x : Event). contains x.module_name seen) (sym same) ∙ e in
    rw new (omega arith)
new-distinct_from seen (ev ∷ evs) a (Memᴰ.tail m) e =
    elim (Bool-cases (contains ev.module_name seen)) [
      | inl old ↦ rw old (new-distinct_from seen evs a m e)
      | inr new ↦ rw new (omega arith)
    ]

behind :
    (x ev : Event) (evs : List Event)
    → Memᴰ x (ev ∷ evs)
    → x.module_name ≢ ev.module_name
    → Memᴰ x evs
behind x ev evs (Memᴰ.head same) ne = absurd (ne (ap (λ (y : Event). y.module_name) same))
behind x ev evs (Memᴰ.tail m) ne = m

second_module :
    (x ev : Event) (evs : List Event)
    → Memᴰ x (ev ∷ evs)
    → x.module_name ≢ ev.module_name
    → 2 ≤ length (distinct_from [] (ev ∷ evs))
unfolding distinct_from
second_module x ev evs m ne =
    let other : str_eq x.module_name ev.module_name ≡ false =
      ground (arith, eq_iff x.module_name ev.module_name) in
    omega (arith, new-distinct_from (ev.module_name ∷ []) evs x (behind x ev evs m ne) (rw other))

-- The test of the loop asks for two modules.
distinct_modules_iff : (g : EventGroup) → (2 ≤ length (distinct_modules g)) ↔ IsCross g.events
unfolding distinct_modules distinct_from
distinct_modules_iff g = (to g.events, of g.events)
  where
    to : (evs : List Event) → 2 ≤ length (distinct_from [] evs) → IsCross evs
    to [] h = absurd (omega arith)
    to (ev ∷ evs) h =
        let (a, m, e) = distinct_from-new (ev.module_name ∷ []) evs (omega arith) in
        (a, ev, Memᴰ.tail m, Memᴰ.head refl, ground (arith, eq_iff a.module_name ev.module_name))

    of : (evs : List Event) → IsCross evs → 2 ≤ length (distinct_from [] evs)
    of [] (a, b, ma, mb, ne) = elim ma [ ]
    of (ev ∷ evs) (a, b, ma, mb, ne) = elim (Bool-cases (str_eq a.module_name ev.module_name)) [
      | inl same ↦
          let e : a.module_name ≡ ev.module_name = (eq_iff a.module_name ev.module_name).0 same in
          second_module b ev evs mb (λ f. ne (e ∙ sym f))
      | inr other ↦
          second_module a ev evs ma (λ e. cc ((eq_iff a.module_name ev.module_name).1 e, other))
    ]

module _ (s : Services) where
  -- The auto-action changes nothing of an incident but what it notes about itself.
  act-events :
      (threshold : ℤ) (action : Option AutoAction) (inc : CorrelatedIncident) (trace : List Effect)
      → let inc' = (act s threshold action inc trace).0 in
        (inc'.contributing_events ≡ inc.contributing_events)
        × (inc'.confidence_score ≡ inc.confidence_score)
        × (inc'.matched_attributes ≡ inc.matched_attributes)
        × (inc'.detected_at ≡ inc.detected_at)
  act-events threshold action inc trace = elim (act-Outcome s threshold action inc trace) [
    | idle _ e ↦ rw e (refl, refl, refl, refl)
    | succeeded a execute _ _ _ _ e ↦ rw e (refl, refl, refl, refl)
    | failed a execute err _ _ _ _ e ↦ rw e (refl, refl, refl, refl)
  ]

  -- What `make_incident` takes from its group.
  pub record IsOf (now : ℕ) (g : EventGroup) (inc : CorrelatedIncident) : Type 0 where
    pub from : inc.contributing_events ≡ g.events
    pub scored : inc.confidence_score ≡ calculate_confidence g.events g.matched_attributes
    pub matched : inc.matched_attributes ≡ g.matched_attributes
    pub detected : inc.detected_at ≡ now

  make_incident-IsOf :
      (cfg : EngineConfig) (now : ℕ) (g : EventGroup) (trace : List Effect)
      → IsOf now g (make_incident s cfg now g trace).0
  unfolding make_incident
  make_incident-IsOf cfg now g trace =
      let (a, b, c, d) = act-events cfg.confidence_threshold _ _ _ in
      record { from = a; scored = b; matched = c; detected = d }

  -- One incident for each group whose events come from two modules, in the order of the groups, and none for
  -- a group whose events do not.
  pub data Reports (now : ℕ) : List EventGroup → List CorrelatedIncident → Type 0 where
    finished : Reports now [] []
    reported :
        (g : EventGroup) (gs : List EventGroup) (inc : CorrelatedIncident)
        (incs : List CorrelatedIncident)
        → IsCross g.events
        → IsOf now g inc
        → Reports now gs incs
        → Reports now (g ∷ gs) (inc ∷ incs)
    skipped :
        (g : EventGroup) (gs : List EventGroup) (incs : List CorrelatedIncident)
        → ¬ IsCross g.events
        → Reports now gs incs
        → Reports now (g ∷ gs) incs

  correlate_groups-Reports :
      (cfg : EngineConfig) (now : ℕ) (gs : List EventGroup) (trace : List Effect)
      → Reports now gs (correlate_groups s cfg now gs trace).0
  unfolding correlate_groups
  correlate_groups-Reports cfg now [] trace = finished
  correlate_groups-Reports cfg now (g ∷ gs) trace =
      elim (Bool-cases (ltb (length (distinct_modules g)) 2)) [
        | inl few ↦
            let alone : ¬ IsCross g.events =
              λ c. absurd (ground (arith, (distinct_modules_iff g).1 c)) in
            rw few (skipped g gs _ alone (correlate_groups-Reports cfg now gs trace))
        | inr many ↦ rw many (
            reported g gs _ _ ((distinct_modules_iff g).0 (ground arith))
              (make_incident-IsOf cfg now g trace)
              (correlate_groups-Reports cfg now gs (make_incident s cfg now g trace).1))
      ]

  -- `Correlate` walks the groups of the pruned window and reports, in that order, one incident for each
  -- group with two events of different modules and none for a group without; the incident carries
  -- the events, the score and the attributes of its group and the time. The incidents are returned and
  -- stored behind those there before, without an error.
  pub correlate-Reports :
      (order : List EventGroup → List EventGroup) (e : Engine) (now : ℕ)
      → let (e', incs, err) = correlate s order e none now in
        Reports now (order (group_events (prune_events e now))) incs
        × (e'.incidents ≡ e.incidents ++ incs)
        × (err ≡ none)
  unfolding correlate
  correlate-Reports order e now = (
    correlate_groups-Reports e.config now (order (group_events (prune_events e now))) e.trace,
    refl,
    refl,
  )

  -- An incident of a group that crosses modules.
  pub record IsSound (inc : CorrelatedIncident) : Type 0 where
    pub cross : IsCross inc.contributing_events
    pub at_least : 40 ≤ inc.confidence_score
    pub at_most : inc.confidence_score ≤ 100

  IsOf-IsSound :
      (now : ℕ) (g : EventGroup) (inc : CorrelatedIncident)
      → IsOf now g inc
      → IsCross g.events
      → IsSound inc
  IsOf-IsSound now g inc o (a, b, ma, mb, ne) = record {
    cross = rw o.from (a, b, ma, mb, ne);
    at_least =
        omega (arith, o.scored, cross_module_confidence g.events g.matched_attributes a b ma mb ne);
    at_most = omega (arith, o.scored, calculate_confidence-le g.events g.matched_attributes);
  }

  Reports-IsSound :
      (now : ℕ) (gs : List EventGroup) (incs : List CorrelatedIncident)
      → Reports now gs incs
      → All IsSound incs
  Reports-IsSound now _ _ finished = tt
  Reports-IsSound now _ _ (reported g gs inc incs cross from r) =
      (IsOf-IsSound now g inc from cross, Reports-IsSound now gs incs r)
  Reports-IsSound now _ _ (skipped g gs incs alone r) = Reports-IsSound now gs incs r

  -- Every incident that `Correlate` reports has contributing events of two modules, and a score of
  -- 40 to 100.
  pub correlate-IsSound :
      (order : List EventGroup → List EventGroup) (e : Engine) (now : ℕ)
      → All IsSound (correlate s order e none now).1
  correlate-IsSound order e now = Reports-IsSound now _ _ (correlate-Reports order e now).0
