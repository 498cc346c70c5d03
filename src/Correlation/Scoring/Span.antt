-- ===== src/Correlation/Scoring/Span.antt =====
-- What `eventTimeSpan` measures.
use titanops.Common.{
  ℕ, ◌+◌, ◌-◌, ◌≤◌, ◌≡◌, refl, sym, ◌⊎◌, inl, inr, ◌↔◌, List, [], ◌∷◌, ltb, if◌then◌else◌, arith,
  Bool-cases,
}
use mathlib.Core.List.{Memᴰ}
use titanops.Export.Event.{Event}
use titanops.Correlation.Scoring.Defs.{earliest_from, latest_from, event_time_span}

latest_from-ge : (t : ℕ) (evs : List Event) → t ≤ latest_from t evs
unfolding latest_from
latest_from-ge t [] = omega arith
latest_from-ge t (ev ∷ evs) =
    ground (arith, latest_from-ge (if ltb t ev.timestamp then ev.timestamp else t) evs)

latest_from-mem :
    (t : ℕ) (evs : List Event) (a : Event) → Memᴰ a evs → a.timestamp ≤ latest_from t evs
unfolding latest_from
latest_from-mem t [] a m = elim m [ ]
latest_from-mem t (ev ∷ evs) a (Memᴰ.head e) =
    rw e (ground (arith, latest_from-ge (if ltb t ev.timestamp then ev.timestamp else t) evs))
latest_from-mem t (ev ∷ evs) a (Memᴰ.tail m) =
    latest_from-mem (if ltb t ev.timestamp then ev.timestamp else t) evs a m

-- A time that is shown by one of the events.
abbrev Shown : ℕ → List Event → Type 0
Shown t evs = (a : Event) × Memᴰ a evs × (a.timestamp ≡ t)

latest_from-Shown :
    (t : ℕ) (evs : List Event) → (latest_from t evs ≡ t) ⊎ Shown (latest_from t evs) evs
unfolding latest_from
latest_from-Shown t [] = inl refl
latest_from-Shown t (ev ∷ evs) = elim (Bool-cases (ltb t ev.timestamp)) [
  | inl more ↦
      rw (more, latest_from)
        (elim (latest_from-Shown ev.timestamp evs) [
          | inl e ↦ inr (ev, Memᴰ.head refl, sym e)
          | inr (a, m, e) ↦ inr (a, Memᴰ.tail m, e)
        ])
  | inr less ↦
      rw (less, latest_from)
        (elim (latest_from-Shown t evs) [ inl e ↦ inl e | inr (a, m, e) ↦ inr (a, Memᴰ.tail m, e) ])
]

earliest_from-le : (t : ℕ) (evs : List Event) → earliest_from t evs ≤ t
unfolding earliest_from
earliest_from-le t [] = omega arith
earliest_from-le t (ev ∷ evs) =
    ground (arith, earliest_from-le (if ltb ev.timestamp t then ev.timestamp else t) evs)

earliest_from-mem :
    (t : ℕ) (evs : List Event) (a : Event) → Memᴰ a evs → earliest_from t evs ≤ a.timestamp
unfolding earliest_from
earliest_from-mem t [] a m = elim m [ ]
earliest_from-mem t (ev ∷ evs) a (Memᴰ.head e) =
    rw e (ground (arith, earliest_from-le (if ltb ev.timestamp t then ev.timestamp else t) evs))
earliest_from-mem t (ev ∷ evs) a (Memᴰ.tail m) =
    earliest_from-mem (if ltb ev.timestamp t then ev.timestamp else t) evs a m

earliest_from-Shown :
    (t : ℕ) (evs : List Event) → (earliest_from t evs ≡ t) ⊎ Shown (earliest_from t evs) evs
unfolding earliest_from
earliest_from-Shown t [] = inl refl
earliest_from-Shown t (ev ∷ evs) = elim (Bool-cases (ltb ev.timestamp t)) [
  | inl less ↦
      rw (less, earliest_from)
        (elim (earliest_from-Shown ev.timestamp evs) [
          | inl e ↦ inr (ev, Memᴰ.head refl, sym e)
          | inr (a, m, e) ↦ inr (a, Memᴰ.tail m, e)
        ])
  | inr more ↦
      rw (more, earliest_from)
        (elim (earliest_from-Shown t evs) [
          | inl e ↦ inl e
          | inr (a, m, e) ↦ inr (a, Memᴰ.tail m, e)
        ])
]

-- No two of the events lie further than d apart.
abbrev pub AllWithin : ℕ → List Event → Type 0
AllWithin d evs = (a b : Event) → Memᴰ a evs → Memᴰ b evs → a.timestamp ≤ b.timestamp + d

module _ (d : ℕ) (ev : Event) (evs : List Event) where
  within_of_span :
      latest_from ev.timestamp evs - earliest_from ev.timestamp evs ≤ d → AllWithin d (ev ∷ evs)
  within_of_span h a b ma mb = omega (arith, late a ma, early b mb)
    where
      late : (a : Event) → Memᴰ a (ev ∷ evs) → a.timestamp ≤ latest_from ev.timestamp evs
      late a (Memᴰ.head e) = rw e (latest_from-ge ev.timestamp evs)
      late a (Memᴰ.tail m) = latest_from-mem ev.timestamp evs a m

      early : (a : Event) → Memᴰ a (ev ∷ evs) → earliest_from ev.timestamp evs ≤ a.timestamp
      early a (Memᴰ.head e) = rw e (earliest_from-le ev.timestamp evs)
      early a (Memᴰ.tail m) = earliest_from-mem ev.timestamp evs a m

  span_of_within :
      AllWithin d (ev ∷ evs) → latest_from ev.timestamp evs - earliest_from ev.timestamp evs ≤ d
  span_of_within h =
      let (a, ma, ea) = late (latest_from-Shown ev.timestamp evs) in
      let (b, mb, eb) = early (earliest_from-Shown ev.timestamp evs) in
      omega (arith, h a b ma mb, ea, eb)
    where
      late :
          (latest_from ev.timestamp evs ≡ ev.timestamp) ⊎ Shown (latest_from ev.timestamp evs) evs
          → Shown (latest_from ev.timestamp evs) (ev ∷ evs)
      late (inl e) = (ev, Memᴰ.head refl, sym e)
      late (inr (a, m, e)) = (a, Memᴰ.tail m, e)

      early :
          (earliest_from ev.timestamp evs ≡ ev.timestamp)
            ⊎ Shown (earliest_from ev.timestamp evs) evs
          → Shown (earliest_from ev.timestamp evs) (ev ∷ evs)
      early (inl e) = (ev, Memᴰ.head refl, sym e)
      early (inr (a, m, e)) = (a, Memᴰ.tail m, e)

only_one : (d : ℕ) (ev : Event) → AllWithin d (ev ∷ [])
only_one d ev a b (Memᴰ.head e) (Memᴰ.head f) = rw (e, f) (omega arith)
only_one d ev a b (Memᴰ.head e) (Memᴰ.tail n) = elim n [ ]
only_one d ev a b (Memᴰ.tail m) _ = elim m [ ]

-- The span is at most d exactly if no two of the events lie further than d apart.
pub event_time_span-le_iff :
    (evs : List Event) (d : ℕ) → (event_time_span evs ≤ d) ↔ AllWithin d evs
unfolding event_time_span
event_time_span-le_iff [] d = (λ h a b m n. elim m [ ], λ h. omega arith)
event_time_span-le_iff (ev ∷ []) d = (λ h. only_one d ev, λ h. omega arith)
event_time_span-le_iff (ev ∷ ev' ∷ evs) d =
    (within_of_span d ev (ev' ∷ evs), span_of_within d ev (ev' ∷ evs))
