-- ===== src/Export/Buffer/Order.antt =====
-- What `Peek` and the marks agree on. Each reads the clock for itself: with one reading they speak
-- of the same event; with two, a retry may fall due between them.
use titanops.Common.{
  ℕ, ◌≡◌, refl, ◌∙◌, ap, true, false, none, some, List, ◌∷◌, ◌++◌, map, arith, ◌⊎◌, inl, inr, All,
}
use mathlib.Core.List.{map-append}
use titanops.Export.Event.{Event}
use titanops.Export.Buffer.Defs.{
  BufferedEvent, RingBuffer, Split, is_ready, split_ready, peek, mark_success,
}
use titanops.Export.Buffer.Invariant.{Splits, split_ready-Splits}
use titanops.Export.Buffer.History.{events}

-- The search as a case split: no item is ready, or the items fall apart at the first ready one.
pub split_ready-cases :
    (now : ℕ) (items : List BufferedEvent)
    → ((split_ready now items ≡ none) × All (λ b. is_ready now b ≡ false) items)
      ⊎ ((before : List BufferedEvent) × (found : BufferedEvent) × (behind : List BufferedEvent)
          × (split_ready now items ≡ some (before, found, behind))
          × (items ≡ before ++ found ∷ behind)
          × (All (λ b. is_ready now b ≡ false) before)
          × (is_ready now found ≡ true))
split_ready-cases now items = go (split_ready now items) refl (split_ready-Splits now items)
  where
    go :
        (s : Split)
        → split_ready now items ≡ s
        → Splits now items s
        → ((split_ready now items ≡ none) × All (λ b. is_ready now b ≡ false) items)
          ⊎ ((before : List BufferedEvent) × (found : BufferedEvent) × (behind : List BufferedEvent)
              × (split_ready now items ≡ some (before, found, behind))
              × (items ≡ before ++ found ∷ behind)
              × (All (λ b. is_ready now b ≡ false) before)
              × (is_ready now found ≡ true))
    go none e h = inl (e, h)
    go (some (before, found, behind)) e h = inr (before, found, behind, e, h.0, h.1, h.2)

abbrev pub event_of : BufferedEvent → Event
event_of b = b.event

-- With one reading of the clock, marking the success of the event that `Peek` shows removes that
-- event and no other, and keeps the order of the rest.
pub mark_success-peek :
    (rb : RingBuffer) (now : ℕ) (ev : Event)
    → peek rb now ≡ some ev
    → (before : List Event) × (behind : List Event) × (events rb ≡ before ++ ev ∷ behind)
      × (events (mark_success rb now) ≡ before ++ behind)
unfolding peek mark_success
mark_success-peek rb now ev h = elim (split_ready-cases now rb.items) [
  | inl (e, all) ↦ absurd (cc (rw (e, peek) at h))
  | inr (before, found, behind, e, parts, early, ready) ↦
      let shown : found.event ≡ ev = ground (arith, rw (e, peek) at h) in
      (
        map event_of before,
        map event_of behind,
        ap (map event_of) parts
            ∙ map-append event_of before (found ∷ behind)
            ∙ ap (λ x. map event_of before ++ x ∷ map event_of behind) shown,
        rw (e, mark_success) (map-append event_of before behind),
      )
]

-- With two readings of the clock, where the oldest item falls due between them, `Peek` shows
-- another event, the mark removes the oldest one, and the event that was sent stays.
pub mark_success_other :
    (rb : RingBuffer) (seen marked : ℕ) (oldest : BufferedEvent) (rest : List BufferedEvent)
    (ev : Event)
    → rb.items ≡ oldest ∷ rest
    → is_ready seen oldest ≡ false
    → is_ready marked oldest ≡ true
    → peek rb seen ≡ some ev
    → (events (mark_success rb marked) ≡ map event_of rest)
      × ((before : List Event) × (behind : List Event) × (map event_of rest
            ≡ before ++ ev ∷ behind))
unfolding peek mark_success split_ready
mark_success_other rb seen marked oldest rest ev items early due h = (
  rw (items, due, mark_success, split_ready),
  elim (split_ready-cases seen rest) [
    | inl (e, all) ↦ absurd (cc (rw (items, early, split_ready, e, peek) at h))
    | inr (before, found, behind, e, parts, _, ready) ↦
        let shown : found.event ≡ ev =
          ground (arith, rw (items, early, split_ready, e, peek) at h) in
        (
          map event_of before,
          map event_of behind,
          ap (map event_of) parts
              ∙ map-append event_of before (found ∷ behind)
              ∙ ap (λ x. map event_of before ++ x ∷ map event_of behind) shown,
        )
  ],
)
