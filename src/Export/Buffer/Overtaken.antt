-- ===== src/Export/Buffer/Overtaken.antt =====
-- Which item a mark acts on when it reads the clock later than `Peek` did.
use titanops.Common.{
  ℕ, ◌≤◌, ◌<◌, ◌≡◌, refl, ◌⊎◌, true, false, some, List, [], ◌∷◌, ◌++◌, arith, All, Bool-cases, inl,
  inr,
}
use mathlib.Core.List.{Memᴰ}
use titanops.Export.Event.{Event}
use titanops.Export.Buffer.Defs.{
  BufferedEvent, RingBuffer, is_ready, split_ready, peek, mark_success,
}
use titanops.Export.Buffer.Order.{split_ready-cases}
use titanops.Export.Buffer.Drain.{is_ready-later, split_ready-none}

mem_middle :
    (before behind : List BufferedEvent) (x : BufferedEvent) → Memᴰ x (before ++ x ∷ behind)
mem_middle [] behind x = Memᴰ.head refl
mem_middle (b ∷ before) behind x = Memᴰ.tail (mem_middle before behind x)

mem_around :
    (before behind : List BufferedEvent) (found x : BufferedEvent)
    → Memᴰ x (before ++ behind)
    → Memᴰ x (before ++ found ∷ behind)
mem_around [] behind found x m = Memᴰ.tail m
mem_around (b ∷ before) behind found x (Memᴰ.head same) = Memᴰ.head same
mem_around (b ∷ before) behind found x (Memᴰ.tail m) =
    Memᴰ.tail (mem_around before behind found x m)

split_ready-at :
    (t : ℕ) (before behind : List BufferedEvent) (found : BufferedEvent)
    → All (λ b. is_ready t b ≡ false) before
    → is_ready t found ≡ true
    → split_ready t (before ++ found ∷ behind) ≡ some (before, found, behind)
unfolding split_ready
split_ready-at t [] behind found early ready = rw (ready, split_ready) refl
split_ready-at t (b ∷ before) behind found early ready =
    rw (early.0, split_ready) (rw (split_ready-at t before behind found early.1 ready) refl)

early_still :
    (t u : ℕ) (items : List BufferedEvent)
    → t ≤ u
    → All (λ b. is_ready u b ≡ false) items
    → All (λ b. is_ready t b ≡ false) items
early_still t u [] h all = tt
early_still t u (b ∷ items) h all = (is_ready-later b t u h all.0, early_still t u items h all.1)

-- The item falls due between the two readings of the clock.
abbrev pub FallsDue : ℕ → ℕ → BufferedEvent → Type 0
FallsDue seen marked b = (seen < b.next_try) × (b.next_try ≤ marked)

falls_due :
    (t u : ℕ) (b : BufferedEvent) → is_ready t b ≡ false → is_ready u b ≡ true → FallsDue t u b
unfolding is_ready
falls_due t u b early ready = (ground arith, ground arith)

-- The mark acts on an item of the buffer that holds the event shown, or that fell due in between.
pub marked_item :
    (rb : RingBuffer) (t u : ℕ) (ev : Event)
    → t ≤ u
    → peek rb t ≡ some ev
    → (b : BufferedEvent) × Memᴰ b rb.items
      × (peek rb u ≡ some b.event)
      × ((b.event ≡ ev) ⊎ FallsDue t u b)
unfolding peek
marked_item rb t u ev h shown = elim (split_ready-cases u rb.items) [
  | inl (e, all) ↦ absurd (cc (rw (split_ready-none t u rb.items h all, peek) at shown))
  | inr (before, found, behind, e, parts, early, ready) ↦ (
    found,
    rw parts (mem_middle before behind found),
    rw (e, peek) refl,
    elim (Bool-cases (is_ready t found)) [
      | inl seen ↦ inl (
          ground (
            arith,
            rw
                (
                  parts,
                  split_ready-at t before behind found (early_still t u before h early) seen,
                  peek,
                )
                at shown,
          ))
      | inr unseen ↦ inr (falls_due t u found unseen ready)
    ],
  )
]

pub mem-mark_success :
    (rb : RingBuffer) (u : ℕ) (x : BufferedEvent)
    → Memᴰ x (mark_success rb u).items
    → Memᴰ x rb.items
unfolding mark_success
mem-mark_success rb u x m = elim (split_ready-cases u rb.items) [
  | inl (e, all) ↦ rw (e, mark_success) at m
  | inr (before, found, behind, e, parts, early, ready) ↦
      rw parts (mem_around before behind found x (rw (e, mark_success) at m))
]
