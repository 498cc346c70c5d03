-- ===== src/Export/Buffer/Drain.antt =====
-- What a run of `ProcessBuffer` does: it ends, and it accounts for every event.
use titanops.Common.{
  ℕ, zero, suc, ◌+◌, ◌≤◌, ◌<◌, ◌≡◌, refl, ap, false, none, some, List, [], ◌∷◌, length,
  length-append, arith, All, Option-cases, inl, inr,
}
use titanops.Export.Event.{Event}
use titanops.Export.Buffer.Defs.{
  BufferedEvent, RingBuffer, is_ready, split_ready, peek, mark_success,
}
use titanops.Export.Buffer.Process.{
  cancelled, World, Run, after_failure, process_from, process_buffer,
}
use titanops.Export.Buffer.Order.{split_ready-cases}

pub is_ready-later :
    (b : BufferedEvent) (t u : ℕ) → t ≤ u → is_ready u b ≡ false → is_ready t b ≡ false
unfolding is_ready
is_ready-later b t u h e = ground arith

pub split_ready-none :
    (t u : ℕ) (items : List BufferedEvent)
    → t ≤ u
    → All (λ b. is_ready u b ≡ false) items
    → split_ready t items ≡ none
unfolding split_ready
split_ready-none t u [] h all = refl
split_ready-none t u (b ∷ items) h all =
    rw (is_ready-later b t u h all.0, split_ready) (rw (split_ready-none t u items h all.1))

-- A mark that reads the clock no earlier than `Peek` did removes one item.
pub length-mark_success :
    (rb : RingBuffer) (t u : ℕ) (ev : Event)
    → t ≤ u
    → peek rb t ≡ some ev
    → length (mark_success rb u).items + 1 ≡ length rb.items
unfolding peek mark_success
length-mark_success rb t u ev h shown = elim (split_ready-cases u rb.items) [
  | inl (e, all) ↦ absurd (cc (rw (split_ready-none t u rb.items h all, peek) at shown))
  | inr (before, found, behind, e, parts, early, ready) ↦
      rw (e, mark_success)
        (omega (
          arith,
          ap length parts,
          length-append {0} before (found ∷ behind),
          length-append {0} before behind,
        ))
]

process_from-total :
    (w : World)
    → ((k : ℕ) → w.peek_time k ≤ w.mark_time k)
    → (fuel k : ℕ) (rb : RingBuffer) → length rb.items < fuel
    → (r : Run) × (process_from w fuel k rb ≡ some r)
unfolding process_from
process_from-total w clock zero k rb h = absurd (omega arith)
process_from-total w clock (suc fuel) k rb h = elim (Option-cases (w.done k)) [
  | inr (e, d) ↦
      (record { buffer = rb; result = some (cancelled e); sent = [] }, rw (d, process_from))
  | inl d ↦ elim (Option-cases (peek rb (w.peek_time k))) [
    | inl p ↦ (record { buffer = rb; result = none; sent = [] }, rw (d, p, process_from))
    | inr (ev, p) ↦ elim (Option-cases (w.send k ev)) [
      | inr (e, s) ↦ (after_failure w rb k, rw (d, p, s, process_from))
      | inl s ↦
          let (r, rest) =
            process_from-total w clock fuel (suc k) (mark_success rb (w.mark_time k)) (
              omega
                (arith, length-mark_success rb (w.peek_time k) (w.mark_time k) ev (clock k) p)) in
          (record r { sent = ev ∷ r.sent }, rw (d, p, s, rest, process_from))
    ]
  ]
]

-- `ProcessBuffer` returns, whatever the context and the backend answer, if the clock does not go
-- back between `Peek` and the mark of a round.
pub process_buffer_total :
    (w : World) (rb : RingBuffer)
    → ((k : ℕ) → w.peek_time k ≤ w.mark_time k)
    → (r : Run) × (process_buffer w rb ≡ some r)
process_buffer_total w rb clock =
    process_from-total w clock (suc (length rb.items)) 0 rb (omega arith)
