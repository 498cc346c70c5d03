-- ===== src/Export/Buffer/Conserve.antt =====
-- Where the events of a run of `ProcessBuffer` end up.
use titanops.Common.{
  ℕ, zero, suc, ◌≤◌, ◌⊎◌, All, ◌<◌, ◌≡◌, refl, ap, sym, Option, none, some, List, [], ◌∷◌, ◌++◌,
  length, arith, Option-cases, inl, inr, ◌∙◌, map,
}
use mathlib.Core.List.{Memᴰ, Perm, perm_middle, map-append}
use mathlib.Core.List.Perm
use titanops.Export.Event.{Event}
use titanops.Export.Buffer.Defs.{BufferedEvent, RingBuffer, peek, mark_success}
use titanops.Export.Buffer.Process.{
  ProcessError, cancelled, exhausted, World, Run, after_failure, process_from, process_buffer,
}
use titanops.Export.Buffer.Invariant.{IsValid, mark_success-IsValid}
use titanops.Export.Buffer.History.{events}
use titanops.Export.Buffer.Order.{mark_success-peek, event_of}
use titanops.Export.Buffer.Drain.{length-mark_success}
use titanops.Export.Buffer.Overtaken.{FallsDue, marked_item, mem-mark_success}
use titanops.Export.Buffer.Failure.{mark_failure-peek}

-- At most one event is lost by a run, and then the run returns the error that names it.
abbrev pub Reported : List Event → Option ProcessError → Type 0
Reported [] result = Unit
Reported (ev ∷ []) none = ⊥
Reported (ev ∷ []) (some (cancelled e)) = ⊥
Reported (ev ∷ []) (some (exhausted e)) = e.event_id ≡ ev.event_id
Reported (ev ∷ ev' ∷ l) result = ⊥

-- In each round from `k` on, the backend accepted the event, and the item removed holds the event sent, or it fell due between the readings of
-- the clock by `Peek` and by the mark.
abbrev pub Served : World → ℕ → List Event → List BufferedEvent → Type 0
Served w k [] [] = Unit
Served w k [] (b ∷ removed) = ⊥
Served w k (ev ∷ sent) [] = ⊥
Served w k (ev ∷ sent) (b ∷ removed) =
    ((w.send k ev ≡ none) × ((b.event ≡ ev) ⊎ FallsDue (w.peek_time k) (w.mark_time k) b))
    × Served w (suc k) sent removed

pub record Accounts (w : World) (k : ℕ) (rb : RingBuffer) (r : Run) : Type 0 where
  pub lost : List Event
  pub removed : List BufferedEvent
  pub reported : Reported lost r.result
  pub served : Served w k r.sent removed
  pub held : All (λ b. Memᴰ b rb.items) removed
  pub perm : Perm (events rb) (map event_of removed ++ lost ++ events r.buffer)

kept_events :
    (rb : RingBuffer) (before behind : List BufferedEvent) (found again : BufferedEvent)
    → rb.items ≡ before ++ found ∷ behind
    → again.event ≡ found.event
    → events rb ≡ map event_of (before ++ again ∷ behind)
kept_events rb before behind found again parts same =
    ap (map event_of) parts
    ∙ map-append event_of before (found ∷ behind)
    ∙ ap (λ x. map event_of before ++ x ∷ map event_of behind) (sym same)
    ∙ sym (map-append event_of before (again ∷ behind))

gone_events :
    (rb : RingBuffer) (before behind : List BufferedEvent) (found : BufferedEvent) (ev : Event)
    → rb.items ≡ before ++ found ∷ behind
    → found.event ≡ ev
    → Perm (events rb) (ev ∷ map event_of (before ++ behind))
gone_events rb before behind found ev parts shown =
    rw (kept_events rb before behind found found parts refl, map-append, map-append, shown)
      (perm_middle _ _)

after_failure-Accounts :
    (w : World) (k : ℕ) (rb : RingBuffer) (ev : Event)
    → IsValid rb
    → peek rb (w.mark_time k) ≡ some ev
    → Accounts w k rb (after_failure w rb k)
unfolding after_failure
after_failure-Accounts w k rb ev v p = elim (mark_failure-peek rb (w.mark_time k) ev v p) [
  | inl kept ↦ rw kept.after (record {
    lost = [];
    removed = [];
    reported = tt;
    served = tt;
    held = tt;
    perm =
        rw
          (kept_events rb kept.before kept.behind kept.found kept.again kept.parts
            (kept.same ∙ sym kept.shown))
          (Perm.refl _);
  })
  | inr gone ↦ rw gone.after (record {
    lost = ev ∷ [];
    removed = [];
    reported = refl;
    served = tt;
    held = tt;
    perm = gone_events rb gone.before gone.behind gone.found ev gone.parts gone.shown;
  })
]

held_before :
    (rb : RingBuffer) (t : ℕ) (removed : List BufferedEvent)
    → All (λ b. Memᴰ b (mark_success rb t).items) removed
    → All (λ b. Memᴰ b rb.items) removed
held_before rb t [] h = tt
held_before rb t (b ∷ removed) h = (mem-mark_success rb t b h.0, held_before rb t removed h.1)

sent-Accounts :
    (w : World) (k : ℕ) (rb : RingBuffer) (b : BufferedEvent) (ev : Event) (r : Run)
    → Memᴰ b rb.items
    → peek rb (w.mark_time k) ≡ some b.event
    → (w.send k ev ≡ none) × ((b.event ≡ ev) ⊎ FallsDue (w.peek_time k) (w.mark_time k) b)
    → Accounts w (suc k) (mark_success rb (w.mark_time k)) r
    → Accounts w k rb (record r { sent = ev ∷ r.sent })
sent-Accounts w k rb b ev r m p why a =
    let (before, behind, was, is) = mark_success-peek rb (w.mark_time k) b.event p in
    record {
      lost = a.lost;
      removed = b ∷ a.removed;
      reported = a.reported;
      served = (why, a.served);
      held = (m, held_before rb (w.mark_time k) a.removed a.held);
      perm = Perm.trans (rw was (perm_middle before behind)) (Perm.cons b.event (rw is at a.perm));
    }

untouched :
    (w : World) (k : ℕ) (rb : RingBuffer) (result : Option ProcessError)
    → Reported [] result
    → Accounts w k rb (record { buffer = rb; result = result; sent = [] })
untouched w k rb result reported = record {
  lost = [];
  removed = [];
  reported = reported;
  served = tt;
  held = tt;
  perm = Perm.refl _;
}

process_from-Accounts :
    (w : World)
    → ((k : ℕ) → w.peek_time k ≤ w.mark_time k)
    → (fuel k : ℕ) (rb : RingBuffer) → length rb.items < fuel
    → IsValid rb
    → (r : Run) × (process_from w fuel k rb ≡ some r) × Accounts w k rb r
unfolding process_from
process_from-Accounts w clock zero k rb m v = absurd (omega arith)
process_from-Accounts w clock (suc fuel) k rb m v = elim (Option-cases (w.done k)) [
  | inr (e, d) ↦ (_, rw (d, process_from) refl, untouched w k rb (some (cancelled e)) tt)
  | inl d ↦ elim (Option-cases (peek rb (w.peek_time k))) [
    | inl p ↦ (_, rw (d, p, process_from) refl, untouched w k rb none tt)
    | inr (ev, p) ↦
        let t = w.mark_time k in
        let (b, mem, p', why) = marked_item rb (w.peek_time k) t ev (clock k) p in
        elim (Option-cases (w.send k ev)) [
          | inr (e, s) ↦ (
            after_failure w rb k,
            rw (d, p, s, process_from),
            after_failure-Accounts w k rb b.event v p',
          )
          | inl s ↦
              let (r, rest, a) =
                process_from-Accounts w clock fuel (suc k) (mark_success rb t)
                  (omega (arith, length-mark_success rb t t b.event (omega arith) p'))
                  (mark_success-IsValid rb t v) in
              (
                record r { sent = ev ∷ r.sent },
                rw (d, p, s, rest, process_from),
                sent-Accounts w k rb b ev r mem p' (s, why) a,
              )
        ]
  ]
]

-- On a valid buffer, with a clock that does not go back between `Peek` and the mark of a round,
-- `ProcessBuffer` returns. Every buffered event was removed by a mark of success, is still
-- buffered, or is the one event that the returned error names. The events so removed are, one for one and in
-- order, those that the backend accepted, but where the removed item fell due between `Peek` and the mark.
pub process_buffer_conserves :
    (w : World) (rb : RingBuffer)
    → ((k : ℕ) → w.peek_time k ≤ w.mark_time k)
    → IsValid rb
    → (r : Run) × (process_buffer w rb ≡ some r) × Accounts w 0 rb r
process_buffer_conserves w rb clock v =
    process_from-Accounts w clock (suc (length rb.items)) 0 rb (omega arith) v
