-- ===== src/Export/Buffer/Failure.antt =====
-- `MarkFailure`: the event that `Peek` shows is kept for a later attempt, or dropped at the last one.
use titanops.Common.{
  ℕ, suc, ◌+◌, ◌≤◌, ◌<◌, ◌≡◌, refl, none, some, List, ◌∷◌, ◌++◌, arith, ◌⊎◌, inl, inr, Bool-cases,
  leb, leb→le,
}
use titanops.Export.Event.{Event}
use titanops.Export.Buffer.Defs.{
  BufferedEvent, RingBuffer, peek, fail_item, mark_failure, calculate_backoff,
}
use titanops.Export.Buffer.Invariant.{IsValid}
use titanops.Export.Buffer.Order.{split_ready-cases}
use titanops.Export.Buffer.Backoff.{calculate_backoff_pos}

-- The item has attempts left: it stays in its place, and is not due before its pause is over.
pub record IsRetried (rb : RingBuffer) (now : ℕ) (ev : Event) : Type 0 where
  pub before : List BufferedEvent
  pub found : BufferedEvent
  pub behind : List BufferedEvent
  pub parts : rb.items ≡ before ++ found ∷ behind
  pub shown : found.event ≡ ev
  pub left : found.attempts + 1 < rb.max_retries
  pub again : BufferedEvent
  pub same : again.event ≡ ev
  pub counted : again.attempts ≡ found.attempts + 1
  pub paused : again.next_try ≡ now + calculate_backoff rb (suc found.attempts)
  pub later : now < again.next_try
  pub after : mark_failure rb now ≡ (record rb { items = before ++ again ∷ behind }, none)

-- It was the last attempt: the item is gone, counted as dropped, and reported by its id.
pub record IsDiscarded (rb : RingBuffer) (now : ℕ) (ev : Event) : Type 0 where
  pub before : List BufferedEvent
  pub found : BufferedEvent
  pub behind : List BufferedEvent
  pub parts : rb.items ≡ before ++ found ∷ behind
  pub shown : found.event ≡ ev
  pub last : rb.max_retries ≤ found.attempts + 1
  pub after : mark_failure rb now ≡ (
    record rb { items = before ++ behind; dropped = rb.dropped + 1 },
    some (record {
      backend_name = rb.backend_name;
      event_id = ev.event_id;
      attempts = rb.max_retries;
    }),
  )

-- On a valid buffer, with one reading of the clock, a failure of the event that `Peek` shows
-- either keeps it, with one more attempt and a pause that has not passed, or, at the last attempt,
-- drops it and reports it; nothing else moves.
pub mark_failure-peek :
    (rb : RingBuffer) (now : ℕ) (ev : Event)
    → IsValid rb
    → peek rb now ≡ some ev
    → IsRetried rb now ev ⊎ IsDiscarded rb now ev
unfolding peek mark_failure fail_item
mark_failure-peek rb now ev v h = elim (split_ready-cases now rb.items) [
  | inl (e, all) ↦ absurd (cc (rw (e, peek) at h))
  | inr (before, found, behind, e, parts, early, ready) ↦
      let shown : found.event ≡ ev = ground (arith, rw (e, peek) at h) in
      elim (Bool-cases (leb rb.max_retries (found.attempts + 1))) [
        | inl last ↦ inr (record {
          before = before;
          found = found;
          behind = behind;
          parts = parts;
          shown = shown;
          last = leb→le _ _ last;
          after = rw (e, last, mark_failure, fail_item) (rw shown);
        })
        | inr more ↦ inl (record {
          before = before;
          found = found;
          behind = behind;
          parts = parts;
          shown = shown;
          left = ground arith;
          again = record found {
            attempts = found.attempts + 1;
            next_try = now + calculate_backoff rb (suc found.attempts);
          };
          same = shown;
          counted = refl;
          paused = refl;
          later =
              omega (arith, calculate_backoff_pos rb found.attempts v.first_pause v.longest_pause);
          after = rw (e, more, mark_failure, fail_item);
        })
      ]
]
