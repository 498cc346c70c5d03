-- ===== src/Export/Buffer/Process.antt =====
-- `ProcessBuffer`, with the outside world as answers numbered by the round: the clock, the
-- backend's `Send`, and the context's `Done` and `Err`.
use titanops.Common.{ℕ, zero, suc, String, Option, none, some, List, [], ◌∷◌, length}
use mathlib.Core.Option
use titanops.Export.Event.{Event}
use titanops.Export.Buffer.Defs.{RingBuffer, RetryExhaustedError, peek, mark_success, mark_failure}

pub data ProcessError : Type 0 where
  cancelled : String → ProcessError
  exhausted : RetryExhaustedError → ProcessError

-- In round k the context is polled, `Peek` reads the clock, the backend is called, and the mark
-- reads the clock.
pub record World : Type 0 where
  pub done : ℕ → Option String
  pub peek_time : ℕ → ℕ
  pub send : ℕ → Event → Option String
  pub mark_time : ℕ → ℕ

-- The buffer at the return, what `ProcessBuffer` returns, and what the backend accepted.
pub record Run : Type 0 where
  pub buffer : RingBuffer
  pub result : Option ProcessError
  pub sent : List Event

abbrev pub note_sent : Event → Option Run → Option Run
note_sent ev none = none
note_sent ev (some r) = some (record r { sent = ev ∷ r.sent })

module _ (w : World) where
  -- `err != nil` after `Send`.
  unfoldable pub after_failure : RingBuffer → ℕ → Run
  after_failure rb k =
      let (rb', discarded) = mark_failure rb (w.mark_time k) in
      record { buffer = rb'; result = Option.map exhausted discarded; sent = [] }

  -- The loop; `none` is fuel run out.
  unfoldable pub process_from : ℕ → ℕ → RingBuffer → Option Run
  process_from zero k rb = none
  process_from (suc fuel) k rb = elim (w.done k) [
    | some e ↦ some (record { buffer = rb; result = some (cancelled e); sent = [] })
    | none ↦ elim (peek rb (w.peek_time k)) [
      | none ↦ some (record { buffer = rb; result = none; sent = [] })
      | some ev ↦ elim (w.send k ev) [
        | some e ↦ some (after_failure rb k)
        | none ↦ note_sent ev (process_from fuel (suc k) (mark_success rb (w.mark_time k)))
      ]
    ]
  ]

  -- Every round but the last removes an item, so this fuel is enough: see `Drain`.
  abbrev pub process_buffer : RingBuffer → Option Run
  process_buffer rb = process_from (suc (length rb.items)) 0 rb
