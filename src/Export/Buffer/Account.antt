-- ===== src/Export/Buffer/Account.antt =====
-- A buffer under any sequence of calls: it stays well formed, and its counters account for every
-- event that was ever pushed.
use titanops.Common.{
  ℕ, ◌+◌, ◌≡◌, refl, ap, String, Option, none, some, List, [], ◌∷◌, length, length-append,
  length-drop, length-map, arith, drop, inl, inr, Bool-cases, leb, leb→le,
}
use titanops.Export.Event.{Event}
use titanops.Export.Buffer.Defs.{
  BufferedEvent, RingBuffer, RingBufferConfig, new_ring_buffer, push, peek, mark_success, fail_item,
  mark_failure, drain,
}
use titanops.Export.Buffer.Invariant.{
  IsValid, new_ring_buffer-IsValid, push-IsValid, mark_success-IsValid, mark_failure-IsValid,
  drain-IsValid,
}
use titanops.Export.Buffer.Order.{split_ready-cases}

pub data Call : Type 0 where
  pushing : ℕ → Event → Call
  succeeding : ℕ → Call
  failing : ℕ → Call
  draining : Call

-- The buffer, with the number of events pushed, marked as sent, and drained so far.
pub record Ledger : Type 0 where
  pub buffer : RingBuffer
  pub pushed : ℕ
  pub sent : ℕ
  pub drained : ℕ

abbrev one_if_shown : Option Event → ℕ
one_if_shown none = 0
one_if_shown (some ev) = 1

unfoldable pub call : Ledger → Call → Ledger
call l (pushing now ev) = record l { buffer = push l.buffer now ev; pushed = l.pushed + 1 }
call l (succeeding now) = record l {
  buffer = mark_success l.buffer now;
  sent = l.sent + one_if_shown (peek l.buffer now);
}
call l (failing now) = record l { buffer = (mark_failure l.buffer now).0 }
call l draining =
    let (rb, events) = drain l.buffer in
    record l { buffer = rb; drained = l.drained + length events }

unfoldable pub calls : Ledger → List Call → Ledger
calls l [] = l
calls l (c ∷ cs) = calls (call l c) cs

pub record IsBalanced (l : Ledger) : Type 0 where
  pub valid : IsValid l.buffer
  pub balance : l.pushed ≡ l.sent + l.drained + l.buffer.dropped + length l.buffer.items

length-push :
    (rb : RingBuffer) (now : ℕ) (ev : Event)
    → IsValid rb
    → length (push rb now ev).items + (push rb now ev).dropped ≡ length rb.items + rb.dropped + 1
unfolding push
length-push rb now ev v = elim (Bool-cases (leb rb.capacity (length rb.items))) [
  | inl full ↦ rw full (
      omega (
        arith,
        length-append {0} (drop 1 rb.items),
        length-drop {0} 1 rb.items,
        v.room,
        leb→le _ _ full,
      ))
  | inr room ↦ rw room (omega (arith, length-append {0} rb.items))
]

length-mark_success :
    (rb : RingBuffer) (now : ℕ)
    → (length (mark_success rb now).items + one_if_shown (peek rb now) ≡ length rb.items)
      × ((mark_success rb now).dropped ≡ rb.dropped)
unfolding mark_success peek
length-mark_success rb now = elim (split_ready-cases now rb.items) [
  | inl (e, all) ↦ rw (e, mark_success, peek) (omega arith)
  | inr (before, found, behind, e, parts, _, _) ↦
      rw (e, mark_success, peek) (omega (arith, ap length parts, length-append {0} before))
]

length-mark_failure :
    (rb : RingBuffer) (now : ℕ)
    → length (mark_failure rb now).0.items + (mark_failure rb now).0.dropped
      ≡ length rb.items + rb.dropped
unfolding mark_failure fail_item
length-mark_failure rb now = elim (split_ready-cases now rb.items) [
  | inl (e, all) ↦ rw (e, mark_failure)
  | inr (before, found, behind, e, parts, _, _) ↦
      elim (Bool-cases (leb rb.max_retries (found.attempts + 1))) [
        | inl last ↦
            rw (e, last, mark_failure, fail_item)
              (omega (arith, ap length parts, length-append {0} before))
        | inr more ↦
            rw (e, more, mark_failure, fail_item)
              (omega (arith, ap length parts, length-append {0} before))
      ]
]

call-IsBalanced : (l : Ledger) (c : Call) → IsBalanced l → IsBalanced (call l c)
unfolding call drain
call-IsBalanced l (pushing now ev) b = record {
  valid = push-IsValid l.buffer b.valid now ev;
  balance = omega (arith, b.balance, length-push l.buffer now ev b.valid);
}
call-IsBalanced l (succeeding now) b = record {
  valid = mark_success-IsValid l.buffer now b.valid;
  balance = omega (arith, b.balance, length-mark_success l.buffer now);
}
call-IsBalanced l (failing now) b = record {
  valid = mark_failure-IsValid l.buffer now b.valid;
  balance = omega (arith, b.balance, length-mark_failure l.buffer now);
}
call-IsBalanced l draining b = record {
  valid = drain-IsValid l.buffer b.valid;
  balance =
      omega (arith, b.balance, length-map {0, 0} (λ (x : BufferedEvent). x.event) l.buffer.items);
}

calls-IsBalanced : (l : Ledger) (cs : List Call) → IsBalanced l → IsBalanced (calls l cs)
unfolding calls
calls-IsBalanced l [] b = b
calls-IsBalanced l (c ∷ cs) b = calls-IsBalanced (call l c) cs (call-IsBalanced l c b)

abbrev pub opened : String → Option RingBufferConfig → Ledger
opened name cfg = record { buffer = new_ring_buffer name cfg; pushed = 0; sent = 0; drained = 0 }

opened-IsBalanced : (name : String) (cfg : Option RingBufferConfig) → IsBalanced (opened name cfg)
unfolding new_ring_buffer
opened-IsBalanced name none = record { valid = new_ring_buffer-IsValid name none; balance = refl }
opened-IsBalanced name (some cfg) = record {
  valid = new_ring_buffer-IsValid name (some cfg);
  balance = refl;
}

-- After any sequence of pushes, marks and drains of a new buffer, at any times, the buffer holds at
-- most its capacity of events, each with attempts left, and every event pushed was marked as sent,
-- drained or counted as dropped, or is in the buffer.
pub calls_balance :
    (name : String) (cfg : Option RingBufferConfig) (cs : List Call)
    → IsBalanced (calls (opened name cfg) cs)
calls_balance name cfg cs = calls-IsBalanced (opened name cfg) cs (opened-IsBalanced name cfg)
