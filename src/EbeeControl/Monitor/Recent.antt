-- ===== src/EbeeControl/Monitor/Recent.antt =====
-- The circular buffer holds the newest events that were pushed.
use titanops.Common.{
  ℕ, zero, suc, ◌+◌, ◌-◌, ◌%◌, ◌≤◌, ◌<◌, ◌≡◌, ◌≢◌, ◌⊎◌, inl, inr, refl, ◌∙◌, ap, sym, ◌==◌, ltb,
  Bool, true, false, some, List, [], ◌∷◌, length, get_elem?, set, take, drop, get_elem?-some, arith,
  if◌then◌else◌, length-set, length-replicate,
}
use mathlib.Core.Path.{subst}
use native.Mathlib.Decide.{dec_lt}
use titanops.Common.Int.{pos}
use titanops.Common.Take.{take-drop, take-take, take_all, take-take_short}
use titanops.EbeeControl.Monitor.Cells.{once_round, full_cells, free_cells}
use titanops.EbeeControl.Types.{AccessEvent}
use titanops.EbeeControl.Monitor.Buffer.{
  EventBuffer, new_event_buffer, push, collect, recent, zero_event,
}

-- The buffer after the pushes of a list of events, the newest first.
unfoldable pub pushed : ℕ → List AccessEvent → EventBuffer
pushed capacity [] = new_event_buffer (pos capacity)
pushed capacity (e ∷ older) = push (pushed capacity older) e

-- The buffer stands for a history: its counters and each of the cells that it reads.
record Holds (cap : ℕ) (history : List AccessEvent) (b : EventBuffer) : Type 0 where
  same_capacity : b.capacity ≡ cap
  cells : length b.events ≡ cap
  head_lt : b.head < cap
  size_le : b.size ≤ cap
  counted : b.size + b.overflow ≡ length history
  lost : 0 < b.overflow → b.size ≡ cap
  cell :
      (i : ℕ)
      → i < b.size
      → get_elem? b.events ((b.head + b.size - 1 - i) % cap) ≡ get_elem? history i

module _ (cap : ℕ) (history : List AccessEvent) (b : EventBuffer) (e : AccessEvent) where
  push_full :
      b.size ≡ b.capacity
      → Holds cap history b
      → Holds cap (e ∷ history) (record {
        events = set b.events b.head e;
        capacity = b.capacity;
        head = (b.head + 1) % b.capacity;
        size = b.size;
        overflow = b.overflow + 1;
      })
  push_full full h =
      let h_cells = h.cells in
      let h_head = h.head_lt in
      let same = h.same_capacity in
      record {
        same_capacity = same;
        cells = length-set b.events b.head e ∙ h_cells;
        head_lt = rw same (ground (arith, once_round (b.head + 1) cap (omega arith)));
        size_le = h.size_le;
        counted = omega (arith, h.counted);
        lost = λ some_lost. omega (arith);
        cell = λ i lt.
            rw (same, full, same)
              (full_cells cap b.events history e b.head i h_cells h_head (omega arith) (λ j lt'.
                subst (λ s. get_elem? b.events ((b.head + s - 1 - j) % cap) ≡ get_elem? history j)
                  (full ∙ same) (h.cell j (omega arith))));
      }

  push_free :
      b.size ≢ b.capacity
      → Holds cap history b
      → Holds cap (e ∷ history) (record {
        events = set b.events ((b.head + b.size) % b.capacity) e;
        capacity = b.capacity;
        head = b.head;
        size = b.size + 1;
        overflow = b.overflow;
      })
  push_free free h =
      let h_size = h.size_le in
      let same = h.same_capacity in
      let before = h.counted in
      record {
        same_capacity = same;
        cells = length-set b.events _ e ∙ h.cells;
        head_lt = h.head_lt;
        size_le = omega arith;
        counted = omega arith;
        lost = λ some_lost. absurd (omega (arith, h.lost some_lost));
        cell = λ i lt. rw same (
            free_cells cap b.events history e b.head b.size i h.cells h.head_lt (omega arith) lt
              h.cell);
      }

push-Holds :
    (cap : ℕ) (history : List AccessEvent) (b : EventBuffer) (e : AccessEvent)
    → Holds cap history b
    → Holds cap (e ∷ history) (push b e)
unfolding push
push-Holds cap history b e h = go (b.size == b.capacity) refl
  where
    P : EventBuffer → Type 0
    P = Holds cap (e ∷ history)

    go : (t : Bool) → (b.size == b.capacity) ≡ t → P (push b e)
    go true is =
        let full : b.size ≡ b.capacity = ground arith in
        let same : push b e ≡ _ = rw (is, push) refl in
        subst P (sym same) (push_full cap history b e full h)
    go false is =
        let free : b.size ≢ b.capacity = ground arith in
        let same : push b e ≡ _ = rw (is, push) refl in
        subst P (sym same) (push_free cap history b e free h)

pushed-Holds : (n : ℕ) (history : List AccessEvent) → Holds (suc n) history (pushed (suc n) history)
unfolding pushed new_event_buffer
pushed-Holds n [] = record {
  same_capacity = refl;
  cells = length-replicate (suc n) zero_event;
  head_lt = omega arith;
  size_le = omega arith;
  counted = refl;
  lost = λ none_lost. omega arith;
  cell = λ i none_in. absurd (omega arith);
}
pushed-Holds n (e ∷ older) =
    push-Holds (suc n) older (pushed (suc n) older) e (pushed-Holds n older)

collect-take :
    (cap : ℕ) (history : List AccessEvent) (b : EventBuffer) (i left : ℕ)
    → Holds cap history b
    → i + left ≤ b.size
    → collect b i left ≡ some (take left (drop i history))
unfolding collect
collect-take cap history b i zero h lt = refl
collect-take cap history b i (suc left) h lt =
    let (e, found) = get_elem?-some history i (omega (arith, h.counted)) in
    let read = h.cell i (omega arith) ∙ found in
    let rest = collect-take cap history b (suc i) left h (omega arith) in
    let seen : get_elem? b.events ((b.head + b.size - 1 - i) % b.capacity) ≡ some e =
      ap (λ c. get_elem? b.events ((b.head + b.size - 1 - i) % c)) h.same_capacity ∙ read in
    rw (seen, rest, take-drop history i left e found, collect) refl

-- The number of events that `Recent` asks for.
asked :
    (cap n size : ℕ) (history : List AccessEvent)
    → size ≤ cap
    → (size ≡ cap) ⊎ (size ≡ length history)
    → take (if ltb size n then size else n) history ≡ take n (take cap history)
asked cap n size history le cases =
    let first : ℕ → List AccessEvent = λ k. take k history in
    elim (dec_lt size n) [
      | yes more ↦
          let count : (if ltb size n then size else n) ≡ size = ground arith in
          ap first count ∙ all_kept more cases
      | no fewer ↦
          let count : (if ltb size n then size else n) ≡ n = ground arith in
          ap first count ∙ take-take n cap history (omega arith)
    ]
  where
    all_kept :
        size < n
        → (size ≡ cap) ⊎ (size ≡ length history)
        → take size history ≡ take n (take cap history)
    all_kept more (inl full) =
        ap (λ k. take k history) full ∙ sym (take-take_short n cap history (omega arith))
    all_kept more (inr whole) =
        take_all size history (omega arith)
        ∙ sym (ap (take n) (take_all cap history (omega arith)) ∙ take_all n history (omega arith))

size-cases :
    (cap : ℕ) (history : List AccessEvent) (b : EventBuffer)
    → Holds cap history b
    → (b.size ≡ cap) ⊎ (b.size ≡ length history)
size-cases cap history b h = elim (dec_lt 0 b.overflow) [
  | yes lost ↦ inl (h.lost lost)
  | no none_lost ↦ inr (omega (arith, h.counted))
]

-- After any pushes into a buffer of a positive capacity, and with n at least 0, `Recent` returns the newest
-- n of the events that a bounded queue of that capacity still has, the newest first, and does not panic; and
-- the size and the overflow counter add up to the number of pushes, with the size at the capacity once
-- anything has been lost.
pub recent_refines :
    (capacity n : ℕ) (history : List AccessEvent)
    → let b = pushed (suc capacity) history in
      (recent b (pos n) ≡ some (take n (take (suc capacity) history)))
      × (b.size + b.overflow ≡ length history)
      × (b.size ≤ suc capacity)
      × (0 < b.overflow → b.size ≡ suc capacity)
unfolding recent
recent_refines capacity n history =
    let h = pushed-Holds capacity history in
    let b = pushed (suc capacity) history in
    let whole_or_full = size-cases (suc capacity) history b h in
    (
      collect-take (suc capacity) history b 0 (if ltb b.size n then b.size else n) h (ground arith)
          ∙ ap some (asked (suc capacity) n b.size history h.size_le whole_or_full),
      h.counted,
      h.size_le,
      h.lost,
    )
