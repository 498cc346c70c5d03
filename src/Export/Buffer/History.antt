-- ===== src/Export/Buffer/History.antt =====
-- Eviction against the history of the pushes: a buffer that is only pushed to holds the newest
-- events of the history, in their order.
use titanops.Common.{
  ℕ, suc, ◌+◌, ◌-◌, ◌≤◌, ◌<◌, ◌≡◌, ◌∙◌, ap, sym, String, Option, none, some, List, [], ◌∷◌, ◌++◌,
  map, arith, length, length-append, length-drop, length-map, drop, drop-append, drop-one-drop,
  drop-map, leb, Bool-cases, leb→le, inl, inr,
}
use mathlib.Core.List.{map-append, append_assoc, append-nil}
use titanops.Export.Event.{Event}
use titanops.Export.Buffer.Defs.{BufferedEvent, RingBuffer, RingBufferConfig, new_ring_buffer, push}

abbrev pub events : RingBuffer → List Event
events rb = map (λ (b : BufferedEvent). b.event) rb.items

-- Pushes at the given times.
unfoldable pub push_all : RingBuffer → List (ℕ × Event) → RingBuffer
push_all rb [] = rb
push_all rb ((now, ev) ∷ l) = push_all (push rb now ev) l

pub record Keeps (capacity lost : ℕ) (rb : RingBuffer) (seen : List Event) : Type 0 where
  pub room : 0 < capacity
  pub fixed : rb.capacity ≡ capacity
  pub newest : events rb ≡ drop (length seen - capacity) seen
  pub counted : rb.dropped ≡ lost + (length seen - capacity)

module _ (capacity lost : ℕ) (rb : RingBuffer) (seen : List Event)
    (k : Keeps capacity lost rb seen) where
  length_kept : length rb.items ≡ length seen - (length seen - capacity)
  length_kept =
      sym (length-map _ rb.items) ∙ ap length k.newest ∙ length-drop (length seen - capacity) seen

  length_seen : (ev : Event) → length (seen ++ ev ∷ []) ≡ length seen + 1
  length_seen ev = length-append seen (ev ∷ [])

  newest_full :
      (fresh : BufferedEvent)
      → capacity ≤ length rb.items
      → map (λ (b : BufferedEvent). b.event) (drop 1 rb.items ++ fresh ∷ [])
        ≡ drop (length (seen ++ fresh.event ∷ []) - capacity) (seen ++ fresh.event ∷ [])
  newest_full fresh h =
      let n = length seen - capacity in
      map-append _ (drop 1 rb.items) (fresh ∷ [])
      ∙ ap (λ l. l ++ fresh.event ∷ [])
          (drop-map (λ (b : BufferedEvent). b.event) 1 rb.items
            ∙ ap (drop 1) k.newest
            ∙ drop-one-drop n seen)
      ∙ drop-append (suc n) seen (fresh.event ∷ []) (omega (arith, length_kept, k.room))
      ∙ ap (λ m. drop m (seen ++ fresh.event ∷ [])) {x = suc n}
          (omega (arith, length_kept, length_seen fresh.event, k.room))

  newest_room :
      (fresh : BufferedEvent)
      → length rb.items < capacity
      → map (λ (b : BufferedEvent). b.event) (rb.items ++ fresh ∷ [])
        ≡ drop (length (seen ++ fresh.event ∷ []) - capacity) (seen ++ fresh.event ∷ [])
  newest_room fresh h =
      let n = length seen - capacity in
      let none_lost : n ≡ 0 = omega (arith, length_kept) in
      map-append _ rb.items (fresh ∷ [])
      ∙ ap (λ l. l ++ fresh.event ∷ []) (k.newest ∙ ap (λ m. drop m seen) none_lost)
      ∙ ap (λ m. drop m (seen ++ fresh.event ∷ [])) {x = 0}
          (omega (arith, length_kept, length_seen fresh.event))

  push-Keeps : (now : ℕ) (ev : Event) → Keeps capacity lost (push rb now ev) (seen ++ ev ∷ [])
  unfolding push
  push-Keeps now ev = elim (Bool-cases (leb rb.capacity (length rb.items))) [
    | inl full ↦
        let h : rb.capacity ≤ length rb.items = leb→le _ _ full in
        rw full (record {
          room = k.room;
          fixed = k.fixed;
          newest = newest_full _ (omega (arith, k.fixed));
          counted = omega (arith, k.counted, k.fixed, length_kept, length_seen ev);
        })
    | inr room ↦
        let h : length rb.items < rb.capacity = ground arith in
        rw room (record {
          room = k.room;
          fixed = k.fixed;
          newest = newest_room _ (omega (arith, k.fixed));
          counted = omega (arith, k.counted, k.fixed, length_kept, length_seen ev);
        })
  ]

push_all-Keeps :
    (capacity lost : ℕ) (rb : RingBuffer) (seen : List Event) (l : List (ℕ × Event))
    → Keeps capacity lost rb seen
    → Keeps capacity lost (push_all rb l) (seen ++ map (λ (p : ℕ × Event). p.1) l)
unfolding push_all
push_all-Keeps capacity lost rb seen [] k = rw append-nil k
push_all-Keeps capacity lost rb seen ((now, ev) ∷ l) k =
    rw (append_assoc seen (ev ∷ []) (map (λ (p : ℕ × Event). p.1) l)) at (
      push_all-Keeps capacity lost (push rb now ev) (seen ++ ev ∷ []) l
        (push-Keeps capacity lost rb seen k now ev))

-- A buffer made by `new_ring_buffer` and then pushed to any number of times holds exactly the
-- newest `capacity` events, oldest first, and has counted every other one as dropped.
pub push_all-history :
    (name : String) (cfg : Option RingBufferConfig) (l : List (ℕ × Event))
    → let rb = new_ring_buffer name cfg in
      let seen = map (λ (p : ℕ × Event). p.1) l in
      (events (push_all rb l) ≡ drop (length seen - rb.capacity) seen)
      × ((push_all rb l).dropped ≡ length seen - rb.capacity)
unfolding new_ring_buffer
push_all-history name none l =
    let rb = new_ring_buffer name none in
    let k = push_all-Keeps rb.capacity 0 rb [] l (ground arith) in
    (k.newest, omega (arith, k.counted))
push_all-history name (some cfg) l =
    let rb = new_ring_buffer name (some cfg) in
    let k = push_all-Keeps rb.capacity 0 rb [] l (ground arith) in
    (k.newest, omega (arith, k.counted))
