-- ===== src/Export/Buffer/Invariant.antt =====
-- The well-formedness of a ring buffer, kept by every method, and the account of its events.
use titanops.Common.{
  ℕ, suc, ◌+◌, ◌≤◌, ◌<◌, ◌≡◌, refl, String, true, false, Option, none, some, List, [], ◌∷◌, ◌++◌,
  arith, length, length-append, length-drop, drop, All, All-append, Bool-cases, leb, All-drop,
  All-split, inl, inr, ap,
}
use titanops.Export.Event.{Event}
use titanops.Export.Buffer.Defs.{
  BufferedEvent, Split, cons_before, RingBuffer, RingBufferConfig, RetryExhaustedError,
  new_ring_buffer, push, is_ready, split_ready, mark_success, fail_item, mark_failure, drain,
}

-- What the search for the first ready item finds: the items fall apart at it, none before it is
-- ready, and it is; or no item is ready.
abbrev pub Splits : ℕ → List BufferedEvent → Split → Type 0
Splits now items none = All (λ b. is_ready now b ≡ false) items
Splits now items (some (before, found, behind)) =
    (items ≡ before ++ found ∷ behind)
    × All (λ b. is_ready now b ≡ false) before
    × (is_ready now found ≡ true)

cons_before-Splits :
    (now : ℕ) (item : BufferedEvent) (items : List BufferedEvent) (s : Split)
    → is_ready now item ≡ false
    → Splits now items s
    → Splits now (item ∷ items) (cons_before item s)
cons_before-Splits now item items none e h = (e, h)
cons_before-Splits now item items (some (before, found, behind)) e h =
    (ap (◌∷◌ item) h.0, (e, h.1), h.2)

pub split_ready-Splits :
    (now : ℕ) (items : List BufferedEvent) → Splits now items (split_ready now items)
unfolding split_ready
split_ready-Splits now [] = tt
split_ready-Splits now (item ∷ items) = elim (Bool-cases (is_ready now item)) [
  | inl e ↦ rw (e, split_ready) (refl, tt, e)
  | inr e ↦
      rw (e, split_ready)
        (cons_before-Splits now item items (split_ready now items) e (split_ready-Splits now items))
]

pub record IsValid (rb : RingBuffer) : Type 0 where
  pub room : 0 < rb.capacity
  pub bounded : length rb.items ≤ rb.capacity
  pub retries : 0 < rb.max_retries
  pub first_pause : 0 < rb.initial_backoff
  pub longest_pause : 0 < rb.max_backoff
  pub pending : All (λ (b : BufferedEvent). b.attempts < rb.max_retries) rb.items

-- A buffer made by the constructor is valid, whatever the configuration says.
pub new_ring_buffer-IsValid :
    (name : String) (cfg : Option RingBufferConfig) → IsValid (new_ring_buffer name cfg)
unfolding new_ring_buffer
new_ring_buffer-IsValid name none = ground arith
new_ring_buffer-IsValid name (some cfg) = ground arith

abbrev IsPending : ℕ → BufferedEvent → Type 0
IsPending max b = b.attempts < max

module _ (rb : RingBuffer) (v : IsValid rb) where
  appended-IsValid :
      (items : List BufferedEvent) (fresh : BufferedEvent) (n : ℕ)
      → length items < rb.capacity
      → All (IsPending rb.max_retries) items
      → fresh.attempts ≡ 0
      → IsValid (record rb { items = items ++ fresh ∷ []; dropped = n })
  appended-IsValid items fresh n short pending new = record {
    room = v.room;
    bounded = omega (arith, length-append {0} items (fresh ∷ []));
    retries = v.retries;
    first_pause = v.first_pause;
    longest_pause = v.longest_pause;
    pending =
        All-append (IsPending rb.max_retries) items (fresh ∷ []) (omega (arith, v.retries), tt)
          pending;
  }

  -- A push keeps the invariant.
  pub push-IsValid : (now : ℕ) (ev : Event) → IsValid (push rb now ev)
  unfolding push
  push-IsValid now ev = elim (Bool-cases (leb rb.capacity (length rb.items))) [
    | inl full ↦ rw full (
        appended-IsValid (drop 1 rb.items) _ (rb.dropped + 1)
          (omega (arith, length-drop {0} 1 rb.items, v.room, v.bounded))
          (All-drop (IsPending rb.max_retries) 1 rb.items v.pending) refl)
    | inr room ↦
        rw room (appended-IsValid rb.items _ rb.dropped (ground (arith, v.bounded)) v.pending refl)
  ]

module _ (rb : RingBuffer) (before : List BufferedEvent) (found : BufferedEvent)
    (behind : List BufferedEvent) (e : rb.items ≡ before ++ found ∷ behind) (v : IsValid rb) where
  parts :
      All (IsPending rb.max_retries) before
      × IsPending rb.max_retries found
      × All (IsPending rb.max_retries) behind
  parts = All-split (IsPending rb.max_retries) before found behind (rw e at v.pending)

  pub length_parts : length before + suc (length behind) ≤ rb.capacity
  length_parts = omega (arith, v.bounded, ap length e, length-append {0} before (found ∷ behind))

  without-IsValid : (n : ℕ) → IsValid (record rb { items = before ++ behind; dropped = n })
  without-IsValid n = record {
    room = v.room;
    bounded = omega (arith, length_parts, length-append {0} before behind);
    retries = v.retries;
    first_pause = v.first_pause;
    longest_pause = v.longest_pause;
    pending = All-append (IsPending rb.max_retries) before behind parts.2 parts.0;
  }

  fail_item-IsValid : (now : ℕ) → IsValid (fail_item rb now before found behind).0
  unfolding fail_item
  fail_item-IsValid now = elim (Bool-cases (leb rb.max_retries (found.attempts + 1))) [
    | inl last ↦ rw last (without-IsValid (rb.dropped + 1))
    | inr more ↦ rw more (record {
      room = v.room;
      bounded = omega (
        arith,
        length_parts,
        length-append {0} before (found ∷ behind),
        length-append {0} before,
      );
      retries = v.retries;
      first_pause = v.first_pause;
      longest_pause = v.longest_pause;
      pending =
          All-append (IsPending rb.max_retries) before _ (ground (arith, more), parts.2) parts.0;
    })
  ]

pub mark_success-IsValid : (rb : RingBuffer) (now : ℕ) → IsValid rb → IsValid (mark_success rb now)
unfolding mark_success
mark_success-IsValid rb now v = go (split_ready now rb.items) (split_ready-Splits now rb.items)
  where
    go :
        (s : Split)
        → Splits now rb.items s
        → IsValid (elim s [
          | none ↦ rb
          | some (before, found, behind) ↦ record rb { items = before ++ behind }
        ])
    go none h = v
    go (some (before, found, behind)) h = without-IsValid rb before found behind h.0 v rb.dropped

pub mark_failure-IsValid :
    (rb : RingBuffer) (now : ℕ) → IsValid rb → IsValid (mark_failure rb now).0
unfolding mark_failure
mark_failure-IsValid rb now v = go (split_ready now rb.items) (split_ready-Splits now rb.items)
  where
    go :
        (s : Split)
        → Splits now rb.items s
        → IsValid
            (elim s as (λ _. RingBuffer × Option RetryExhaustedError) [
              | none ↦ (rb, none)
              | some (before, found, behind) ↦ fail_item rb now before found behind
            ]).0
    go none h = v
    go (some (before, found, behind)) h = fail_item-IsValid rb before found behind h.0 v now

pub drain-IsValid : (rb : RingBuffer) → IsValid rb → IsValid (drain rb).0
unfolding drain
drain-IsValid rb v = record {
  room = v.room;
  bounded = omega arith;
  retries = v.retries;
  first_pause = v.first_pause;
  longest_pause = v.longest_pause;
  pending = tt;
}
