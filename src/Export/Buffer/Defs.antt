-- ===== src/Export/Buffer/Defs.antt =====
-- `RingBuffer` and its methods.
use titanops.Common.{
  ℕ, zero, suc, ◌+◌, ◌*◌, ◌/◌, ◌^◌, String, Bool, true, false, ◌||◌, Option, none, some, List, [],
  ◌∷◌, ◌++◌, map, ltb, leb, ◌==◌, if◌then◌else◌, length, drop,
}
use titanops.Common.Int.{ℤ, pos, negsuc}
use titanops.Export.Event.{Event}

abbrev pub default_buffer_capacity : ℕ
default_buffer_capacity = 1000

-- Durations are nanoseconds.
abbrev pub default_initial_backoff : ℕ
default_initial_backoff = 1_000_000_000

abbrev pub default_max_backoff : ℕ
default_max_backoff = 60_000_000_000

abbrev pub default_max_retries : ℕ
default_max_retries = 10

pub record RetryExhaustedError : Type 0 where
  pub backend_name : String
  pub event_id : String
  pub attempts : ℕ

pub record BufferedEvent : Type 0 where
  pub event : Event
  pub attempts : ℕ
  pub next_try : ℕ

pub record RingBuffer : Type 0 where
  pub items : List BufferedEvent
  pub capacity : ℕ
  pub dropped : ℕ
  pub backend_name : String
  pub initial_backoff : ℕ
  pub max_backoff : ℕ
  pub max_retries : ℕ

pub record RingBufferConfig : Type 0 where
  pub capacity : ℤ
  pub initial_backoff : ℤ
  pub max_backoff : ℤ
  pub max_retries : ℤ

pub record BufferInfo : Type 0 where
  pub capacity : ℕ
  pub used : ℕ
  pub dropped : ℕ

-- `if cfg.X > 0 { x = cfg.X }`
abbrev pub positive_or : ℤ → ℕ → ℕ
positive_or (pos zero) d = d
positive_or (pos (suc n)) d = suc n
positive_or (negsuc n) d = d

-- A nil configuration is `none`.
unfoldable pub new_ring_buffer : String → Option RingBufferConfig → RingBuffer
new_ring_buffer name none = record {
  items = [];
  capacity = default_buffer_capacity;
  dropped = 0;
  backend_name = name;
  initial_backoff = default_initial_backoff;
  max_backoff = default_max_backoff;
  max_retries = default_max_retries;
}
new_ring_buffer name (some cfg) = record {
  items = [];
  capacity = positive_or cfg.capacity default_buffer_capacity;
  dropped = 0;
  backend_name = name;
  initial_backoff = positive_or cfg.initial_backoff default_initial_backoff;
  max_backoff = positive_or cfg.max_backoff default_max_backoff;
  max_retries = positive_or cfg.max_retries default_max_retries;
}

-- `rb.items[1:]` is reached only past the capacity test.
unfoldable pub push : RingBuffer → ℕ → Event → RingBuffer
push rb now ev =
    let fresh : BufferedEvent = record { event = ev; attempts = 0; next_try = now } in
    if leb rb.capacity (length rb.items)
    then record rb { items = drop 1 rb.items ++ fresh ∷ []; dropped = rb.dropped + 1 }
    else record rb { items = rb.items ++ fresh ∷ [] }

-- `nextTry.Before(now) || nextTry.Equal(now)`
unfoldable pub is_ready : ℕ → BufferedEvent → Bool
is_ready now item = ltb item.next_try now || item.next_try == now

abbrev pub Split : Type 0
Split = Option (List BufferedEvent × BufferedEvent × List BufferedEvent)

abbrev pub cons_before : BufferedEvent → Split → Split
cons_before item none = none
cons_before item (some (before, found, behind)) = some (item ∷ before, found, behind)

-- The loops of `Peek`, `MarkSuccess` and `MarkFailure` stop at the first ready item: the items
-- before it, it, and the items behind it.
unfoldable pub split_ready : ℕ → List BufferedEvent → Split
split_ready now [] = none
split_ready now (item ∷ items) = elim (is_ready now item) [
  | true ↦ some ([], item, items)
  | false ↦ cons_before item (split_ready now items)
]

unfoldable pub peek : RingBuffer → ℕ → Option Event
peek rb now = elim (split_ready now rb.items) [
  | none ↦ none
  | some (before, found, behind) ↦ some found.event
]

unfoldable pub mark_success : RingBuffer → ℕ → RingBuffer
mark_success rb now = elim (split_ready now rb.items) [
  | none ↦ rb
  | some (before, found, behind) ↦ record rb { items = before ++ behind }
]

-- The floats of the source are exact here: the product of a duration by a power of two. At
-- attempt 0 the power is one half.
unfoldable pub calculate_backoff : RingBuffer → ℕ → ℕ
calculate_backoff rb zero =
    let backoff = rb.initial_backoff / 2 in
    if ltb rb.max_backoff backoff then rb.max_backoff else backoff
calculate_backoff rb (suc n) =
    let backoff = rb.initial_backoff * 2 ^ n in
    if ltb rb.max_backoff backoff then rb.max_backoff else backoff

-- The body of the loop of `MarkFailure`, at the item that it stops at.
unfoldable pub fail_item :
    RingBuffer
    → ℕ
    → List BufferedEvent
    → BufferedEvent
    → List BufferedEvent
    → RingBuffer × Option RetryExhaustedError
fail_item rb now before found behind =
    if leb rb.max_retries (found.attempts + 1)
    then (
      record rb { items = before ++ behind; dropped = rb.dropped + 1 },
      some (record {
        backend_name = rb.backend_name;
        event_id = found.event.event_id;
        attempts = rb.max_retries;
      }),
    )
    else (
      record rb {
        items =
            before
            ++ record found {
              attempts = found.attempts + 1;
              next_try = now + calculate_backoff rb (suc found.attempts);
            }
              ∷ behind;
      },
      none,
    )

unfoldable pub mark_failure : RingBuffer → ℕ → RingBuffer × Option RetryExhaustedError
mark_failure rb now = elim (split_ready now rb.items) [
  | none ↦ (rb, none)
  | some (before, found, behind) ↦ fail_item rb now before found behind
]

unfoldable pub info : RingBuffer → BufferInfo
info rb = record { capacity = rb.capacity; used = length rb.items; dropped = rb.dropped }

unfoldable pub drain : RingBuffer → RingBuffer × List Event
drain rb = (record rb { items = [] }, map (λ (b : BufferedEvent). b.event) rb.items)
