-- ===== src/EbeeControl/Monitor/Buffer.antt =====
-- The circular buffer of access events: `EventBuffer` (modules/ebeecontrol/tetragon.go). none is a panic.
use titanops.Common.{
  ℕ, zero, suc, ◌+◌, ◌-◌, ◌%◌, ◌==◌, ltb, Option, none, some, List, [], ◌∷◌, get_elem?, set,
  replicate, if◌then◌else◌,
}
use mathlib.Core.Option.{map}
use titanops.Common.Int.{ℤ, pos, negsuc}
use titanops.EbeeControl.Types.{AccessEvent}

pub record EventBuffer : Type 0 where
  pub events : List AccessEvent
  pub capacity : ℕ
  pub head : ℕ
  pub size : ℕ
  pub overflow : ℕ

pub record EventBufferStatus : Type 0 where
  pub capacity : ℕ
  pub size : ℕ
  pub overflow : ℕ

-- The zero value of an event.
abbrev pub zero_event : AccessEvent
zero_event = record {
  event_id = "";
  process_id = pos 0;
  process_binary_path = "";
  user_id = pos 0;
  pod_id = "";
  namespace = "";
  honeytoken_path = "";
  access_type = "";
  timestamp = 0;
}

abbrev pub effective_capacity : ℤ → ℕ
effective_capacity (pos zero) = 1000
effective_capacity (pos (suc n)) = suc n
effective_capacity (negsuc n) = 1000

unfoldable pub new_event_buffer : ℤ → EventBuffer
new_event_buffer capacity = record {
  events = replicate (effective_capacity capacity) zero_event;
  capacity = effective_capacity capacity;
  head = 0;
  size = 0;
  overflow = 0;
}

unfoldable pub push : EventBuffer → AccessEvent → EventBuffer
push b event =
    if b.size == b.capacity
    then record {
      events = set b.events b.head event;
      capacity = b.capacity;
      head = (b.head + 1) % b.capacity;
      size = b.size;
      overflow = b.overflow + 1;
    }
    else record {
      events = set b.events ((b.head + b.size) % b.capacity) event;
      capacity = b.capacity;
      head = b.head;
      size = b.size + 1;
      overflow = b.overflow;
    }

-- The rounds of the loop of `Recent` from the index i on.
unfoldable pub collect : EventBuffer → ℕ → ℕ → Option (List AccessEvent)
collect b i zero = some []
collect b i (suc left) =
    let rest = collect b (suc i) left in
    elim (get_elem? b.events ((b.head + b.size - 1 - i) % b.capacity)) [
      | none ↦ none
      | some event ↦ map (λ events. event ∷ events) rest
    ]

unfoldable pub recent : EventBuffer → ℤ → Option (List AccessEvent)
recent b (pos n) = collect b 0 (if ltb b.size n then b.size else n)
recent b (negsuc n) = none

unfoldable pub status : EventBuffer → EventBufferStatus
status b = record { capacity = b.capacity; size = b.size; overflow = b.overflow }
