-- ===== src/OllinAi/Emitter/Defs.antt =====
-- `NATSEmitter`. The connection, the clock and the context answer by the calls of the publisher so far, the
-- newest first, each with whether it succeeded; `marshal` is none for an error.
use titanops.Common.{
  ℕ, zero, suc, ◌+◌, ◌-◌, ◌*◌, ◌^◌, String, Bool, true, false, not, ◌||◌, Option, none, some, List,
  [], ◌∷◌, ◌++◌, map, length, drop, ltb, leb, ◌==◌, if◌then◌else◌, str_eq,
}
use titanops.Common.Int.{ℤ, pos, negsuc}
use titanops.Common.Dict
use titanops.Export.Event.{Event}

abbrev pub Published : Type 0
Published = List (List ℕ × Bool)

pub record NatsPublisher : Type 0 where
  pub is_connected : Published → Bool
  pub publish : Published → List ℕ → Bool
  pub marshal : Event → Option (List ℕ)
  pub done : Published → Bool
  pub now : Published → ℕ
  pub new_id : Published → String

pub record BufferedEvent : Type 0 where
  pub event : Event
  pub attempts : ℕ
  pub next_try : ℕ

pub record NatsEmitter : Type 0 where
  pub buffer : List BufferedEvent
  pub capacity : ℕ
  pub dropped : ℕ
  pub initial_backoff : ℕ
  pub max_backoff : ℕ
  pub max_retries : ℕ
  pub subject : String

pub record NatsEmitterConfig : Type 0 where
  pub buffer_capacity : ℤ
  pub initial_backoff : ℤ
  pub max_backoff : ℤ
  pub max_retries : ℤ
  pub subject : String

-- `if v <= 0 { v = d }`
abbrev pub positive_or : ℤ → ℕ → ℕ
positive_or (pos zero) d = d
positive_or (pos (suc n)) d = suc n
positive_or (negsuc n) d = d

unfoldable pub new_nats_emitter : NatsEmitterConfig → NatsEmitter
new_nats_emitter cfg = record {
  buffer = [];
  capacity = positive_or cfg.buffer_capacity 1000;
  dropped = 0;
  initial_backoff = positive_or cfg.initial_backoff 1000000000;
  max_backoff = positive_or cfg.max_backoff 60000000000;
  max_retries = positive_or cfg.max_retries 10;
  subject = if str_eq cfg.subject "" then "titanops.ollinai.events" else cfg.subject;
}

-- Exact while the product is exact as a float64.
unfoldable pub calculate_backoff : NatsEmitter → ℕ → ℕ
calculate_backoff e attempt =
    let backoff = e.initial_backoff * 2 ^ (attempt - 1) in
    if ltb e.max_backoff backoff then e.max_backoff else backoff

unfoldable pub push_to_buffer : ℕ → Event → NatsEmitter → NatsEmitter
push_to_buffer now event e =
    let item : BufferedEvent = record { event = event; attempts = 0; next_try = now } in
    if leb e.capacity (length e.buffer)
    then record e { buffer = drop 1 e.buffer ++ item ∷ []; dropped = e.dropped + 1 }
    else record e { buffer = e.buffer ++ item ∷ [] }

abbrev pub labels_of : Option (List (String × String)) → List (String × String)
labels_of none = []
labels_of (some labels) = labels

-- The identifier, the time and the label that `Emit` fills in.
unfoldable pub completed : String → ℕ → Event → Event
completed id now event =
    let stamped : Event = record event {
      event_id = if str_eq event.event_id "" then id else event.event_id;
      timestamp = if event.timestamp == 0 then now else event.timestamp;
      zone = "UTC";
    } in
    if str_eq event.node "" || (str_eq event.pod "" || str_eq event.namespace "")
    then record stamped {
      labels = some (Dict.insert "metadata_incomplete" "true" (labels_of event.labels));
    }
    else stamped

module _ (p : NatsPublisher) where
  -- With whether `Emit` returns nil.
  unfoldable pub emit : Event → NatsEmitter → Published → Bool × NatsEmitter × Published
  emit event e trace =
      let ready = completed (p.new_id trace) (p.now trace) event in
      if p.is_connected trace
      then elim (p.marshal ready) [
        | none ↦ (false, e, trace)
        | some bytes ↦
            let ok = p.publish trace bytes in
            let trace' = (bytes, ok) ∷ trace in
            if ok then (true, e, trace') else (true, push_to_buffer (p.now trace') ready e, trace')
      ]
      else (true, push_to_buffer (p.now trace) ready e, trace)

  -- An item that could not be published: what of it stays, and how much is dropped.
  unfoldable pub retried : ℕ → BufferedEvent → NatsEmitter → List BufferedEvent × ℕ
  retried now item e = if leb e.max_retries (item.attempts + 1) then ([], 1) else (
    record item {
      attempts = item.attempts + 1;
      next_try = now + calculate_backoff e (item.attempts + 1);
    }
        ∷ [],
    0,
  )

  -- The loop of `Flush` over the items that are left: what remains, how many are dropped, and whether the
  -- context ended.
  unfoldable pub flush_each :
      List BufferedEvent → NatsEmitter → Published → List BufferedEvent × ℕ × Bool × Published
  flush_each [] e trace = ([], 0, false, trace)
  flush_each (item ∷ items) e trace =
      if p.done trace then (item ∷ items, 0, true, trace) else elim (p.marshal item.event) [
        | none ↦ flush_each items e trace
        | some bytes ↦
            let ok = p.publish trace bytes in
            let trace' = (bytes, ok) ∷ trace in
            let (kept, lost) = if ok then ([], 0) else retried (p.now trace') item e in
            let (remaining, dropped, ended, trace'') = flush_each items e trace' in
            (kept ++ remaining, lost + dropped, ended, trace'')
      ]

  unfoldable pub flush : NatsEmitter → Published → Bool × NatsEmitter × Published
  flush e trace =
      if p.is_connected trace
      then (let (remaining, dropped, ended, trace') = flush_each e.buffer e trace in
          (not ended, record e { buffer = remaining; dropped = e.dropped + dropped }, trace'))
      else (false, e, trace)

unfoldable pub drain_buffer : NatsEmitter → List Event × NatsEmitter
drain_buffer e = (map (λ (item : BufferedEvent). item.event) e.buffer, record e { buffer = [] })
