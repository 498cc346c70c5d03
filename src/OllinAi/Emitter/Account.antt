-- ===== src/OllinAi/Emitter/Account.antt =====
-- Every event that the emitter is given is delivered, dropped and counted, or still in the buffer.
use titanops.Common.{
  ℕ, zero, suc, ◌+◌, ◌≤◌, ◌<◌, ◌≡◌, ◌≢◌, refl, true, false, none, List, [], ◌∷◌, length,
  length-append, length-drop, arith,
}
use titanops.Common.Int.{ℤ, pos, negsuc}
use titanops.Export.Event.{Event}
use titanops.OllinAi.Emitter.Defs.{
  Published, NatsPublisher, BufferedEvent, NatsEmitter, NatsEmitterConfig, positive_or,
  new_nats_emitter, push_to_buffer, emit, retried, flush_each, flush,
}

unfoldable pub delivered : Published → ℕ
delivered [] = 0
delivered ((bytes, true) ∷ trace) = suc (delivered trace)
delivered ((bytes, false) ∷ trace) = delivered trace

pub data Operation : Type 0 where
  emitting : Event → Operation
  flushing : Operation

unfoldable pub emits : List Operation → ℕ
emits [] = 0
emits (emitting event ∷ earlier) = suc (emits earlier)
emits (flushing ∷ earlier) = emits earlier

positive_or-pos : (v : ℤ) (n : ℕ) → 0 < positive_or v (n + 1)
positive_or-pos (pos zero) n = omega arith
positive_or-pos (pos (suc m)) n = omega arith
positive_or-pos (negsuc m) n = omega arith

abbrev IsBounded : NatsEmitter → Type 0
IsBounded e = (length e.buffer ≤ e.capacity) × (0 < e.capacity)

module _ (p : NatsPublisher) where
  unfoldable pub apply : Operation → NatsEmitter × Published → NatsEmitter × Published
  apply (emitting event) (e, trace) = let (ok, e', trace') = emit p event e trace in (e', trace')
  apply flushing (e, trace) = let (ok, e', trace') = flush p e trace in (e', trace')

  -- The emitter behind some operations, the newest first.
  unfoldable pub after : NatsEmitterConfig → List Operation → NatsEmitter × Published
  after cfg [] = (new_nats_emitter cfg, [])
  after cfg (op ∷ earlier) = apply op (after cfg earlier)

  module _ (total : (event : Event) → p.marshal event ≢ none) where
    flush_each_account :
        (items : List BufferedEvent) (e : NatsEmitter) (trace : Published)
        → let (remaining, dropped, ended, trace') = flush_each p items e trace in
          delivered trace' + dropped + length remaining ≡ delivered trace + length items
    unfolding flush_each retried delivered
    flush_each_account [] e trace = omega arith
    flush_each_account (item ∷ items) e trace =
        grind (arith, flush_each_account items e, total item.event, length-append)

    emit_account :
        (event : Event) (e : NatsEmitter) (trace : Published)
        → 0 < e.capacity
        → let (ok, e', trace') = emit p event e trace in
          delivered trace' + e'.dropped + length e'.buffer
          ≡ delivered trace + e.dropped + length e.buffer + 1
    unfolding emit push_to_buffer delivered
    emit_account event e trace h = grind (arith, total, length-append, length-drop 1 e.buffer)

    flush_account :
        (e : NatsEmitter) (trace : Published)
        → let (ok, e', trace') = flush p e trace in
          delivered trace' + e'.dropped + length e'.buffer
          ≡ delivered trace + e.dropped + length e.buffer
    unfolding flush
    flush_account e trace = ground (arith, flush_each_account e.buffer e trace)

  flush_each-length-le :
      (items : List BufferedEvent) (e : NatsEmitter) (trace : Published)
      → let (remaining, dropped, ended, trace') = flush_each p items e trace in
        length remaining ≤ length items
  unfolding flush_each retried
  flush_each-length-le [] e trace = omega arith
  flush_each-length-le (item ∷ items) e trace =
      grind (arith, flush_each-length-le items e, length-append)

  emit_bounded :
      (event : Event) (e : NatsEmitter) (trace : Published)
      → IsBounded e
      → let (ok, e', trace') = emit p event e trace in
        (length e'.buffer ≤ e'.capacity) × (0 < e'.capacity)
  unfolding emit push_to_buffer
  emit_bounded event e trace (small, some_room) =
      grind (arith, length-append, length-drop 1 e.buffer)

  flush_bounded :
      (e : NatsEmitter) (trace : Published)
      → IsBounded e
      → let (ok, e', trace') = flush p e trace in
        (length e'.buffer ≤ e'.capacity) × (0 < e'.capacity)
  unfolding flush
  flush_bounded e trace (small, some_room) = ground (arith, flush_each-length-le e.buffer e trace)

  after-IsBounded : (cfg : NatsEmitterConfig) (ops : List Operation) → IsBounded (after cfg ops).0
  unfolding after apply new_nats_emitter
  after-IsBounded cfg [] = (omega arith, positive_or-pos cfg.buffer_capacity 999)
  after-IsBounded cfg (emitting event ∷ earlier) =
      emit_bounded event (after cfg earlier).0 (after cfg earlier).1 (after-IsBounded cfg earlier)
  after-IsBounded cfg (flushing ∷ earlier) =
      flush_bounded (after cfg earlier).0 (after cfg earlier).1 (after-IsBounded cfg earlier)

  -- When every event can be serialized, after any emits and flushes, whatever the publisher answers and
  -- whenever the context ends, the events delivered, those dropped and counted and those in the buffer
  -- are together as many as were emitted; and the buffer is within its capacity.
  pub after_account :
      (cfg : NatsEmitterConfig) (ops : List Operation)
      → ((event : Event) → p.marshal event ≢ none)
      → let (e, trace) = after cfg ops in
        (delivered trace + e.dropped + length e.buffer ≡ emits ops) × (length e.buffer ≤ e.capacity)
  unfolding after apply new_nats_emitter delivered emits
  after_account cfg [] total = (refl, (after-IsBounded cfg []).0)
  after_account cfg (emitting event ∷ earlier) total =
      let (e, trace) = after cfg earlier in
      let bounded = after-IsBounded cfg earlier in
      let before = (after_account cfg earlier total).0 in
      let now = emit_account total event e trace bounded.1 in
      (omega arith, (after-IsBounded cfg (emitting event ∷ earlier)).0)
  after_account cfg (flushing ∷ earlier) total =
      let (e, trace) = after cfg earlier in
      let before = (after_account cfg earlier total).0 in
      let now = flush_account total e trace in
      (omega arith, (after-IsBounded cfg (flushing ∷ earlier)).0)
