-- ===== src/Tests/Export.antt =====
-- The export library's theorems at concrete inputs.
use titanops.Common.{
  ℕ, zero, suc, ◌-◌, ◌<◌, ◌≡◌, ◌⊎◌, ◌↔◌, refl, true, false, none, some, List, [], ◌∷◌, ◌++◌, map,
  length, drop, arith,
}
use mathlib.Core.List.{Memᴰ}
use titanops.Export.Event.{Event}
use titanops.Export.Buffer.{
  BufferedEvent, split_ready, is_ready, new_ring_buffer, peek, mark_success,
}
use titanops.Export.Buffer.Process.{World, Run, process_buffer}
use titanops.Export.Buffer.Invariant.{IsValid}
use titanops.Export.Buffer.Order.{event_of, mark_success_other}
use titanops.Export.Buffer.Failure.{IsRetried, IsDiscarded, mark_failure-peek}
use titanops.Export.Buffer.History.{events}
use titanops.Export.Buffer.History.{push_all, push_all-history}
use titanops.Export.Buffer.Account.{
  Call, pushing, succeeding, failing, draining, calls, opened, IsBalanced, calls_balance,
}
use titanops.Export.Buffer.Drain.{process_buffer_total}
use titanops.Export.Buffer.Conserve.{Accounts, process_buffer_conserves}
use titanops.Export.Multi.{
  Backend, new_multi_exporter, enabled_backends, send_to_backend, export, delivered, panicked,
}
use titanops.Export.Multi.Schedule.{export_schedule}
use titanops.Export.Validate.{validate_event}
use titanops.Export.Validate.Schema.{IsWellFormed, validate_event_iff}
use titanops.Tests.Data.{syscall, flow, small_config, half_full}

-- The second call fails; the clock stands at 10 throughout.
abbrev world : World
world = record {
  done = λ k. none;
  peek_time = λ k. 10;
  send = λ k ev. elim k [ ℕ.zero ↦ none | ℕ.suc _ ↦ some "connection refused" ];
  mark_time = λ k. 10;
}

half_full-IsValid : IsValid half_full
half_full-IsValid = record {
  bounded = omega arith;
  room = omega arith;
  retries = omega arith;
  first_pause = omega arith;
  longest_pause = omega arith;
  pending = (omega arith, (omega arith, tt));
}

shown : peek half_full 10 ≡ some syscall
unfolding peek split_ready is_ready
shown = refl

shown_later : peek half_full 4 ≡ some flow
unfolding peek split_ready is_ready
shown_later = refl

abbrev half_full_oldest : BufferedEvent
half_full_oldest = record { event = syscall; attempts = 0; next_try = 5 }

abbrev half_full_rest : List BufferedEvent
half_full_rest = record { event = flow; attempts = 1; next_try = 3 } ∷ []

unready : is_ready 4 half_full_oldest ≡ false
unfolding is_ready
unready = refl

ready : is_ready 5 half_full_oldest ≡ true
unfolding is_ready
ready = refl

process_buffer_conserves_example :
    (r : Run) × (process_buffer world half_full ≡ some r) × Accounts world 0 half_full r
process_buffer_conserves_example =
    process_buffer_conserves world half_full (λ k. omega arith) half_full-IsValid

process_buffer_total_example : (r : Run) × (process_buffer world half_full ≡ some r)
process_buffer_total_example = process_buffer_total world half_full (λ k. omega arith)

push_all-history_example :
    let rb = new_ring_buffer "loki" (some small_config) in
    let seen = map (λ (p : ℕ × Event). p.1) ((1, syscall) ∷ (2, flow) ∷ (3, syscall) ∷ []) in
    (events (push_all rb ((1, syscall) ∷ (2, flow) ∷ (3, syscall) ∷ []))
      ≡ drop (length seen - rb.capacity) seen)
    × ((push_all rb ((1, syscall) ∷ (2, flow) ∷ (3, syscall) ∷ [])).dropped
        ≡ length seen - rb.capacity)
push_all-history_example =
    push_all-history "loki" (some small_config) ((1, syscall) ∷ (2, flow) ∷ (3, syscall) ∷ [])

abbrev history : List Call
history =
    pushing 1 syscall
    ∷ pushing 2 flow
    ∷ pushing 3 syscall
    ∷ failing 4
    ∷ succeeding 5
    ∷ draining
    ∷ []

calls_balance_example : IsBalanced (calls (opened "loki" (some small_config)) history)
calls_balance_example = calls_balance "loki" (some small_config) history

mark_failure-peek_example : IsRetried half_full 10 syscall ⊎ IsDiscarded half_full 10 syscall
mark_failure-peek_example = mark_failure-peek half_full 10 syscall half_full-IsValid shown

mark_success_other_example :
    (events (mark_success half_full 5) ≡ map event_of half_full_rest)
    × ((before : List Event) × (behind : List Event) × (map event_of half_full_rest
          ≡ before ++ flow ∷ behind))
mark_success_other_example =
    mark_success_other half_full 4 5 half_full_oldest half_full_rest flow refl unready ready
      shown_later

abbrev backends : List Backend
backends =
    record { name = "loki"; is_enabled = true; send = λ ev. delivered }
    ∷ record { name = "off"; is_enabled = false; send = λ ev. delivered }
    ∷ record { name = "otel"; is_enabled = true; send = λ ev. panicked "nil map" }
    ∷ []

two_enabled : length (enabled_backends (new_multi_exporter backends)) ≡ 2
unfolding enabled_backends new_multi_exporter
two_enabled = refl

both : (i : ℕ) → i < length (enabled_backends (new_multi_exporter backends)) → Memᴰ i (1 ∷ 0 ∷ [])
both zero h = Memᴰ.tail (Memᴰ.head refl)
both (suc zero) h = Memᴰ.head refl
both (suc (suc i)) h = absurd (omega (arith, two_enabled))

export_schedule_example :
    export (new_multi_exporter backends) syscall (1 ∷ 0 ∷ [])
    ≡ map (send_to_backend syscall) (enabled_backends (new_multi_exporter backends))
export_schedule_example = export_schedule (new_multi_exporter backends) syscall (1 ∷ 0 ∷ []) both

validate_event_iff_example : (validate_event syscall ≡ []) ↔ IsWellFormed syscall
validate_event_iff_example = validate_event_iff syscall
