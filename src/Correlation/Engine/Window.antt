-- ===== src/Correlation/Engine/Window.antt =====
-- The sliding window of events.
use titanops.Common.{
  ℕ, ◌+◌, ◌-◌, ◌≤◌, ◌≡◌, refl, Bool, true, false, none, List, [], ◌∷◌, ◌++◌, select, arith, All,
  All-select, Bool-cases, inl, inr, ◌⊎◌,
}
use titanops.Common.Int.{pos}
use titanops.Export.Event.{Event}
use titanops.Correlation.Dedup
use titanops.Correlation.Engine.Types.{TimedEvent, Engine}
use titanops.Correlation.Engine.Ingest.{in_window, prune_events, ingest}

-- The event was received no longer than d before now.
abbrev pub IsFresh : ℕ → ℕ → TimedEvent → Type 0
IsFresh d now te = now ≤ te.received_at + d

All-imp :
    (P : TimedEvent → Type 0) (Q : TimedEvent → Type 0) (xs : List TimedEvent)
    → ((x : TimedEvent) → P x → Q x)
    → All P xs
    → All Q xs
All-imp P Q [] f h = tt
All-imp P Q (x ∷ xs) f h = (f x h.0, All-imp P Q xs f h.1)

IsFresh-of_in_window :
    (d now : ℕ) (te : TimedEvent) → in_window (now - d) te ≡ true → IsFresh d now te
IsFresh-of_in_window d now te h = ground arith

pub prune_events-IsFresh :
    (e : Engine) (d now : ℕ)
    → e.config.time_window ≡ pos d
    → All (IsFresh d now) (prune_events e now).events
unfolding prune_events
prune_events-IsFresh e d now w = rw w (
    All-imp (λ te. in_window (now - d) te ≡ true) (IsFresh d now) _
      (λ te. IsFresh-of_in_window d now te) (All-select (in_window (now - d)) e.events))

select-snoc :
    (keep : TimedEvent → Bool) (xs : List TimedEvent) (x : TimedEvent)
    → keep x ≡ true
    → select keep (xs ++ x ∷ []) ≡ select keep xs ++ x ∷ []
select-snoc keep [] x h = rw h
select-snoc keep (y ∷ xs) x h = ground (arith, select-snoc keep xs x h)

in_window_now : (now d : ℕ) (te : TimedEvent) → te.received_at ≡ now → in_window (now - d) te ≡ true
in_window_now now d te h = ground arith

-- An accepted event is the newest of the window, behind those that are still fresh, and no event of
-- the window is older than its duration; a duplicate leaves the window as it is.
pub ingest_window :
    (e : Engine) (ev : Event) (d now : ℕ)
    → e.config.time_window ≡ pos d
    → let e' = (ingest e none ev now).0 in
      let duplicate = (Dedup.is_duplicate e.dedup ev now).1 in
      ((duplicate ≡ true) × (e'.events ≡ e.events))
      ⊎ ((duplicate ≡ false)
          × (e'.events
              ≡ select (in_window (now - d)) e.events
                ++ record { event = ev; received_at = now } ∷ [])
          × All (IsFresh d now) e'.events)
unfolding ingest prune_events
ingest_window e ev d now w = elim (Bool-cases (Dedup.is_duplicate e.dedup ev now).1) [
  | inl again ↦ inl (again, rw again)
  | inr new ↦
      let te : TimedEvent = record { event = ev; received_at = now } in
      let kept = select-snoc (in_window (now - d)) e.events te (in_window_now now d te refl) in
      inr (
        new,
        rw (new, w) kept,
        rw (new, w)
            (All-imp (λ te. in_window (now - d) te ≡ true) (IsFresh d now) _
              (λ te. IsFresh-of_in_window d now te) (All-select (in_window (now - d)) _)),
      )
]
