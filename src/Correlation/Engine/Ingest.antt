-- ===== src/Correlation/Engine/Ingest.antt =====
-- `Ingest` and the sliding window.
use titanops.Common.{
  ℕ, suc, ◌+◌, ◌-◌, String, Bool, ◌||◌, Option, none, some, [], ◌∷◌, ◌++◌, ltb, ◌==◌, if◌then◌else◌,
  select,
}
use titanops.Common.Int.{ℤ, pos, negsuc}
use titanops.Export.Event.{Event}
use titanops.Correlation.Dedup
use titanops.Correlation.Engine.Types.{TimedEvent, Engine}

-- `now.Add(-d)`; a time before the zero time is 0, before which no time lies either.
abbrev pub before_by : ℕ → ℤ → ℕ
before_by now (pos d) = now - d
before_by now (negsuc d) = now + suc d

-- `ReceivedAt.After(cutoff) || ReceivedAt.Equal(cutoff)`
abbrev pub in_window : ℕ → TimedEvent → Bool
in_window cutoff te = ltb cutoff te.received_at || te.received_at == cutoff

unfoldable pub prune_events : Engine → ℕ → Engine
prune_events e now = record e {
  events = select (in_window (before_by now e.config.time_window)) e.events;
}

-- `ctx.Err()` is the first argument.
unfoldable pub ingest : Engine → Option String → Event → ℕ → Engine × Option String
ingest e (some err) ev now = (e, some err)
ingest e none ev now =
    let (d, duplicate) = Dedup.is_duplicate e.dedup ev now in
    let added = record e {
      events = e.events ++ record { event = ev; received_at = now } ∷ [];
      dedup = d;
    } in
    if duplicate
    then (record e { dedup = d }, none)
    else (record (prune_events added now) { dedup = Dedup.prune d now }, none)
