-- ===== src/Correlation/Dedup/Defs.antt =====
-- `dedupCache` and its methods.
use titanops.Common.{
  ℕ, zero, suc, ◌-◌, String, Bool, true, false, not, Option, none, some, List, [], length, ltb,
  if◌then◌else◌, select,
}
use titanops.Common.Int.{ℤ, pos, negsuc}
use titanops.Common.Dict
use titanops.Common.Text
use titanops.Export.Event.{Event}

-- The entries map a fingerprint to the time when it was last recorded.
pub record DedupCache : Type 0 where
  pub window : ℤ
  pub entries : List (String × ℕ)

unfoldable pub new_dedup_cache : ℤ → DedupCache
new_dedup_cache window = record { window = window; entries = [] }

unfoldable pub event_fingerprint : Event → String
event_fingerprint ev =
    Text.◌+◌ ev.module_name (Text.◌+◌ "|" (Text.◌+◌ ev.event_type (Text.◌+◌ "|" ev.node)))

-- `exists && now.Sub(entry.lastSeen) < d.window`. A clock that went back gives a negative
-- difference, here 0: below any window as well.
abbrev pub is_recent : ℕ → ℕ → Option ℕ → Bool
is_recent window now none = false
is_recent window now (some last_seen) = ltb (now - last_seen) window

-- The part of `IsDuplicate` behind the test of the window.
unfoldable pub check : DedupCache → ℕ → Event → ℕ → DedupCache × Bool
check d window ev now =
    let key = event_fingerprint ev in
    if is_recent window now (Dict.lookup key d.entries)
    then (d, true)
    else (record d { entries = Dict.insert key now d.entries }, false)

unfoldable pub is_duplicate : DedupCache → Event → ℕ → DedupCache × Bool
is_duplicate d ev now = elim d.window [
  | pos zero ↦ (d, false)
  | pos (suc n) ↦ check d (suc n) ev now
  | negsuc n ↦ (d, false)
]

-- `!entry.lastSeen.Before(now.Add(-d.window))`; a cutoff before the zero time is 0 here, before
-- which no time lies either.
abbrev pub stays : ℕ → ℕ → String × ℕ → Bool
stays window now entry = not (ltb entry.1 (now - window))

unfoldable pub prune : DedupCache → ℕ → DedupCache
prune d now = elim d.window [
  | pos zero ↦ d
  | pos (suc n) ↦ record d { entries = select (stays (suc n) now) d.entries }
  | negsuc n ↦ d
]

unfoldable pub len : DedupCache → ℕ
len d = length d.entries
