-- ===== src/Correlation/Dedup/Spacing.antt =====
-- What the cache lets through: the events of one fingerprint, no two of them within the window.
use titanops.Common.{
  ℕ, suc, ◌+◌, ◌≤◌, ◌≡◌, refl, ◌∙◌, String, Bool, true, false, none, some, List, [], ◌∷◌,
  if◌then◌else◌, select, arith, Bool-cases, inl, inr, ◌⊎◌, All, str_eq, eq_iff,
}
use titanops.Common.Int.{pos}
use titanops.Common.Dict
use titanops.Export.Event.{Event}
use titanops.Correlation.Dedup.Defs.{
  DedupCache, new_dedup_cache, event_fingerprint, is_recent, check, is_duplicate, stays, prune,
}

-- The cache's part of `Ingest`: an event that is no duplicate is kept, and the cache is pruned.
unfoldable pub admit : DedupCache → Event → ℕ → DedupCache × Bool
admit d ev now =
    let (d', duplicate) = is_duplicate d ev now in
    if duplicate then (d', false) else (prune d' now, true)

-- The events that are kept of a stream of events with their times of arrival.
unfoldable pub admitted : DedupCache → List (Event × ℕ) → List (Event × ℕ)
admitted d [] = []
admitted d ((ev, now) ∷ l) =
    let rest = admitted (admit d ev now).0 l in
    if (admit d ev now).1 then (ev, now) ∷ rest else rest

-- The times do not go back.
abbrev pub Ascending : ℕ → List (Event × ℕ) → Type 0
Ascending t [] = Unit
Ascending t ((ev, now) ∷ l) = (t ≤ now) × Ascending now l

abbrev pub Later : ℕ → String → ℕ → Event × ℕ → Type 0
Later window key t p = event_fingerprint p.0 ≡ key → t + window ≤ p.1

-- Of two events with one fingerprint the second comes no sooner than the window after the first.
abbrev pub Spaced : ℕ → List (Event × ℕ) → Type 0
Spaced window [] = Unit
Spaced window ((ev, now) ∷ l) = All (Later window (event_fingerprint ev) now) l × Spaced window l

module _ (n : ℕ) where
  pub record IsCache (d : DedupCache) : Type 0 where
    pub window : d.window ≡ pos (suc n)
    pub entries : Dict.IsDict d.entries

  pub admit_recent :
      (d : DedupCache) (ev : Event) (now : ℕ)
      → IsCache d
      → is_recent (suc n) now (Dict.lookup (event_fingerprint ev) d.entries) ≡ true
      → admit d ev now ≡ (d, false)
  unfolding admit is_duplicate check
  admit_recent d ev now c r = ground arith

  pub kept : DedupCache → Event → ℕ → DedupCache
  kept d ev now = record d {
    entries = select (stays (suc n) now) (Dict.insert (event_fingerprint ev) now d.entries);
  }

  pub admit_new :
      (d : DedupCache) (ev : Event) (now : ℕ)
      → IsCache d
      → is_recent (suc n) now (Dict.lookup (event_fingerprint ev) d.entries) ≡ false
      → admit d ev now ≡ (kept d ev now, true)
  unfolding admit is_duplicate check prune kept
  admit_new d ev now c r = ground arith

  pub kept-IsCache : (d : DedupCache) (ev : Event) (now : ℕ) → IsCache d → IsCache (kept d ev now)
  unfolding kept
  kept-IsCache d ev now c = record {
    window = c.window;
    entries =
        Dict.select-IsDict (stays (suc n) now) _
          (Dict.insert-IsDict (event_fingerprint ev) now d.entries c.entries);
  }

  -- The cache remembers that an event with the fingerprint was kept at t, if that still matters.
  Remembers : String → ℕ → ℕ → DedupCache → Type 0
  Remembers key t now d =
      ((s : ℕ) × (Dict.lookup key d.entries ≡ some s) × (t ≤ s)) ⊎ (t + suc n ≤ now)

  pub lookup-kept :
      (d : DedupCache) (ev : Event) (now : ℕ) (key : String)
      → IsCache d
      → Dict.lookup key (kept d ev now).entries ≡ (
          if str_eq (event_fingerprint ev) key then some now else elim (Dict.lookup key d.entries) [
            | none ↦ none
            | some s ↦ if stays (suc n) now (key, s) then some s else none
          ])
  unfolding kept
  lookup-kept d ev now key c =
      Dict.lookup-select (stays (suc n) now) key _
        (Dict.insert-IsDict (event_fingerprint ev) now d.entries c.entries)
      ∙ rw (Dict.lookup-insert (event_fingerprint ev) key now d.entries) (ground arith)

  Remembers-kept :
      (d : DedupCache) (ev : Event) (now : ℕ) (key : String) (t : ℕ)
      → IsCache d
      → t ≤ now
      → Remembers key t now d
      → Remembers key t now (kept d ev now)
  unfolding Remembers
  Remembers-kept d ev now key t c h (inr old) = inr old
  Remembers-kept d ev now key t c h (inl (s, e, le)) =
      elim (Bool-cases (str_eq (event_fingerprint ev) key)) [
        | inl same ↦ inl (now, rw (lookup-kept d ev now key c) (rw same), h)
        | inr other ↦ elim (Bool-cases (stays (suc n) now (key, s))) [
          | inl fresh ↦ inl (s, rw (lookup-kept d ev now key c) (rw (other, e) (rw fresh)), le)
          | inr stale ↦ inr (ground arith)
        ]
      ]

  Remembers-later :
      (d : DedupCache) (key : String) (t now u : ℕ)
      → now ≤ u
      → Remembers key t now d
      → Remembers key t u d
  unfolding Remembers
  Remembers-later d key t now u h (inl known) = inl known
  Remembers-later d key t now u h (inr old) = inr (omega arith)

  -- An event that is not recent comes no sooner than the window.
  not_recent-Later :
      (d : DedupCache) (ev : Event) (t now : ℕ) (key : String)
      → Remembers key t now d
      → is_recent (suc n) now (Dict.lookup (event_fingerprint ev) d.entries) ≡ false
      → Later (suc n) key t (ev, now)
  unfolding Remembers
  not_recent-Later d ev t now key (inr old) r same = old
  not_recent-Later d ev t now key (inl (s, e, le)) r same =
      let r' : is_recent (suc n) now (some s) ≡ false = rw (same, e) at r in ground arith

  admitted-Later :
      (d : DedupCache) (l : List (Event × ℕ)) (key : String) (t now : ℕ)
      → IsCache d
      → t ≤ now
      → Remembers key t now d
      → Ascending now l
      → All (Later (suc n) key t) (admitted d l)
  unfolding admitted
  admitted-Later d [] key t now c h r a = tt
  admitted-Later d ((ev, u) ∷ l) key t now c h r a =
      let r' : Remembers key t u d = Remembers-later d key t now u a.0 r in
      let h' : t ≤ u = omega arith in
      elim (Bool-cases (is_recent (suc n) u (Dict.lookup (event_fingerprint ev) d.entries))) [
        | inl recent ↦ rw (admit_recent d ev u c recent) (admitted-Later d l key t u c h' r' a.1)
        | inr new ↦ rw (admit_new d ev u c new) (
          not_recent-Later d ev t u key r' new,
          admitted-Later (kept d ev u) l key t u (kept-IsCache d ev u c) h'
              (Remembers-kept d ev u key t c h' r') a.1,
        )
      ]

  admitted-Spaced :
      (d : DedupCache) (l : List (Event × ℕ)) (now : ℕ)
      → IsCache d
      → Ascending now l
      → Spaced (suc n) (admitted d l)
  unfolding admitted Remembers
  admitted-Spaced d [] now c a = tt
  admitted-Spaced d ((ev, u) ∷ l) now c a =
      elim (Bool-cases (is_recent (suc n) u (Dict.lookup (event_fingerprint ev) d.entries))) [
        | inl recent ↦ rw (admit_recent d ev u c recent) (admitted-Spaced d l u c a.1)
        | inr new ↦ rw (admit_new d ev u c new) (
          admitted-Later (kept d ev u) l (event_fingerprint ev) u u (kept-IsCache d ev u c)
              (omega arith)
              (inl (
                u,
                rw (lookup-kept d ev u (event_fingerprint ev) c)
                    (rw ((eq_iff (event_fingerprint ev) (event_fingerprint ev)).1 refl)),
                omega arith,
              ))
              a.1,
          admitted-Spaced (kept d ev u) l u (kept-IsCache d ev u c) a.1,
        )
      ]

-- Of the events that a new cache with a positive window keeps from a stream whose times do not go
-- back, no two with one fingerprint lie closer than the window.
pub new_dedup_cache-Spaced :
    (n : ℕ) (l : List (Event × ℕ))
    → Ascending 0 l
    → Spaced (suc n) (admitted (new_dedup_cache (pos (suc n))) l)
unfolding new_dedup_cache
new_dedup_cache-Spaced n l a =
    admitted-Spaced n (new_dedup_cache (pos (suc n))) l 0 (record { window = refl; entries = tt }) a
