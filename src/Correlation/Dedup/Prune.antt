-- ===== src/Correlation/Dedup/Prune.antt =====
-- Pruning forgets only what no later decision reads.
use titanops.Common.{
  ℕ, zero, suc, ◌≤◌, ◌≡◌, refl, String, List, select, arith, Option-cases, Bool-cases, inl, inr,
}
use titanops.Common.Int.{ℤ, pos, negsuc}
use titanops.Common.Dict
use titanops.Export.Event.{Event}
use titanops.Correlation.Dedup.Defs.{
  DedupCache, event_fingerprint, is_recent, check, is_duplicate, stays, prune,
}

is_recent-select :
    (window t u : ℕ) (key : String) (entries : List (String × ℕ))
    → Dict.IsDict entries
    → t ≤ u
    → is_recent window u (Dict.lookup key (select (stays window t) entries))
      ≡ is_recent window u (Dict.lookup key entries)
is_recent-select window t u key entries d h =
    rw (Dict.lookup-select (stays window t) key entries d)
      (elim (Option-cases (Dict.lookup key entries)) [
        | inl e ↦ rw e
        | inr (s, e) ↦ rw e (ground arith)
      ])

check_verdict :
    (d : DedupCache) (window : ℕ) (ev : Event) (now : ℕ)
    → (check d window ev now).1
      ≡ is_recent window now (Dict.lookup (event_fingerprint ev) d.entries)
unfolding check
check_verdict d window ev now =
    elim (Bool-cases (is_recent window now (Dict.lookup (event_fingerprint ev) d.entries))) [
      | inl e ↦ rw e
      | inr e ↦ rw e
    ]

-- A pruned cache gives every event the verdict that the cache gave before, at the time of the
-- pruning and later.
pub is_duplicate-prune :
    (d : DedupCache) (ev : Event) (t u : ℕ)
    → Dict.IsDict d.entries
    → t ≤ u
    → (is_duplicate (prune d t) ev u).1 ≡ (is_duplicate d ev u).1
unfolding is_duplicate prune
is_duplicate-prune d ev t u entries h = go d.window refl
  where
    go : (w : ℤ) → d.window ≡ w → (is_duplicate (prune d t) ev u).1 ≡ (is_duplicate d ev u).1
    go (pos zero) e = ground arith
    go (negsuc n) e = ground arith
    go (pos (suc n)) e = ground (
      arith,
      check_verdict (prune d t) (suc n) ev u,
      check_verdict d (suc n) ev u,
      is_recent-select (suc n) t u (event_fingerprint ev) d.entries entries h,
    )
