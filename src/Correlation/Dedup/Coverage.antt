-- ===== src/Correlation/Dedup/Coverage.antt =====
-- What the cache drops: only events that repeat a kept one within the window.
use titanops.Common.{
  ℕ, suc, ◌+◌, ◌≤◌, ◌<◌, ◌≡◌, refl, ◌∙◌, sym, String, true, some, List, [], ◌∷◌, arith,
  Option-cases, Bool-cases, inl, inr, All, str_eq, eq_iff,
}
use mathlib.Core.List.{Memᴰ}
use titanops.Common.Int.{pos}
use titanops.Common.Dict
use titanops.Export.Event.{Event}
use titanops.Correlation.Dedup.Defs.{DedupCache, new_dedup_cache, event_fingerprint, is_recent}
use titanops.Correlation.Dedup.Spacing.{
  admitted, Ascending, IsCache, admit_recent, kept, admit_new, kept-IsCache, lookup-kept,
}

-- A kept event with the fingerprint, at time s.
abbrev pub Source : (Event × ℕ → Type 0) → String → ℕ → Type 0
Source Kept key s = (f : Event) × Kept (f, s) × (event_fingerprint f ≡ key)

-- The event is kept, or repeats a kept one that is not a window older.
abbrev pub Repeats : ℕ → (Event × ℕ → Type 0) → Event × ℕ → Type 0
Repeats window Kept p =
    (s : ℕ) × Source Kept (event_fingerprint p.0) s × (s ≤ p.1) × (p.1 < s + window)

module _ (n : ℕ) (Kept : Event × ℕ → Type 0) where
  -- Every entry stands for a kept event.
  Known : ℕ → DedupCache → Type 0
  Known now d =
      (key : String) (s : ℕ) → Dict.lookup key d.entries ≡ some s → Source Kept key s × (s ≤ now)

  Known-kept :
      (d : DedupCache) (ev : Event) (now u : ℕ)
      → IsCache n d
      → now ≤ u
      → Known now d
      → Kept (ev, u)
      → Known u (kept n d ev u)
  unfolding Known
  Known-kept d ev now u c h known k key s e =
      elim (Bool-cases (str_eq (event_fingerprint ev) key)) [
        | inl same ↦
            let at : s ≡ u = ground (arith, rw (same) at (sym (lookup-kept n d ev u key c) ∙ e)) in
            ((ev, rw at k, (eq_iff (event_fingerprint ev) key).0 same), omega arith)
        | inr other ↦ elim (Option-cases (Dict.lookup key d.entries)) [
          | inl missing ↦
              absurd (cc (rw (other, missing) at (sym (lookup-kept n d ev u key c) ∙ e)))
          | inr (r, found) ↦
              let at : s ≡ r =
                ground (arith, rw (other, found) at (sym (lookup-kept n d ev u key c) ∙ e)) in
              let (source, le) = known key r found in (rw at source, omega arith)
        ]
      ]

  recent_Repeats :
      (d : DedupCache) (ev : Event) (now u : ℕ)
      → Known now d
      → now ≤ u
      → is_recent (suc n) u (Dict.lookup (event_fingerprint ev) d.entries) ≡ true
      → Repeats (suc n) Kept (ev, u)
  unfolding Known
  recent_Repeats d ev now u known h recent =
      elim (Option-cases (Dict.lookup (event_fingerprint ev) d.entries)) [
        | inl missing ↦ absurd (cc (rw missing at recent))
        | inr (s, found) ↦
            let (source, le) = known (event_fingerprint ev) s found in
            let r : is_recent (suc n) u (some s) ≡ true = rw found at recent in
            (s, source, omega arith, ground arith)
      ]

  admitted-Repeats :
      (d : DedupCache) (l : List (Event × ℕ)) (now : ℕ)
      → IsCache n d
      → Known now d
      → Ascending now l
      → ((p : Event × ℕ) → Memᴰ p (admitted d l) → Kept p)
      → All (Repeats (suc n) Kept) l
  unfolding admitted Known
  admitted-Repeats d [] now c known a all = tt
  admitted-Repeats d ((ev, u) ∷ l) now c known a all =
      elim (Bool-cases (is_recent (suc n) u (Dict.lookup (event_fingerprint ev) d.entries))) [
        | inl recent ↦
            let all' : (p : Event × ℕ) → Memᴰ p (admitted d l) → Kept p =
              rw (admit_recent n d ev u c recent) at all in
            let known' : Known u d = λ key s e. let (k, le) = known key s e in (k, omega arith) in
            (recent_Repeats d ev now u known a.0 recent, admitted-Repeats d l u c known' a.1 all')
        | inr new ↦
            let all' : (p : Event × ℕ) → Memᴰ p ((ev, u) ∷ admitted (kept n d ev u) l) → Kept p =
              rw (admit_new n d ev u c new) at all in
            let mine : Kept (ev, u) = all' (ev, u) (Memᴰ.head refl) in
            (
              (u, (ev, mine, refl), omega arith, omega arith),
              admitted-Repeats (kept n d ev u) l u (kept-IsCache n d ev u c)
                  (Known-kept d ev now u c a.0 known mine) a.1 (λ p m. all' p (Memᴰ.tail m)),
            )
      ]

-- Of a stream whose times do not go back, a new cache with a positive window keeps or repeats every
-- event: each has the fingerprint of a kept event, itself or one before it by less than the window.
pub admitted_covers :
    (n : ℕ) (l : List (Event × ℕ))
    → Ascending 0 l
    → let kept_events = admitted (new_dedup_cache (pos (suc n))) l in
      All (Repeats (suc n) (λ p. Memᴰ p kept_events)) l
unfolding new_dedup_cache Dict.lookup
admitted_covers n l a =
    let d = new_dedup_cache (pos (suc n)) in
    admitted-Repeats n (λ p. Memᴰ p (admitted d l)) d l 0 (record { window = refl; entries = tt })
      (unfold Known in λ key s e. absurd (cc e)) a (λ p m. m)
