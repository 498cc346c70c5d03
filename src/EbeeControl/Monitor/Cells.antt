-- ===== src/EbeeControl/Monitor/Cells.antt =====
-- Which cell of a circular buffer holds which event, before and after a push.
use titanops.Common.{
  ℕ, zero, suc, ◌+◌, ◌-◌, ◌%◌, ◌≤◌, ◌<◌, ◌≡◌, ◌≢◌, ◌⊎◌, inl, inr, ◌∙◌, ap, sym, List, ◌∷◌, length,
  get_elem?, set, arith, get_elem?-set_self, get_elem?-set_ne,
}
use native.Mathlib.Nat.{mod-eq_of_lt, mod-eq-sub-mod}
use native.Mathlib.Decide.{dec_lt}
use titanops.EbeeControl.Types.{AccessEvent}

-- Below twice the divisor a remainder is the number or the number less the divisor.
pub once_round :
    (x cap : ℕ) → x < cap + cap → (x < cap × (x % cap ≡ x)) ⊎ (cap ≤ x × (x % cap ≡ x - cap))
once_round x cap h = elim (dec_lt x cap) [
  | yes p ↦ inl (p, mod-eq_of_lt p)
  | no p ↦ inr (
    omega arith,
    mod-eq-sub-mod {n = x} {m = cap} (omega arith)
        ∙ mod-eq_of_lt {n = x - cap} {m = cap} (omega arith),
  )
]

-- The cells of a full buffer behind a push.
turned :
    (cap h i : ℕ)
    → h < cap
    → suc i < cap
    → (((h + 1) % cap + cap - 1 - suc i) % cap ≡ (h + cap - 1 - i) % cap)
      × ((h + cap - 1 - i) % cap ≢ h)
turned cap h i hh hi =
    let moved = once_round (h + 1) cap (omega arith) in
    let old = once_round (h + cap - 1 - i) cap (omega arith) in
    let new = once_round ((h + 1) % cap + cap - 1 - suc i) cap (ground arith) in
    (ground arith, ground arith)

turned_newest : (cap h : ℕ) → h < cap → ((h + 1) % cap + cap - 1 - 0) % cap ≡ h
turned_newest cap h hh =
    let moved = once_round (h + 1) cap (omega arith) in
    let new = once_round ((h + 1) % cap + cap - 1 - 0) cap (ground arith) in ground arith

-- A free cell is none of those in use.
free_cell : (cap h s i : ℕ) → h < cap → s < cap → i < s → (h + s) % cap ≢ (h + s - 1 - i) % cap
free_cell cap h s i hh hs hi =
    let new = once_round (h + s) cap (omega arith) in
    let old = once_round (h + s - 1 - i) cap (omega arith) in ground arith

module _ (cap : ℕ) (xs history : List AccessEvent) (e : AccessEvent) (h : ℕ) where
  pub full_cells :
      (i : ℕ)
      → length xs ≡ cap
      → h < cap
      → i < cap
      → ((j : ℕ) → j < cap → get_elem? xs ((h + cap - 1 - j) % cap) ≡ get_elem? history j)
      → get_elem? (set xs h e) (((h + 1) % cap + cap - 1 - i) % cap) ≡ get_elem? (e ∷ history) i
  full_cells zero len hh hi old =
      ap (get_elem? (set xs h e)) (turned_newest cap h hh) ∙ get_elem?-set_self xs h e (omega arith)
  full_cells (suc i) len hh hi old =
      let (same, other) = turned cap h i hh hi in
      ap (get_elem? (set xs h e)) same
      ∙ get_elem?-set_ne xs h _ e (λ eq. other (sym eq))
      ∙ old i (omega arith)

  pub free_cells :
      (s i : ℕ)
      → length xs ≡ cap
      → h < cap
      → s < cap
      → i < s + 1
      → ((j : ℕ) → j < s → get_elem? xs ((h + s - 1 - j) % cap) ≡ get_elem? history j)
      → get_elem? (set xs ((h + s) % cap) e) ((h + (s + 1) - 1 - i) % cap)
        ≡ get_elem? (e ∷ history) i
  free_cells s zero len hh hs hi old =
      ap (λ k. get_elem? (set xs ((h + s) % cap) e) (k % cap)) (omega arith)
      ∙ get_elem?-set_self xs ((h + s) % cap) e
          (omega (arith, once_round (h + s) cap (omega arith)))
  free_cells s (suc i) len hh hs hi old =
      ap (λ k. get_elem? (set xs ((h + s) % cap) e) (k % cap)) (omega arith)
      ∙ get_elem?-set_ne xs ((h + s) % cap) ((h + s - 1 - i) % cap) e
          (free_cell cap h s i hh hs (omega arith))
      ∙ old i (omega arith)
