-- ===== src/Common/Take.antt =====
-- The first items of a list.
use titanops.Common.Lists.{length, get_elem?, take, drop}
use Prim.Native.Nat.{ℕ, zero, suc, ◌≤◌}
use mathlib.Core.Path.{◌≡◌, refl, ap}
use mathlib.Core.Option.{some}
use mathlib.Core.List.{List, [], ◌∷◌}
use native.Mathlib.Omega.{arith}

module _ {ℓ} {A : Type ℓ} where
  -- Reading on from the item at an index.
  pub take-drop :
      (xs : List A) (i n : ℕ) (e : A)
      → get_elem? xs i ≡ some e
      → take (suc n) (drop i xs) ≡ e ∷ take n (drop (suc i) xs)
  take-drop [] i n e h = ground arith
  take-drop (x ∷ xs) zero n e h = ground arith
  take-drop (x ∷ xs) (suc i) n e h = take-drop xs i n e h

  pub take-take : (m n : ℕ) (xs : List A) → m ≤ n → take m xs ≡ take m (take n xs)
  take-take zero n xs h = refl
  take-take (suc m) zero xs h = absurd (omega arith)
  take-take (suc m) (suc n) [] h = refl
  take-take (suc m) (suc n) (x ∷ xs) h = ap (λ rest. x ∷ rest) (take-take m n xs (omega arith))

  pub take_all : (n : ℕ) (xs : List A) → length xs ≤ n → take n xs ≡ xs
  take_all zero [] h = refl
  take_all zero (x ∷ xs) h = absurd (omega arith)
  take_all (suc n) [] h = refl
  take_all (suc n) (x ∷ xs) h = ap (λ rest. x ∷ rest) (take_all n xs (omega arith))

  pub take-take_short : (m n : ℕ) (xs : List A) → n ≤ m → take m (take n xs) ≡ take n xs
  take-take_short m zero xs h = take_all m [] (omega arith)
  take-take_short m (suc n) [] h = take_all m [] (omega arith)
  take-take_short zero (suc n) (x ∷ xs) h = absurd (omega arith)
  take-take_short (suc m) (suc n) (x ∷ xs) h =
      ap (λ rest. x ∷ rest) (take-take_short m n xs (omega arith))
