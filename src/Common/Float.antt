-- ===== src/Common/Float.antt =====
-- Go's float64 as an interface: a type of numbers with the operations that the source uses.
use Prim.Native.Nat.{ℕ}
use mathlib.Core.Path.{◌≡◌}
use mathlib.Core.Bool.{Bool, true, false, not}

-- `literal m n` is the float nearest to m / n.
pub record Floats (F : Type 0) : Type 0 where
  pub literal : ℕ → ℕ → F
  pub lt : F → F → Bool
  pub le : F → F → Bool
  pub eq : F → F → Bool
  pub mul : F → F → F

-- The comparisons order the numbers, as they do for floats other than NaN.
pub record IsOrdered {F : Type 0} (fl : Floats F) : Type 0 where
  pub le_lem : (a b : F) → fl.le a b ≡ not (fl.lt b a)
  pub irreflexive : (a : F) → fl.lt a a ≡ false
  pub lt_left : (a b c : F) → fl.lt a b ≡ true → fl.lt c b ≡ false → fl.lt a c ≡ true
  pub lt_right : (a b c : F) → fl.lt b a ≡ true → fl.lt b c ≡ false → fl.lt c a ≡ true
