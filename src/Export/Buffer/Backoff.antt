-- ===== src/Export/Buffer/Backoff.antt =====
-- `calculateBackoff`: the pause before the next attempt.
use titanops.Common.{ℕ, zero, suc, ◌*◌, ◌^◌, ◌≤◌, ◌<◌, ◌≡◌, ap, arith}
use Prim.Native.Nat.{min}
use native.Mathlib.Nat.{pow-suc}
use titanops.Export.Buffer.Defs.{RingBuffer, calculate_backoff}

pow_pos : (n : ℕ) → 0 < 2 ^ n
pow_pos zero = omega arith
pow_pos (suc n) = omega (arith, pow-suc 2 n, pow_pos n)

calculate_backoff-suc :
    (rb : RingBuffer) (n : ℕ)
    → calculate_backoff rb (suc n) ≡ min (rb.initial_backoff * 2 ^ n) rb.max_backoff
unfolding calculate_backoff
calculate_backoff-suc rb n = ground arith

calculate_backoff-le : (rb : RingBuffer) (n : ℕ) → calculate_backoff rb n ≤ rb.max_backoff
unfolding calculate_backoff
calculate_backoff-le rb zero = ground arith
calculate_backoff-le rb (suc n) = ground arith

product_doubles : (a n : ℕ) → a * 2 ^ suc n ≡ 2 * (a * 2 ^ n)
product_doubles a n = omega (arith, ap (λ (t : ℕ). a * t) (pow-suc 2 n))

-- No pause is longer than the maximum, the pauses of later attempts are no shorter, and each pause
-- is twice the one before it until the maximum is reached.
pub calculate_backoff_doubles :
    (rb : RingBuffer) (n : ℕ)
    → (calculate_backoff rb (suc n) ≤ rb.max_backoff)
      × (calculate_backoff rb (suc n) ≤ calculate_backoff rb (suc (suc n)))
      × (calculate_backoff rb (suc (suc n)) ≡ min (2 * calculate_backoff rb (suc n)) rb.max_backoff)
calculate_backoff_doubles rb n =
    let now = calculate_backoff-suc rb n in
    let next = calculate_backoff-suc rb (suc n) in
    let twice = product_doubles rb.initial_backoff n in
    (
      calculate_backoff-le rb (suc n),
      omega (arith, now, next, twice),
      omega (arith, now, next, twice),
    )

pub calculate_backoff_pos :
    (rb : RingBuffer) (n : ℕ)
    → 0 < rb.initial_backoff
    → 0 < rb.max_backoff
    → 0 < calculate_backoff rb (suc n)
calculate_backoff_pos rb n h k = grind (arith, pow_pos n, calculate_backoff-suc rb n)
