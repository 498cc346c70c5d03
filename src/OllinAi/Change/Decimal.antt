-- ===== src/OllinAi/Change/Decimal.antt =====
-- `intToStr`: the decimal digits of a Go `int`, as bytes.
use titanops.Common.{
  All, All-append, Bool, true, false, ℕ, zero, suc, ◌+◌, ◌-◌, ◌*◌, ◌/◌, ◌%◌, ◌^◌, ◌≤◌, ◌≡◌, ◌≢◌,
  refl, ◌∙◌, ap, List, [], ◌∷◌, ◌++◌, ◌==◌, arith, if◌then◌else◌,
}
use titanops.Common.Int.{ℤ, pos, negsuc}

-- `for n > 0 { digits = append(digits, byte('0'+n%10)); n /= 10 }`, in at most `fuel` rounds.
unfoldable pub digits : ℕ → ℕ → List ℕ
digits zero n = []
digits (suc fuel) n = let rest = digits fuel (n / 10) in if n == 0 then [] else (48 + n % 10) ∷ rest

unfoldable pub reverse : List ℕ → List ℕ
reverse [] = []
reverse (d ∷ ds) = reverse ds ++ d ∷ []

-- The negation of the least `int` is that `int` itself, which has no digits then.
unfoldable pub int_to_str : ℤ → List ℕ
int_to_str (pos zero) = 48 ∷ []
int_to_str (pos (suc n)) = reverse (digits (suc n) (suc n))
int_to_str (negsuc n) =
    if n + 1 == 2 ^ 63 then reverse (45 ∷ []) else reverse (digits (n + 1) (n + 1) ++ 45 ∷ [])

-- A decimal number read from the left.
unfoldable pub read : ℕ → List ℕ → ℕ
read acc [] = acc
read acc (d ∷ ds) = read (acc * 10 + (d - 48)) ds

unfoldable pub negated : ℕ → ℤ
negated zero = pos zero
negated (suc n) = negsuc n

unfoldable pub read_int : List ℕ → ℤ
read_int [] = pos 0
read_int (d ∷ ds) = if d == 45 then negated (read 0 ds) else pos (read 0 (d ∷ ds))

read-append :
    (acc : ℕ) (ds : List ℕ) (d : ℕ) → read acc (ds ++ d ∷ []) ≡ read acc ds * 10 + (d - 48)
unfolding read
read-append acc [] d = refl
read-append acc (e ∷ ds) d = read-append (acc * 10 + (e - 48)) ds d

read-reverse-digits : (fuel n : ℕ) → n ≤ fuel → read 0 (reverse (digits fuel n)) ≡ n
unfolding read reverse digits
read-reverse-digits zero n h = omega arith
read-reverse-digits (suc fuel) n h =
    let rest = read-reverse-digits fuel (n / 10) (omega arith) in
    ground (arith, rest, read-append 0 (reverse (digits fuel (n / 10))) (48 + n % 10))

reverse-append : (ds : List ℕ) (d : ℕ) → reverse (ds ++ d ∷ []) ≡ d ∷ reverse ds
unfolding reverse
reverse-append [] d = refl
reverse-append (e ∷ ds) d = ap (λ rest. rest ++ e ∷ []) (reverse-append ds d)

abbrev IsDigits : List ℕ → Type 0
IsDigits = All (λ d. 48 ≤ d)

IsDigits-reverse-digits : (fuel n : ℕ) → IsDigits (reverse (digits fuel n))
unfolding reverse digits
IsDigits-reverse-digits zero n = tt
IsDigits-reverse-digits (suc fuel) n = go (n == 0) refl (IsDigits-reverse-digits fuel (n / 10))
  where
    go :
        (b : Bool)
        → (n == 0) ≡ b
        → IsDigits (reverse (digits fuel (n / 10)))
        → IsDigits (reverse (digits (suc fuel) n))
    go true e rest = rw (e, digits) tt
    go false e rest =
        rw (e, digits)
          (All-append (λ d. 48 ≤ d) (reverse (digits fuel (n / 10))) ((48 + n % 10) ∷ [])
            (omega arith, tt) rest)

-- What has no sign is read as it is.
read_int_plain : (ds : List ℕ) → IsDigits ds → read_int ds ≡ pos (read 0 ds)
unfolding read_int read
read_int_plain [] h = refl
read_int_plain (d ∷ ds) (h, hs) = ground arith

read_int_signed : (n : ℕ) (ds : List ℕ) → read 0 ds ≡ suc n → read_int (45 ∷ ds) ≡ negsuc n
unfolding read_int negated
read_int_signed n ds h = ap negated h

-- Every `int` but the least is read back from what `intToStr` writes.
pub read_int-int_to_str : (n : ℤ) → n ≢ negsuc (2 ^ 63 - 1) → read_int (int_to_str n) ≡ n
unfolding int_to_str reverse read_int read
read_int-int_to_str (pos zero) h = refl
read_int-int_to_str (pos (suc n)) h =
    read_int_plain _ (IsDigits-reverse-digits (suc n) (suc n))
    ∙ ap pos (read-reverse-digits (suc n) (suc n) (omega arith))
read_int-int_to_str (negsuc n) h =
    let small : (n + 1 == 2 ^ 63) ≡ false = ground (arith, h) in
    rw (small, int_to_str)
      (ap read_int (reverse-append (digits (n + 1) (n + 1)) 45)
        ∙ read_int_signed n (reverse (digits (n + 1) (n + 1)))
            (read-reverse-digits (n + 1) (n + 1) (omega arith) ∙ omega arith))
