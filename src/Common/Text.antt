-- ===== src/Common/Text.antt =====
-- The characters of a text, and text put together as the source's `+` and `strings.Join` do.
use Prim.Native.Char.{code}
use Prim.Native.String.{String}
use Prim.Native.Nat.{ℕ, zero, suc}
use Prim.Native.String
use mathlib.Core.Bool.{Bool}
use mathlib.Core.List.{List, [], ◌∷◌}

-- `for _, c := range s`, as code points.
abbrev pub codes : String → List ℕ
codes String.[] = []
codes (String.◌∷◌ c s) = code c ∷ codes s

infixr 65 ◌+◌
abbrev pub ◌+◌ : String → String → String
s + t = String.◌++◌ s t

-- `strings.Join`.
abbrev pub join : String → List String → String
join sep [] = ""
join sep (s ∷ []) = s
join sep (s ∷ t ∷ l) = s + sep + join sep (t ∷ l)

-- `s[:n]`, for texts of one byte a character that are not shorter.
abbrev pub first : ℕ → String → String
first zero s = ""
first (suc n) String.[] = ""
first (suc n) (String.◌∷◌ c s) = String.◌∷◌ c (first n s)

-- What the source calls of Go's package strings, where the model needs no more than that it is a function.
pub record Strings : Type 0 where
  pub to_lower : String → String
  pub to_upper : String → String
  pub trim_space : String → String
  pub replace_all : String → String → String → String
  pub has_substring : String → String → Bool
