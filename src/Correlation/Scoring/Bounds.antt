-- ===== src/Correlation/Scoring/Bounds.antt =====
-- The range of the confidence score.
use titanops.Common.{
  ℕ, ◌+◌, ◌*◌, ◌≤◌, ◌≡◌, ◌∙◌, ◌≢◌, String, Bool, true, List, [], ◌∷◌, length, arith, some, eq_iff,
}
use titanops.Common.Dict
use Prim.Native.Nat.{min}
use mathlib.Core.List.{Memᴰ}
use titanops.Export.Event.{Event}
use titanops.Correlation.Scoring.Defs.{
  module_set, proximity_bonus, event_time_span, calculate_confidence, max_confidence, second,
}
use titanops.Correlation.Scoring.Span.{AllWithin, event_time_span-le_iff}

module_set-keeps :
    (name : String) (evs : List Event) (m : List (String × Bool))
    → Dict.lookup name m ≡ some true
    → Dict.lookup name (module_set evs m) ≡ some true
unfolding module_set
module_set-keeps name [] m h = h
module_set-keeps name (ev ∷ evs) m h =
    module_set-keeps name evs (Dict.insert ev.module_name true m)
      (Dict.lookup-insert ev.module_name name true m ∙ ground arith)

-- Every module of the events is in the set.
module_set-mem :
    (a : Event) (evs : List Event) (m : List (String × Bool))
    → Memᴰ a evs
    → Dict.lookup a.module_name (module_set evs m) ≡ some true
unfolding module_set
module_set-mem a [] m h = elim h [ ]
module_set-mem a (ev ∷ evs) m (Memᴰ.head e) = rw e (
    module_set-keeps ev.module_name evs (Dict.insert ev.module_name true m) (
      Dict.lookup-insert ev.module_name ev.module_name true m
      ∙ ground (arith, eq_iff ev.module_name ev.module_name)))
module_set-mem a (ev ∷ evs) m (Memᴰ.tail h) =
    module_set-mem a evs (Dict.insert ev.module_name true m) h

length-of-two :
    (a b : Event) (evs : List Event)
    → Memᴰ a evs
    → Memᴰ b evs
    → a.module_name ≢ b.module_name
    → 2 ≤ length evs
length-of-two a b [] ma mb ne = elim ma [ ]
length-of-two a b (x ∷ []) (Memᴰ.head e) (Memᴰ.head f) ne = absurd (ne (rw (e, f)))
length-of-two a b (x ∷ []) (Memᴰ.head e) (Memᴰ.tail m) ne = elim m [ ]
length-of-two a b (x ∷ []) (Memᴰ.tail m) mb ne = elim m [ ]
length-of-two a b (x ∷ y ∷ evs) ma mb ne = omega arith

-- No score is above 100.
pub calculate_confidence-le :
    (evs : List Event) (matched : List String) → calculate_confidence evs matched ≤ max_confidence
unfolding calculate_confidence
calculate_confidence-le evs matched = ground arith

base : List Event → List String → ℕ
base evs matched = length (module_set evs []) * 20 + length matched * 10

calculate_confidence-base :
    (evs : List Event) (matched : List String)
    → 2 ≤ length evs
    → min 100 (base evs matched + proximity_bonus (event_time_span evs))
      ≤ calculate_confidence evs matched
unfolding calculate_confidence base
calculate_confidence-base evs matched h = ground arith

close_bonus : (span : ℕ) → span ≤ 10 * second → proximity_bonus span ≡ 10
unfolding proximity_bonus
close_bonus span h = ground arith

module _ (evs : List Event) (matched : List String) (a b : Event) (ma : Memᴰ a evs)
    (mb : Memᴰ b evs) (ne : a.module_name ≢ b.module_name) where
  two_modules :
      (40 + 10 * length matched ≤ base evs matched)
      × (min 100 (base evs matched + proximity_bonus (event_time_span evs))
          ≤ calculate_confidence evs matched)
  unfolding base
  two_modules = (
    omega (
      arith,
      Dict.length_of_two a.module_name b.module_name (module_set evs []) ne
          (module_set-mem a evs [] ma) (module_set-mem b evs [] mb),
    ),
    calculate_confidence-base evs matched (length-of-two a b evs ma mb ne),
  )

  -- Events of two modules score at least 40, and 10 more for each matched attribute, up to 100.
  pub cross_module_confidence :
      min 100 (40 + 10 * length matched) ≤ calculate_confidence evs matched
  cross_module_confidence = omega (arith, two_modules)

  -- They score at least 50, and 10 more for each matched attribute, up to 100, if no two of the
  -- events lie further than 10 seconds apart.
  pub close_module_confidence :
      AllWithin (10 * second) evs
      → min 100 (50 + 10 * length matched) ≤ calculate_confidence evs matched
  close_module_confidence w = omega (
    arith,
    two_modules,
    close_bonus (event_time_span evs) ((event_time_span-le_iff evs (10 * second)).1 w),
  )
