-- ===== src/EbeeControl/Classifier/Monotone.antt =====
-- More risk never gives a lower classification.
use titanops.Common.{ℕ, ◌≤◌, ◌≡◌, String, false, arith, eq_iff}
use titanops.Common.Int.{pos}
use titanops.Common.Float.{Floats, IsOrdered}
use titanops.EbeeControl.Types.{ThreatClassification, low, medium, high, critical}
use titanops.EbeeControl.Classifier.Defs.{production, classify_from_inputs}

unfoldable pub rank : ThreatClassification → ℕ
rank low = 0
rank medium = 1
rank high = 2
rank critical = 3

module _ {F : Type 0} (fl : Floats F) (o : IsOrdered fl) where
  -- Of two pods the second is at least as exposed.
  pub record IsRiskier (ns ns' : String) (c c' : ℕ) (x x' : F) : Type 0 where
    pub exposed : ns ≡ production → ns' ≡ production
    pub above : c ≤ c'
    pub score : fl.lt x' x ≡ false

  -- For floats that the comparisons order and criticalities of 5 at most, the second of two pods, at least
  -- as exposed as the first in its namespace, its criticality and its anomaly score, is not
  -- classified lower.
  pub classify_mono :
      (ns ns' : String) (c c' : ℕ) (x x' : F)
      → c' ≤ 5
      → IsRiskier ns ns' c c' x x'
      → rank (classify_from_inputs fl ns (pos c) x) ≤ rank (classify_from_inputs fl ns' (pos c') x')
  unfolding rank classify_from_inputs
  classify_mono ns ns' c c' x x' h r = ground (
    arith,
    eq_iff ns production,
    eq_iff ns' production,
    r.exposed,
    o.le_lem (fl.literal 6 10) x,
    o.le_lem (fl.literal 6 10) x',
    o.le_lem x (fl.literal 8 10),
    o.le_lem x' (fl.literal 8 10),
    o.le_lem (fl.literal 3 10) x,
    o.le_lem (fl.literal 3 10) x',
    o.lt_left (fl.literal 8 10) x x',
    o.lt_right (fl.literal 6 10) x' x,
    o.lt_right (fl.literal 3 10) x' x,
  )
