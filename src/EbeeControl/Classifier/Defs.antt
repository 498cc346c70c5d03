-- ===== src/EbeeControl/Classifier/Defs.antt =====
-- The rules of the classification. `fl` are the operations of float64.
use titanops.Common.{String, not, ◌&&◌, ◌||◌, str_eq, if◌then◌else◌}
use titanops.Common.Int.{ℤ, pos, ltb_ℤ, eqb_ℤ}
use titanops.Common.Float.{Floats}
use titanops.EbeeControl.Types.{ThreatClassification, low, medium, high, critical, PodContext}

abbrev pub production : String
production = "production"

module _ {F : Type 0} (fl : Floats F) where
  unfoldable pub classify_from_inputs : String → ℤ → F → ThreatClassification
  classify_from_inputs ns_class criticality score =
      let is_production = str_eq ns_class production in
      if is_production && (fl.lt (fl.literal 8 10) score || eqb_ℤ criticality (pos 5))
      then critical
      else if is_production
          && ((fl.le (fl.literal 6 10) score && fl.le score (fl.literal 8 10))
              || eqb_ℤ criticality (pos 4))
      then high
      else if is_production
          || ((fl.le (fl.literal 3 10) score && fl.le score (fl.literal 6 10))
              || eqb_ℤ criticality (pos 3))
      then medium
      else if not is_production
          && (fl.lt score (fl.literal 3 10) && not (ltb_ℤ (pos 2) criticality))
      then low
      else medium

  unfoldable pub classify_threat : PodContext F → ThreatClassification
  classify_threat ctx =
      classify_from_inputs ctx.namespace_classification ctx.service_criticality
        ctx.davis_anomaly_score

  -- A zero value stands for a missing one, and the worst is put in its place.
  unfoldable pub classify_threat_with_defaults : String → ℤ → F → ThreatClassification
  classify_threat_with_defaults ns_class criticality score =
      classify_from_inputs (if str_eq ns_class "" then production else ns_class)
        (if eqb_ℤ criticality (pos 0) then pos 5 else criticality)
        (if fl.eq score (fl.literal 0 1) then fl.literal 1 1 else score)
