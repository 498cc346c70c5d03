-- ===== src/OllinAi/Verdict.antt =====
-- The verdict on a deployment (modules/ollinai/verdict.go). `F` are the measured values.
use titanops.Common.{ℕ, suc, String, Bool, not, List, [], ◌∷◌, select, ltb, leb, if◌then◌else◌}
use titanops.Common.Int.{ℤ, difference}
use titanops.Common.Text.{◌+◌ as ◌&◌}
use titanops.OllinAi.Change.{DeploymentChange}

pub data VerdictStatus : Type 0 where
  healthy : VerdictStatus
  regression : VerdictStatus
  inconclusive : VerdictStatus

pub record SignalCheck (F : Type 0) : Type 0 where
  pub signal : String
  pub baseline_value : F
  pub current_value : F
  pub threshold : F
  pub passed : Bool
  pub unit : String

pub record Verdict (F : Type 0) : Type 0 where
  pub verdict_id : String
  pub status : VerdictStatus
  pub change : DeploymentChange
  pub checks : List (SignalCheck F)
  pub failed_checks : List (SignalCheck F)
  pub summary : String
  pub started_at : ℕ
  pub completed_at : ℕ
  pub duration : ℤ

module _ {F : Type 0} where
  unfoldable pub determine_status : List (SignalCheck F) → List (SignalCheck F) → VerdictStatus
  determine_status [] failed = inconclusive
  determine_status (c ∷ all) [] = healthy
  determine_status (c ∷ all) (f ∷ failed) = regression

  -- The loop of `buildSummary` from the index i on.
  unfoldable pub signal_list : ℕ → List (SignalCheck F) → String
  signal_list i [] = ""
  signal_list i (f ∷ failed) =
      let rest = signal_list (suc i) failed in
      (if ltb 0 i then ", " else "") & f.signal & (if leb 2 i then "..." else rest)

  unfoldable pub build_summary : DeploymentChange → VerdictStatus → List (SignalCheck F) → String
  build_summary change healthy failed =
      change.workload_kind & "/" & change.workload_name & " in " & change.namespace
      & ": deployment verified healthy"
  build_summary change regression failed =
      change.workload_kind
      & "/"
      & change.workload_name
      & " in "
      & change.namespace
      & ": regression detected ("
      & signal_list 0 failed
      & ")"
  build_summary change inconclusive failed =
      change.workload_kind & "/" & change.workload_name & " in " & change.namespace
      & ": verification inconclusive (insufficient data)"

  -- `id` and `now` are the new identifier and the clock.
  unfoldable pub new_verdict : String → ℕ → DeploymentChange → List (SignalCheck F) → ℕ → Verdict F
  new_verdict id now change checks started_at =
      let failed = select (λ (c : SignalCheck F). not c.passed) checks in
      let status = determine_status checks failed in
      record {
        verdict_id = id;
        status = status;
        change = change;
        checks = checks;
        failed_checks = failed;
        summary = build_summary change status failed;
        started_at = started_at;
        completed_at = now;
        duration = difference now started_at;
      }
