-- ===== src/OllinAi/Verifier/Verdicts.antt =====
-- What a verdict says of the signals, and what becomes of its event.
use titanops.Common.{
  ℕ, ◌≡◌, refl, sym, String, Bool, true, false, not, Option, none, some, List, [], ◌∷◌, ◌++◌,
  select, arith, if◌then◌else◌,
}
use titanops.Common.Float.{Floats, IsOrdered}
use titanops.OllinAi.Change.{DeploymentChange}
use titanops.OllinAi.Verdict.{SignalCheck, Verdict, determine_status, new_verdict}
use titanops.OllinAi.Verifier.Checks.{
  SignalType, error_rate, latency_p99, pod_restarts, throughput, cpu_saturation, select_signals,
  evaluate_check,
}
use titanops.OllinAi.Verifier.Readings.{
  Reading, silent, fine, bad, reading, worst, worst_of, status_for, Judgement, status_for-Judgement,
}
use mathlib.Core.Path.{subst}
use titanops.OllinAi.Verifier.Defs.{
  VerifierConfig, VerifierDeps, Verifier, run_single_check, run_each, run_checks, verify,
}

-- A value at least as bad for the signal: lower for the throughput, higher for the others.
abbrev pub IsWorse : {F : Type 0} → Floats F → SignalType → F → F → Type 0
IsWorse fl throughput x y = fl.lt x y ≡ false
IsWorse fl _ x y = fl.lt y x ≡ false

module _ {F : Type 0} (fl : Floats F) (o : IsOrdered fl) where
  le_keeps : (a x y : F) → fl.lt y x ≡ false → fl.le x a ≡ false → fl.le y a ≡ false
  le_keeps a x y h g = grind (arith, o.le_lem, o.lt_left, o.lt_right)

  le_keeps_left : (a x y : F) → fl.lt x y ≡ false → fl.le a x ≡ false → fl.le a y ≡ false
  le_keeps_left a x y h g = grind (arith, o.le_lem, o.lt_left, o.lt_right)

  lt_keeps : (a x y : F) → fl.lt y x ≡ false → fl.lt x a ≡ false → fl.lt y a ≡ false
  lt_keeps a x y h g = grind (arith, o.le_lem, o.lt_left, o.lt_right)

  -- With a baseline that is not zero, a signal that fails its check fails it at every value that is at
  -- least as bad.
  pub evaluate_check_mono :
      (s : SignalType) (baseline threshold x y : F)
      → fl.eq baseline (fl.literal 0 1) ≡ false
      → IsWorse fl s x y
      → evaluate_check fl s baseline x threshold ≡ false
      → evaluate_check fl s baseline y threshold ≡ false
  unfolding evaluate_check
  evaluate_check_mono error_rate baseline threshold x y nz worse failed =
      ground (arith, le_keeps (fl.mul baseline threshold) x y)
  evaluate_check_mono latency_p99 baseline threshold x y nz worse failed =
      ground (arith, le_keeps (fl.mul baseline threshold) x y)
  evaluate_check_mono pod_restarts baseline threshold x y nz worse failed =
      le_keeps threshold x y worse failed
  evaluate_check_mono throughput baseline threshold x y nz worse failed =
      ground (arith, le_keeps_left (fl.mul baseline threshold) x y)
  evaluate_check_mono cpu_saturation baseline threshold x y nz worse failed =
      lt_keeps threshold x y worse failed

module _ {F : Type 0} (deps : VerifierDeps F) (cfg : VerifierConfig F) where
  determine_status_step :
      (check : SignalCheck F) (checks : List (SignalCheck F)) (r : Reading)
      → determine_status checks (select (λ (c : SignalCheck F). not c.passed) checks) ≡ status_for r
      → determine_status
          (check ∷ checks)
          (select (λ (c : SignalCheck F). not c.passed) (check ∷ checks))
        ≡ status_for (worst (reading (some check)) r)
  unfolding determine_status status_for worst reading
  determine_status_step check checks r h =
      step check.passed checks (select (λ (c : SignalCheck F). not c.passed) checks) r h
        (none_of_none checks)
    where
      none_of_none :
          (cs : List (SignalCheck F))
          → cs ≡ []
          → select (λ (c : SignalCheck F). not c.passed) cs ≡ []
      none_of_none [] e = refl
      none_of_none (c ∷ cs) e = cc

      step :
          (b : Bool) (cs failed : List (SignalCheck F)) (r : Reading)
          → determine_status cs failed ≡ status_for r
          → (cs ≡ [] → failed ≡ [])
          → determine_status (check ∷ cs) (if not b then check ∷ failed else failed)
            ≡ status_for (worst (if b then fine else bad) r)
      step false cs failed r h e = refl
      step true [] [] silent h e = refl
      step true [] [] fine h e = cc
      step true [] [] bad h e = cc
      step true [] (f ∷ failed) r h e = absurd (ground (arith, e refl))
      step true (c ∷ cs) [] silent h e = refl
      step true (c ∷ cs) [] fine h e = refl
      step true (c ∷ cs) [] bad h e = cc
      step true (c ∷ cs) (f ∷ failed) silent h e = cc
      step true (c ∷ cs) (f ∷ failed) fine h e = cc
      step true (c ∷ cs) (f ∷ failed) bad h e = refl

  status_lem :
      (ns workload : String) (signals : List SignalType)
      → let checks = run_each deps cfg signals ns workload in
        determine_status checks (select (λ (c : SignalCheck F). not c.passed) checks)
        ≡ status_for (worst_of deps cfg ns workload signals)
  unfolding run_each worst_of determine_status status_for reading worst
  status_lem ns workload [] = refl
  status_lem ns workload (s ∷ signals) =
      go (run_single_check deps cfg s ns workload) refl (status_lem ns workload signals)
    where
      P : List (SignalCheck F) → Reading → Type 0
      P checks r =
          determine_status checks (select (λ (c : SignalCheck F). not c.passed) checks)
          ≡ status_for r

      go :
          (o : Option (SignalCheck F))
          → run_single_check deps cfg s ns workload ≡ o
          → P (run_each deps cfg signals ns workload) (worst_of deps cfg ns workload signals)
          → P
              (run_each deps cfg (s ∷ signals) ns workload)
              (worst_of deps cfg ns workload (s ∷ signals))
      go none e rest = rw (e, run_each, worst_of) rest
      go (some check) e rest =
          rw (e, run_each, worst_of)
            (determine_status_step check (run_each deps cfg signals ns workload)
              (worst_of deps cfg ns workload signals) rest)

  -- A verification whose context lasts stores exactly one verdict and returns it. It is a regression when,
  -- for some selected signal, the queries that count for it answer and the values are beyond the threshold;
  -- healthy when they answer for some signal and for none are the values so; and inconclusive when
  -- they answer for none.
  pub verify_lem :
      (id : String) (started_at now : ℕ) (change : DeploymentChange) (v : Verifier F)
      → v.config ≡ cfg
      → let signals = select_signals deps.order change.changes in
        let (result, v') = verify deps false id started_at now change v in
        (verdict : Verdict F) × (result ≡ some verdict)
        × (v'.verdicts ≡ v.verdicts ++ verdict ∷ [])
        × Judgement deps cfg change.namespace change.workload_name signals verdict.status
  unfolding verify new_verdict run_checks
  verify_lem id started_at now change v e =
      let signals = select_signals deps.order change.changes in
      (
        _,
        refl,
        refl,
        subst (Judgement deps cfg change.namespace change.workload_name signals)
            (sym (rw e (status_lem change.namespace change.workload_name signals)))
            (status_for-Judgement deps cfg change.namespace change.workload_name signals),
      )
