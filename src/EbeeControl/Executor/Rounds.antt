-- ===== src/EbeeControl/Executor/Rounds.antt =====
-- The rounds of the retry loop, for the function that it calls: each call and each wait on the trace with
-- what it was answered.
use titanops.Common.{
  ℕ, zero, suc, ◌+◌, ◌<◌, ◌≡◌, refl, sym, String, true, false, Option, none, some, List, ◌∷◌, arith,
  Bool-cases, inl, inr,
}
use mathlib.Core.Path.{subst}
use titanops.EbeeControl.Executor.Defs.{
  Call, alerting, ResponseExecutorDeps, Tried, succeeded, interrupted, exhausted, wait, retry,
}

-- The waits of a number of rounds: one before each but the first.
abbrev pub waits : ℕ → ℕ
waits zero = 0
waits (suc n) = n

module _ (deps : ResponseExecutorDeps) (attempt_at : List Call → Option String) (entry : Call)
    (trace : List Call) where
  -- What stands on the trace after `n` calls, each of which failed, and `m` alerts, after each of which the
  -- context went on.
  pub data Held : ℕ → ℕ → List Call → Type 0 where
    start : Held 0 0 trace
    failed :
        (n m : ℕ) (t : List Call) (err : String)
        → Held n m t
        → attempt_at t ≡ some err
        → Held (suc n) m (entry ∷ t)
    warned :
        (n m : ℕ) (t : List Call) (text : String)
        → Held n m t
        → deps.done (alerting text ∷ t) ≡ false
        → Held n (suc m) (alerting text ∷ t)

  -- How a loop of at most `n` calls ends.
  pub data Ends (n : ℕ) : Tried × List Call → Type 0 where
    worked :
        (k : ℕ) (t : List Call)
        → k < n
        → Held k k t
        → attempt_at t ≡ none
        → Ends n (succeeded k, entry ∷ t)
    stopped :
        (k : ℕ) (t : List Call) (text : String)
        → suc k < n
        → Held (suc k) k t
        → deps.done (alerting text ∷ t) ≡ true
        → Ends n (interrupted (suc k), alerting text ∷ t)
    gave_up :
        (last : Option String) (t : List Call) → Held n (waits n) t → Ends n (exhausted last, t)

  module _ (warning : ℕ → Option String → String) where
    abbrev run : ℕ → ℕ → Option String → List Call → Tried × List Call
    run = retry deps attempt_at entry warning

    -- The call of the round `k`, behind its wait.
    call :
        (n left k : ℕ) (last : Option String) (t t' : List Call)
        → k < n
        → Held k k t'
        → wait deps attempt_at entry warning k last t ≡ some t'
        → ((err : String)
            → Held (suc k) k (entry ∷ t')
            → Ends n (run left (suc k) (some err) (entry ∷ t')))
        → Ends n (run (suc left) k last t)
    unfolding retry
    call n left k last t t' lt h w next = go (attempt_at t') refl
      where
        go : (o : Option String) → attempt_at t' ≡ o → Ends n (run (suc left) k last t)
        go none ok =
            let same : run (suc left) k last t ≡ (succeeded k, entry ∷ t') =
              rw (w, retry) (rw (ok, retry) refl) in
            subst (Ends n) (sym same) (worked k t' lt h ok)
        go (some err) bad =
            let same : run (suc left) k last t ≡ run left (suc k) (some err) (entry ∷ t') =
              rw (w, retry) (rw (bad, retry) refl) in
            subst (Ends n) (sym same) (next err (failed k k t' err h bad))

    loop_from :
        (n left k : ℕ) (last : Option String) (t : List Call)
        → k + left ≡ n
        → Held k (waits k) t
        → Ends n (run left k last t)
    unfolding retry wait
    loop_from n zero k last t e h =
        let same : k ≡ n = omega arith in
        subst (λ j. Held j (waits j) t → Ends n (exhausted last, t)) (sym same) (gave_up last t) h
    loop_from n (suc left) zero last t e h =
        call n left zero last t t (omega arith) h refl
          (λ err h'. loop_from n left 1 (some err) (entry ∷ t) (omega arith) h')
    loop_from n (suc left) (suc k) last t e h =
        let text = warning (suc k) last in
        elim (Bool-cases (deps.done (alerting text ∷ t))) [
          | inl over ↦
              let none_left : wait deps attempt_at entry warning (suc k) last t ≡ none =
                rw over refl in
              let same : run (suc left) (suc k) last t ≡ (interrupted (suc k), alerting text ∷ t) =
                rw (none_left, retry) refl in
              subst (Ends n) (sym same) (stopped k t text (omega arith) h over)
          | inr lasts ↦
              call n left (suc k) last t (alerting text ∷ t) (omega arith)
                (warned (suc k) k t text h lasts) (rw lasts refl)
                (λ err h'. loop_from n left (suc (suc k)) (some err) _ (omega arith) h')
        ]

    pub loop : (n : ℕ) → Ends n (run n 0 none trace)
    loop n = loop_from n n 0 none trace (omega arith) start
