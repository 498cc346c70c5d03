-- ===== src/Kernel/Lifecycle.antt =====
-- The states of modules through `StartAll`.
use titanops.Common.{
  ℕ, ◌+◌, ◌≡◌, ◌≢◌, refl, ◌∙◌, sym, ap, String, Option, none, some, List, [], ◌∷◌, arith, length,
  All,
}
use titanops.Common.Dict.{lookup}
use titanops.Kernel.Types.{ModuleState, ModuleEntry, RuntimeKernel, Outcome, returned, panicked}
use titanops.Kernel.Modules.{with_state, put, after_start, start_module, with_error, start_all}
use titanops.Kernel.States.{state_in, state_of, state_of-put_self, state_of-put_ne}

running-failed : some ModuleState.running ≢ some ModuleState.failed
running-failed e = cc

-- How many of the ids have no running module.
unfoldable pub not_running : List String → RuntimeKernel → ℕ
not_running [] k = 0
not_running (id ∷ ids) k =
    let rest = not_running ids k in
    elim (state_of id k) [ some ModuleState.running ↦ rest | _ ↦ 1 + rest ]

abbrev pub IsNodup : List String → Type 0
IsNodup [] = Unit
IsNodup (id ∷ ids) = All (λ j. j ≢ id) ids × IsNodup ids

module _ (quote : String → String) (start : String → RuntimeKernel → RuntimeKernel × Outcome)
    (now : ℕ) where
  -- What became of a module and the error.
  pub data IsSettled (id : String) (k : RuntimeKernel)
      : RuntimeKernel × Option String → Type 0 where
    unknown : (text : String) → state_of id k ≡ none → IsSettled id k (k, some text)
    up :
        (k' : RuntimeKernel) → state_of id k' ≡ some ModuleState.running → IsSettled id k (k', none)
    down :
        (k' : RuntimeKernel) (text : String)
        → state_of id k' ≡ some ModuleState.failed
        → IsSettled id k (k', some text)

  after_start-IsSettled :
      (id : String) (k : RuntimeKernel) (entry : ModuleEntry) (r : RuntimeKernel × Outcome)
      → IsSettled id k (after_start quote start now id entry r)
  unfolding after_start
  after_start-IsSettled id k entry (k', returned none) = up _ (state_of-put_self id _ k')
  after_start-IsSettled id k entry (k', returned (some err)) = down _ _ (state_of-put_self id _ k')
  after_start-IsSettled id k entry (k', panicked r) = down _ _ (state_of-put_self id _ k')

  -- Whatever a module's `Start` does to the kernel, and whether it returns, fails or panics, `startModule`
  -- ends with the module running and no error, or failed and an error; or with an error and no change,
  -- when the module is not registered.
  pub start_module-IsSettled :
      (id : String) (k : RuntimeKernel) → IsSettled id k (start_module quote start now id k)
  unfolding start_module
  start_module-IsSettled id k = go (lookup id k.modules) refl
    where
      go :
          (o : Option ModuleEntry)
          → lookup id k.modules ≡ o
          → IsSettled id k (start_module quote start now id k)
      go none e = rw (e, start_module) (unknown _ (ap state_in e))
      go (some entry) e =
          rw (e, start_module)
            (after_start-IsSettled id k (with_state ModuleState.starting entry) _)

  -- `Start` does not itself start, stop or register modules.
  abbrev pub KeepsStates : Type 0
  KeepsStates = (i j : String) (k : RuntimeKernel) → state_of j (start i k).0 ≡ state_of j k

  after_start-other :
      (id j : String) (entry : ModuleEntry) (r : RuntimeKernel × Outcome)
      → id ≢ j
      → state_of j (after_start quote start now id entry r).0 ≡ state_of j r.0
  unfolding after_start
  after_start-other id j entry (k, returned none) ne = state_of-put_ne id j _ k ne
  after_start-other id j entry (k, returned (some err)) ne = state_of-put_ne id j _ k ne
  after_start-other id j entry (k, panicked r) ne = state_of-put_ne id j _ k ne

  start_module-other :
      KeepsStates
      → (id j : String) (k : RuntimeKernel) → id ≢ j
      → state_of j (start_module quote start now id k).0 ≡ state_of j k
  unfolding start_module
  start_module-other keeps id j k ne = go (lookup id k.modules) refl
    where
      go :
          (o : Option ModuleEntry)
          → lookup id k.modules ≡ o
          → state_of j (start_module quote start now id k).0 ≡ state_of j k
      go none e = rw (e, start_module) refl
      go (some entry) e =
          let entry' : ModuleEntry = with_state ModuleState.starting entry in
          rw (e, start_module)
            (after_start-other id j entry' (start id (put id entry' k)) ne
              ∙ keeps id j (put id entry' k)
              ∙ state_of-put_ne id j entry' k ne)

  start_all-other :
      KeepsStates
      → (j : String) (ids : List String) (k : RuntimeKernel) → All (λ i. i ≢ j) ids
      → state_of j (start_all quote start now ids k).0 ≡ state_of j k
  unfolding start_all
  start_all-other keeps j [] k h = refl
  start_all-other keeps j (id ∷ ids) k (ne, h) =
      start_all-other keeps j ids (start_module quote start now id k).0 h
      ∙ start_module-other keeps id j k ne

  not_running-down :
      (id : String) (ids : List String) (k : RuntimeKernel)
      → state_of id k ≢ some ModuleState.running
      → not_running (id ∷ ids) k ≡ 1 + not_running ids k
  unfolding not_running
  not_running-down id ids k h = go (state_of id k) refl
    where
      go :
          (o : Option ModuleState)
          → state_of id k ≡ o
          → not_running (id ∷ ids) k ≡ 1 + not_running ids k
      go none e = rw (e, not_running) refl
      go (some ModuleState.running) e = absurd (h e)
      go (some ModuleState.registered) e = rw (e, not_running) refl
      go (some ModuleState.starting) e = rw (e, not_running) refl
      go (some ModuleState.stopping) e = rw (e, not_running) refl
      go (some ModuleState.stopped) e = rw (e, not_running) refl
      go (some ModuleState.failed) e = rw (e, not_running) refl

  not_running-up :
      (id : String) (ids : List String) (k : RuntimeKernel)
      → state_of id k ≡ some ModuleState.running
      → not_running (id ∷ ids) k ≡ not_running ids k
  unfolding not_running
  not_running-up id ids k e = rw (e, not_running) refl

  count :
      (id : String) (ids : List String) (k : RuntimeKernel) (r : RuntimeKernel × Option String)
      → IsSettled id k r
      → (end : RuntimeKernel) (errs : List String) → length errs ≡ not_running ids end
      → state_of id end ≡ state_of id r.0
      → length (with_error quote start now r.1 errs) ≡ not_running (id ∷ ids) end
  unfolding with_error
  count id ids k (k', some text) (unknown _ e) end errs h same =
      omega (arith, h, not_running-down id ids end (λ g. cc))
  count id ids k (k', none) (up _ e) end errs h same =
      h ∙ sym (not_running-up id ids end (same ∙ e))
  count id ids k (k', some text) (down _ _ e) end errs h same =
      omega (arith, h, not_running-down id ids end (λ g. running-failed (sym g ∙ same ∙ e)))

  -- `StartAll` isolates faults: over ids that are not repeated it gives exactly one error for each module
  -- that is not running afterwards, whatever the other modules did, if no `Start` starts, stops or
  -- registers modules itself.
  pub start_all-errors :
      KeepsStates
      → (ids : List String) (k : RuntimeKernel) → IsNodup ids
      → let (k', errs) = start_all quote start now ids k in length errs ≡ not_running ids k'
  unfolding start_all not_running with_error
  start_all-errors keeps [] k d = refl
  start_all-errors keeps (id ∷ ids) k (ne, d) =
      count id ids k (start_module quote start now id k) (start_module-IsSettled id k)
        (start_all quote start now ids (start_module quote start now id k).0).0
        (start_all quote start now ids (start_module quote start now id k).0).1
        (start_all-errors keeps ids (start_module quote start now id k).0 d)
        (start_all-other keeps id ids (start_module quote start now id k).0 ne)
