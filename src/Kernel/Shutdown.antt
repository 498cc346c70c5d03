-- ===== src/Kernel/Shutdown.antt =====
-- The states of modules through `StopAll`.
use titanops.Common.{
  ◌≡◌, ◌≢◌, refl, ◌∙◌, sym, ap, String, Bool, true, false, Option, none, some, List, [], ◌∷◌, arith,
  str_eq, eq_iff, if◌then◌else◌, inl, inr, Bool-cases,
}
use mathlib.Core.List.{Memᴰ}
use titanops.Common.Dict.{lookup}
use titanops.Kernel.Types.{ModuleState, ModuleEntry, RuntimeKernel, Outcome}
use titanops.Kernel.Modules.{
  with_state, put, is_running, running_ids, stop_module, stop_modules, stop_all,
}
use titanops.Kernel.States.{state_in, state_of, state_of-put_self, state_of-put_ne}

-- The state of a module that `StopAll` has passed.
unfoldable pub after_stop : Option ModuleState → Option ModuleState
after_stop (some ModuleState.running) = some ModuleState.stopped
after_stop o = o

abbrev halted : Option ModuleState → Option ModuleState
halted none = none
halted (some _) = some ModuleState.stopped

abbrev among : String → List String → Bool
among j [] = false
among j (id ∷ ids) = if str_eq id j then true else among j ids

clash : {b : Bool} → b ≡ true → b ≡ false → ⊥
clash h g = cc

unfoldable runs : Option ModuleState → Bool
runs none = false
runs (some st) = is_running st

running_ids-cons :
    (id : String) (order : List String) (k : RuntimeKernel)
    → running_ids (id ∷ order) k
      ≡ (if runs (state_of id k) then id ∷ running_ids order k else running_ids order k)
unfolding running_ids runs is_running
running_ids-cons id order k = go (lookup id k.modules) refl
  where
    go :
        (o : Option ModuleEntry)
        → lookup id k.modules ≡ o
        → running_ids (id ∷ order) k
          ≡ (if runs (state_of id k) then id ∷ running_ids order k else running_ids order k)
    go none e = rw (e, running_ids) refl
    go (some entry) e = rw (e, running_ids) refl

among-running_ids :
    (j : String) (order : List String) (k : RuntimeKernel)
    → among j (running_ids order k) ≡ (if among j order then runs (state_of j k) else false)
unfolding running_ids
among-running_ids j [] k = refl
among-running_ids j (id ∷ order) k =
    let rest = among-running_ids j order k in
    let cons = running_ids-cons id order k in
    elim (Bool-cases (str_eq id j)) [
      | inl same ↦
          let e : id ≡ j = (eq_iff id j).0 same in
          let states : runs (state_of id k) ≡ runs (state_of j k) =
            ap (λ i. runs (state_of i k)) e in
          ap (among j) cons ∙ ground (arith, rest, states, same)
      | inr other ↦ ap (among j) cons ∙ ground (arith, rest, other)
    ]

Memᴰ-among : (j : String) (order : List String) → Memᴰ j order → among j order ≡ true
Memᴰ-among j [] m = elim m [ ]
Memᴰ-among j (id ∷ order) (Memᴰ.head e) = ground (arith, (eq_iff id j).1 (sym e))
Memᴰ-among j (id ∷ order) (Memᴰ.tail m) = ground (arith, Memᴰ-among j order m)

after_stop_lem : (o : Option ModuleState) → (if runs o then halted o else o) ≡ after_stop o
unfolding after_stop runs is_running
after_stop_lem none = refl
after_stop_lem (some ModuleState.running) = refl
after_stop_lem (some ModuleState.registered) = refl
after_stop_lem (some ModuleState.starting) = refl
after_stop_lem (some ModuleState.stopping) = refl
after_stop_lem (some ModuleState.stopped) = refl
after_stop_lem (some ModuleState.failed) = refl

module _ (stop : String → RuntimeKernel → RuntimeKernel × Outcome) where
  -- `Stop` does not itself start, stop or register modules.
  abbrev pub StopKeepsStates : Type 0
  StopKeepsStates = (i j : String) (k : RuntimeKernel) → state_of j (stop i k).0 ≡ state_of j k

  stop_module_self :
      (id : String) (k : RuntimeKernel)
      → state_of id (stop_module stop id k) ≡ halted (state_of id k)
  unfolding stop_module
  stop_module_self id k = go (lookup id k.modules) refl
    where
      go :
          (o : Option ModuleEntry)
          → lookup id k.modules ≡ o
          → state_of id (stop_module stop id k) ≡ halted (state_of id k)
      go none e = rw (e, stop_module) (ap state_in e)
      go (some entry) e =
          rw (e, stop_module)
            (state_of-put_self id (with_state ModuleState.stopped entry)
              (stop id (put id (with_state ModuleState.stopping entry) k)).0)

  stop_module-other :
      StopKeepsStates
      → (id j : String) (k : RuntimeKernel) → id ≢ j
      → state_of j (stop_module stop id k) ≡ state_of j k
  unfolding stop_module
  stop_module-other keeps id j k ne = go (lookup id k.modules) refl
    where
      go :
          (o : Option ModuleEntry)
          → lookup id k.modules ≡ o
          → state_of j (stop_module stop id k) ≡ state_of j k
      go none e = rw (e, stop_module) refl
      go (some entry) e =
          let entry' : ModuleEntry = with_state ModuleState.stopping entry in
          rw (e, stop_module)
            (state_of-put_ne id j (with_state ModuleState.stopped entry)
                (stop id (put id entry' k)).0 ne
              ∙ keeps id j (put id entry' k)
              ∙ state_of-put_ne id j entry' k ne)

  halted-halted :
      (o : Option ModuleState) (b : Bool) → (if b then halted (halted o) else halted o) ≡ halted o
  halted-halted none true = refl
  halted-halted none false = refl
  halted-halted (some x) true = refl
  halted-halted (some x) false = refl

  stop_modules-state :
      StopKeepsStates
      → (ids : List String) (j : String) (k : RuntimeKernel)
      → state_of j (stop_modules stop ids k)
        ≡ (if among j ids then halted (state_of j k) else state_of j k)
  unfolding stop_modules
  stop_modules-state keeps [] j k = refl
  stop_modules-state keeps (id ∷ ids) j k =
      let rest = stop_modules-state keeps ids j (stop_module stop id k) in
      elim (Bool-cases (str_eq id j)) [
        | inl same ↦
            let e : id ≡ j = (eq_iff id j).0 same in
            let here : state_of j (stop_module stop id k) ≡ halted (state_of j k) =
              ap (λ i. state_of j (stop_module stop i k)) e ∙ stop_module_self j k in
            rw same (
              rest
              ∙ ap (λ o. if among j ids then halted o else o) here
              ∙ halted-halted (state_of j k) (among j ids))
        | inr other ↦
            let same = stop_module-other keeps id j k (λ e. clash ((eq_iff id j).1 e) other) in
            rw other (rest ∙ ap (λ o. if among j ids then halted o else o) same)
      ]

  -- After `StopAll` a module that was running is stopped, even if its `Stop` failed or panicked, and any
  -- other module has the state that it had, if no `Stop` starts, stops or registers modules itself; `order`
  -- are the keys of the map in the order in which it is walked.
  pub stop_all-after_stop :
      StopKeepsStates
      → (order : List String) (j : String) (k : RuntimeKernel) → Memᴰ j order
      → state_of j (stop_all stop order k) ≡ after_stop (state_of j k)
  unfolding stop_all
  stop_all-after_stop keeps order j k m =
      let chosen : among j (running_ids order k) ≡ runs (state_of j k) =
        among-running_ids j order k
        ∙ ap (λ b. if b then runs (state_of j k) else false) (Memᴰ-among j order m) in
      stop_modules-state keeps (running_ids order k) j k
      ∙ ap (λ b. if b then halted (state_of j k) else state_of j k) chosen
      ∙ after_stop_lem (state_of j k)
