-- ===== src/Gateway/Pausing.antt =====
-- Which modules are paused after a history of pauses and resumes.
use titanops.Common.{
  ℕ, ◌≡◌, refl, ◌∙◌, ap, String, Bool, false, ◌||◌, List, [], ◌∷◌, arith, str_eq, eq_iff,
  if◌then◌else◌,
}
use titanops.Common.Dict.{erase, has, has-insert}
use titanops.Gateway.Overrides.{OverrideStore, pause_module, resume_module, is_module_paused}

pub has-erase :
    {V : Type 0} (k j : String) (m : List (String × V))
    → has j (erase k m) ≡ (if str_eq k j then false else has j m)
unfolding erase
has-erase k j [] = ground arith
has-erase k j ((i, w) ∷ m) = ground (arith, eq_iff k j, eq_iff i k, eq_iff i j, has-erase k j m)

-- A call of `PauseModule` or `ResumeModule`: its time, module and operator.
pub data Turn : Type 0 where
  pause : ℕ → String → String → Turn
  resume : ℕ → String → String → Turn

-- What the last call about the module says, if there is one.
unfoldable pub last_word : String → List Turn → Bool → Bool
last_word m [] before = before
last_word m (pause _ k _ ∷ turns) before = last_word m turns (str_eq k m || before)
last_word m (resume _ k _ ∷ turns) before = last_word m turns (if str_eq k m then false else before)

module _ {F : Type 0} (zero_f : F) (quote : String → String) where
  -- A history of calls, oldest first.
  unfoldable pub take_turns : List Turn → OverrideStore F → OverrideStore F
  take_turns [] s = s
  take_turns (pause now m op ∷ turns) s = take_turns turns (pause_module zero_f quote now m op s).0
  take_turns (resume now m op ∷ turns) s =
      take_turns turns (resume_module zero_f quote now m op s).0

  -- A module is paused after a history of pauses and resumes just if the last call that names it is a
  -- pause, or none names it and it was paused before: calls about other modules do not matter, and one
  -- resume undoes any number of pauses.
  pub take_turns-last_word :
      (m : String) (turns : List Turn) (s : OverrideStore F)
      → is_module_paused m (take_turns turns s) ≡ last_word m turns (is_module_paused m s)
  unfolding take_turns last_word is_module_paused pause_module resume_module
  take_turns-last_word m [] s = refl
  take_turns-last_word m (pause now k op ∷ turns) s =
      take_turns-last_word m turns (pause_module zero_f quote now k op s).0
      ∙ ap (last_word m turns) (has-insert k m op s.paused_modules)
  take_turns-last_word m (resume now k op ∷ turns) s =
      take_turns-last_word m turns (resume_module zero_f quote now k op s).0
      ∙ ap (last_word m turns) (has-erase k m s.paused_modules)
