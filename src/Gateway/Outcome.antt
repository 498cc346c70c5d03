-- ===== src/Gateway/Outcome.antt =====
-- What `ApproveAction` and `RejectAction` do to the actions.
use titanops.Common.{
  ℕ, ◌≡◌, ◌≢◌, refl, ◌∙◌, sym, ap, String, Option, none, some, List, [], ◌∷◌, arith, Bool-cases,
  inl, inr, str_eq, eq_iff, if◌then◌else◌,
}
use mathlib.Core.Path.{subst}
use titanops.Gateway.Types.{AutonomousAction}
use titanops.Gateway.Stores.{get, update_outcome}
use titanops.Gateway.Overrides.{
  OverrideStore, decided, decide, approve_action, reject_action, not_found,
}

module _ {F : Type 0} where
  -- An action on which an operator has decided.
  abbrev pub settled : String → String → AutonomousAction F → AutonomousAction F
  settled outcome op a = record {
    id = a.id;
    module_name = a.module_name;
    action_type = a.action_type;
    confidence = a.confidence;
    reasoning = a.reasoning;
    outcome = outcome;
    timestamp = a.timestamp;
    override_by = op;
  }

  -- An answer of `Get`, after a decision on the action `k`.
  abbrev pub answer_after :
      String → String → String → String → Option (AutonomousAction F) → Option (AutonomousAction F)
  answer_after k j outcome op none = none
  answer_after k j outcome op (some a) = some (if str_eq k j then settled outcome op a else a)

  get-update_outcome :
      (k j outcome op : String) (actions : List (AutonomousAction F))
      → get j (update_outcome k outcome op actions) ≡ answer_after k j outcome op (get j actions)
  unfolding get update_outcome
  get-update_outcome k j outcome op [] = refl
  get-update_outcome k j outcome op (a ∷ actions) =
      let rest = get-update_outcome k j outcome op actions in
      ground (arith, eq_iff k j, eq_iff a.id k, eq_iff a.id j, rest)

module _ {F : Type 0} (zero_f : F) (quote : String → String) where
  some-none : (x : AutonomousAction F) → some x ≢ none
  some-none x e = cc

  decide_lem :
      (a operation b : String) (now : ℕ) (k op : String) (s : OverrideStore F) (j : String)
      → get j (decide zero_f quote a operation b now k op s).0.actions
        ≡ answer_after k j a op (get j s.actions)
  unfolding decide decided
  decide_lem a operation b now k op s j = go (get k s.actions) refl
    where
      P : OverrideStore F × Option String → Type 0
      P r = get j r.0.actions ≡ answer_after k j a op (get j s.actions)

      go :
          (o : Option (AutonomousAction F))
          → get k s.actions ≡ o
          → P (decide zero_f quote a operation b now k op s)
      go none missing =
          let same : decide zero_f quote a operation b now k op s
              ≡ (s, some (not_found zero_f quote k)) =
            rw (missing, decide) refl in
          subst P (sym same) (unanswered (get j s.actions) refl)
        where
          unanswered :
              (o : Option (AutonomousAction F)) → get j s.actions ≡ o → o ≡ answer_after k j a op o
          unanswered none e = refl
          unanswered (some x) e = elim (Bool-cases (str_eq k j)) [
            | inl here ↦ absurd (
                some-none x
                  (sym e ∙ ap (λ i. get i s.actions) (sym ((eq_iff k j).0 here)) ∙ missing))
            | inr there ↦ rw there refl
          ]
      go (some action) found =
          let same : decide zero_f quote a operation b now k op s
              ≡ (decided zero_f quote a operation b now k op s action, none) =
            rw (found, decide) refl in
          subst P (sym same) (get-update_outcome k j a op s.actions)

  -- After `ApproveAction` or `RejectAction` on an id, `Get` returns for that id the action it returned
  -- before, with the outcome "success" or "rejected" and the operator written into it and nothing else
  -- changed; for any other id, and when there is no such action, it returns what it returned before.
  pub decided_actions :
      (now : ℕ) (k op : String) (s : OverrideStore F) (j : String)
      → (get j (approve_action zero_f quote now k op s).0.actions
          ≡ answer_after k j "success" op (get j s.actions))
        × (get j (reject_action zero_f quote now k op s).0.actions
            ≡ answer_after k j "rejected" op (get j s.actions))
  unfolding approve_action reject_action
  decided_actions now k op s j = (
    decide_lem "success" "approve" "approved" now k op s j,
    decide_lem "rejected" "reject" "rejected" now k op s j,
  )
