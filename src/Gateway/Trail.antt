-- ===== src/Gateway/Trail.antt =====
-- What POST /api/overrides writes into the audit trail.
use titanops.Common.{
  ℕ, ◌≡◌, refl, sym, String, Bool, true, false, Option, none, some, [], ◌∷◌, ◌++◌, Bool-cases, inl,
  inr, str_eq, eq_iff, if◌then◌else◌,
}
use mathlib.Core.Path.{subst}
use titanops.Gateway.Types.{AuditEntry, AutonomousAction, OverrideRequest}
use titanops.Gateway.Stores.{get, record_override, override_entry}
use titanops.Gateway.Overrides.{
  OverrideStore, not_found, Response, failed, ok, decided, decide, answer, approve_action,
  reject_action, pause_module, resume_module, perform, handle_overrides,
}

module _ {F : Type 0} (zero_f : F) (quote : String → String) where
  -- An answer and the store behind it: an operation that is answered with 200 leaves one entry, which
  -- names the operator, the operation and the time; any other answer leaves the store as it was.
  pub data IsAudited (now : ℕ) (req : OverrideRequest) (s : OverrideStore F)
      : OverrideStore F × Response → Type 0 where
    refused : (status : ℕ) (text : String) → IsAudited now req s (s, failed status text)
    performed :
        (s' : OverrideStore F) (entry : AuditEntry F)
        → s'.audit ≡ s.audit ++ entry ∷ []
        → entry.operator_id ≡ req.operator_id
        → entry.action_type ≡ req.operation
        → entry.timestamp ≡ now
        → IsAudited now req s (s', ok req.operation)

  decide-IsAudited :
      (now : ℕ) (req : OverrideRequest) (s : OverrideStore F) (a operation b : String)
      → operation ≡ req.operation
      → IsAudited now req s (
          answer zero_f quote req.operation
            (decide zero_f quote a operation b now req.action_id req.operator_id s))
  unfolding decided decide answer record_override override_entry
  decide-IsAudited now req s a operation b e = go (get req.action_id s.actions) refl
    where
      d : OverrideStore F × Option String
      d = decide zero_f quote a operation b now req.action_id req.operator_id s

      go :
          (o : Option (AutonomousAction F))
          → get req.action_id s.actions ≡ o
          → IsAudited now req s (answer zero_f quote req.operation d)
      go none missing =
          let same : d ≡ (s, some (not_found zero_f quote req.action_id)) =
            rw (missing, decide) refl in
          subst (λ x. IsAudited now req s (answer zero_f quote req.operation x)) (sym same)
            (refused 404 _)
      go (some action) found =
          let same : d ≡ (
            decided zero_f quote a operation b now req.action_id req.operator_id s action,
            none,
          ) =
            rw (found, decide) refl in
          subst (λ x. IsAudited now req s (answer zero_f quote req.operation x)) (sym same)
            (performed _ _ refl refl e refl)

  -- A test for a missing field, then the operation.
  required :
      (now : ℕ) (req : OverrideRequest) (s : OverrideStore F) (b : Bool) (text : String)
      (r : OverrideStore F × Response)
      → IsAudited now req s r
      → IsAudited now req s (if b then (s, failed 400 text) else r)
  required now req s true text r h = refused 400 text
  required now req s false text r h = h

  chosen :
      (now : ℕ) (req : OverrideRequest) (s : OverrideStore F) (word : String)
      (r r' : OverrideStore F × Response)
      → (word ≡ req.operation → IsAudited now req s r)
      → IsAudited now req s r'
      → IsAudited now req s (if str_eq req.operation word then r else r')
  chosen now req s word r r' h h' = elim (Bool-cases (str_eq req.operation word)) [
    | inl same ↦ rw same (h (sym ((eq_iff req.operation word).0 same)))
    | inr other ↦ rw other h'
  ]

  pause_module-IsAudited :
      (now : ℕ) (req : OverrideRequest) (s : OverrideStore F)
      → "pause" ≡ req.operation
      → IsAudited now req s (
          answer zero_f quote req.operation
            (pause_module zero_f quote now req.module_id req.operator_id s))
  unfolding pause_module answer record_override override_entry
  pause_module-IsAudited now req s e = performed _ _ refl refl e refl

  resume_module-IsAudited :
      (now : ℕ) (req : OverrideRequest) (s : OverrideStore F)
      → "resume" ≡ req.operation
      → IsAudited now req s (
          answer zero_f quote req.operation
            (resume_module zero_f quote now req.module_id req.operator_id s))
  unfolding resume_module answer record_override override_entry
  resume_module-IsAudited now req s e = performed _ _ refl refl e refl

  perform-IsAudited :
      (now : ℕ) (req : OverrideRequest) (s : OverrideStore F)
      → IsAudited now req s (perform zero_f quote now req s)
  unfolding perform approve_action reject_action
  perform-IsAudited now req s =
      chosen now req s "approve" _ _
        (λ e. required now req s _ _ _ (decide-IsAudited now req s _ _ _ e))
        (chosen now req s "reject" _ _
          (λ e. required now req s _ _ _ (decide-IsAudited now req s _ _ _ e))
          (chosen now req s "pause" _ _
            (λ e. required now req s _ _ _ (pause_module-IsAudited now req s e))
            (chosen now req s "resume" _ _
              (λ e. required now req s _ _ _ (resume_module-IsAudited now req s e))
              (refused 400 _))))

  -- Whatever the method, POST /api/overrides either answers with an error and leaves the
  -- pauses, the actions and the trail as they were, or answers with 200 and appends exactly one entry,
  -- stamped with the time, that names the operation and the operator of the request that the body
  -- decodes to.
  pub handle_overrides-IsAudited :
      (now : ℕ) (method : String) (req : OverrideRequest) (s : OverrideStore F)
      → IsAudited now req s (handle_overrides zero_f quote now method (some req) s)
  unfolding handle_overrides
  handle_overrides-IsAudited now method req s = elim (Bool-cases (str_eq method "POST")) [
    | inl post ↦ rw post (required now req s _ _ _ (perform-IsAudited now req s))
    | inr other ↦ rw other (refused 405 _)
  ]
