-- ===== src/OllinAi/Verifier/Schema.antt =====
-- The event of a verdict against the schema of the exporter.
use titanops.Common.{
  ℕ, ◌≡◌, ◌≢◌, refl, sym, ap, ◌∙◌, String, true, false, some, List, [], ◌∷◌, ◌++◌, arith,
}
use titanops.Export.Event.{Event}
use titanops.Export.Validate.{valid_modules, one_of, validate_event}
use titanops.Export.Validate.Schema.{validate_event_iff}
use titanops.OllinAi.Verdict.{Verdict}
use titanops.OllinAi.Emitter.{completed}
use titanops.OllinAi.Verifier.Defs.{VerifierDeps, emit_verdict}

completed-module_name :
    (id : String) (now : ℕ) (event : Event)
    → (completed id now event).module_name ≡ event.module_name
unfolding completed
completed-module_name id now event = ground arith

rejected : (event : Event) → event.module_name ≡ "ollinai" → validate_event event ≢ []
rejected event e valid =
    let known = ((validate_event_iff event).0 valid).known in
    true_ne_false (sym known ∙ ap (λ name. one_of name valid_modules) e)
  where
    true_ne_false : true ≢ false
    true_ne_false h = cc

-- The event of every verdict that can be serialized, with what the emitter fills in, fails the check of
-- the event schema.
pub emit_verdict-validate_event :
    {F : Type 0} (deps : VerifierDeps F) (verdict : Verdict F) (emitted : List Event) (id : String)
    (now : ℕ) (bytes : List ℕ)
    → deps.serialize verdict ≡ some bytes
    → (event : Event) × (emit_verdict deps verdict emitted ≡ emitted ++ event ∷ [])
      × (validate_event (completed id now event) ≢ [])
unfolding emit_verdict
emit_verdict-validate_event deps verdict emitted id now bytes e =
    rw (e, emit_verdict) (_, refl, rejected _ (completed-module_name id now _))
