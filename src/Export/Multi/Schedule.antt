-- ===== src/Export/Multi/Schedule.antt =====
-- The results of `Export` do not depend on the order in which its goroutines finish.
use titanops.Common.{
  ℕ, ◌<◌, ◌≡◌, refl, ◌∙◌, sym, some, List, [], ◌∷◌, map, length, get_elem?, length-set,
  length-replicate, length-map, get_elem?-set_self, get_elem?-set_ne, get_elem?-ext, get_elem?-map,
  get_elem?-some, arith, Option-cases, inl, inr,
}
use mathlib.Core.List.{Memᴰ}
use native.Mathlib.Decide.{ℕ_discrete}
use titanops.Export.Event.{Event}
use titanops.Export.Multi.Defs.{
  Backend, ExportResult, MultiExporter, enabled_backends, send_to_backend, zero_result, finish,
  finish_all, export,
}

module _ (ev : Event) (backends : List Backend) where
  length-finish :
      (i : ℕ) (results : List ExportResult) → length (finish ev backends i results) ≡ length results
  unfolding finish
  length-finish i results = elim (Option-cases (get_elem? backends i)) [
    | inl e ↦ rw (e, finish)
    | inr (b, e) ↦ rw (e, finish) (length-set results i (send_to_backend ev b))
  ]

  length-finish_all :
      (schedule : List ℕ) (results : List ExportResult)
      → length (finish_all ev backends schedule results) ≡ length results
  unfolding finish_all
  length-finish_all [] results = refl
  length-finish_all (i ∷ schedule) results =
      length-finish_all schedule (finish ev backends i results) ∙ length-finish i results

  finish_writes :
      (i : ℕ) (b : Backend) (results : List ExportResult)
      → get_elem? backends i ≡ some b
      → i < length results
      → get_elem? (finish ev backends i results) i ≡ some (send_to_backend ev b)
  unfolding finish
  finish_writes i b results e h = rw (e, finish) (get_elem?-set_self results i _ h)

  -- A slot that holds its backend's result keeps it.
  finish_keeps :
      (i j : ℕ) (b : Backend) (results : List ExportResult)
      → get_elem? backends j ≡ some b
      → j < length results
      → get_elem? results j ≡ some (send_to_backend ev b)
      → get_elem? (finish ev backends i results) j ≡ some (send_to_backend ev b)
  unfolding finish
  finish_keeps i j b results e h kept = elim (ℕ_discrete i j) [
    | yes same ↦ rw same (finish_writes j b results e h)
    | no other ↦ elim (Option-cases (get_elem? backends i)) [
      | inl f ↦ rw (f, finish) kept
      | inr (c, f) ↦ rw (f, finish) (get_elem?-set_ne results i j _ other ∙ kept)
    ]
  ]

  finish_all_keeps :
      (schedule : List ℕ) (j : ℕ) (b : Backend) (results : List ExportResult)
      → get_elem? backends j ≡ some b
      → j < length results
      → get_elem? results j ≡ some (send_to_backend ev b)
      → get_elem? (finish_all ev backends schedule results) j ≡ some (send_to_backend ev b)
  unfolding finish_all
  finish_all_keeps [] j b results e h kept = kept
  finish_all_keeps (i ∷ schedule) j b results e h kept =
      finish_all_keeps schedule j b (finish ev backends i results) e
        (omega (arith, length-finish i results)) (finish_keeps i j b results e h kept)

  finish_all_writes :
      (schedule : List ℕ) (j : ℕ) (b : Backend) (results : List ExportResult)
      → get_elem? backends j ≡ some b
      → j < length results
      → Memᴰ j schedule
      → get_elem? (finish_all ev backends schedule results) j ≡ some (send_to_backend ev b)
  unfolding finish_all
  finish_all_writes [] j b results e h m = elim m [ ]
  finish_all_writes (i ∷ schedule) j b results e h (Memᴰ.head same) =
      finish_all_keeps schedule j b (finish ev backends i results) e
        (omega (arith, length-finish i results)) (rw (← same) (finish_writes j b results e h))
  finish_all_writes (i ∷ schedule) j b results e h (Memᴰ.tail m) =
      finish_all_writes schedule j b (finish ev backends i results) e
        (omega (arith, length-finish i results)) m

-- When every goroutine has finished, in whatever order, the results are those of the enabled
-- backends, each from its own backend alone and in the backends' order: a failure or a panic of one
-- changes no other's result.
pub export_schedule :
    (m : MultiExporter) (ev : Event) (schedule : List ℕ)
    → ((i : ℕ) → i < length (enabled_backends m) → Memᴰ i schedule)
    → export m ev schedule ≡ map (send_to_backend ev) (enabled_backends m)
unfolding export
export_schedule m ev schedule all =
    let bs = enabled_backends m in
    let blank = length-replicate (length bs) zero_result in
    get_elem?-ext _ _
      (length-finish_all ev bs schedule _ ∙ blank ∙ sym (length-map (send_to_backend ev) bs))
      (λ i h.
        let l : i < length bs = omega (arith, length-map (send_to_backend ev) bs) in
        let (b, e) = get_elem?-some bs i l in
        finish_all_writes ev bs schedule i b _ e (omega (arith, blank)) (all i l)
        ∙ sym (get_elem?-map (send_to_backend ev) bs i e))
