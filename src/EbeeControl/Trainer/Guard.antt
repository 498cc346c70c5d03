-- ===== src/EbeeControl/Trainer/Guard.antt =====
-- What the publish guard and the minimum of records keep over a trainer's life.
use titanops.Common.{
  ℕ, suc, ◌+◌, ◌*◌, ◌≤◌, ◌≡◌, ◌⊎◌, ap, ◌∙◌, false, Option, some, List, [], ◌∷◌, ◌++◌, length,
  length-append, arith, inl, inr,
}
use titanops.Common.Int.{pos, ltb_ℤ}
use titanops.Common.Float.{Floats, IsOrdered}
use titanops.Common.Text.{Strings}
use titanops.EbeeControl.Types.{OutcomeData}
use titanops.EbeeControl.Trainer.Defs.{
  Print, TrainerConfig, ModelVersion, TrainingLogEvent, ingestion, retraining_started,
  retraining_success, retraining_failed, model_published, model_rejected, TrainingLogEntry, Trainer,
  new_trainer, ingest_outcome_data, publish_or_reject, trigger_retraining,
}

pub data Operation : Type 0 where
  ingest : ℕ → OutcomeData → Operation
  retrain : ℕ → ℕ → Operation

-- The publications among the entries of a log.
unfoldable pub is_publication : TrainingLogEvent → ℕ
is_publication ingestion = 0
is_publication retraining_started = 0
is_publication retraining_success = 0
is_publication retraining_failed = 0
is_publication model_published = 1
is_publication model_rejected = 0

unfoldable pub publications : List TrainingLogEntry → ℕ
publications [] = 0
publications (entry ∷ logs) = is_publication entry.event + publications logs

ltb-false : (a b : ℕ) → ltb_ℤ (pos a) (pos b) ≡ false → b ≤ a
ltb-false a b h = ground arith

publications-logged :
    (logs : List TrainingLogEntry) (entry : TrainingLogEntry)
    → publications (logs ++ entry ∷ []) ≡ publications logs + is_publication entry.event
unfolding publications
publications-logged [] entry = omega arith
publications-logged (first ∷ logs) entry = omega (arith, publications-logged logs entry)

module _ {F : Type 0} (fl : Floats F) (print : Print F) (strings : Strings) where
  unfoldable pub apply : Operation → Trainer F → Trainer F
  apply (ingest now outcome) t = (ingest_outcome_data fl print strings now outcome t).1
  apply (retrain now draw) t = (trigger_retraining fl print now draw t).1

  -- The trainer behind some operations, the newest first.
  unfoldable pub after : List Operation → Trainer F → Trainer F
  after [] t = t
  after (op ∷ earlier) t = apply op (after earlier t)

  module _ (o : IsOrdered fl) where
    trigger_mono :
        (now draw : ℕ) (t : Trainer F)
        → fl.lt
            (trigger_retraining fl print now draw t).1.current_model.validation_accuracy
            t.current_model.validation_accuracy
          ≡ false
    unfolding trigger_retraining publish_or_reject
    trigger_mono now draw t =
        let here = t.current_model.validation_accuracy in
        ground (arith, o.irreflexive here, o.le_lem here (fl.literal (draw + 70) 1))

    ingest_keeps :
        (now : ℕ) (outcome : OutcomeData) (t : Trainer F)
        → (ingest_outcome_data fl print strings now outcome t).1.current_model ≡ t.current_model
    unfolding ingest_outcome_data
    ingest_keeps now outcome t = ground arith

    at_most : (a b c : F) → fl.lt b a ≡ false → fl.lt c b ≡ false → fl.lt c a ≡ false
    at_most a b c h g = ground (arith, o.lt_right a c b)

    -- Whatever outcomes are ingested and retrainings triggered, and whatever accuracies these draw, the
    -- accuracy of the current model is never below that of an earlier current model.
    pub accuracy_mono :
        (ops : List Operation) (t : Trainer F)
        → fl.lt (after ops t).current_model.validation_accuracy t.current_model.validation_accuracy
          ≡ false
    unfolding after apply
    accuracy_mono [] t = o.irreflexive _
    accuracy_mono (ingest now outcome ∷ earlier) t =
        rw (ingest_keeps now outcome (after earlier t)) (accuracy_mono earlier t)
    accuracy_mono (retrain now draw ∷ earlier) t =
        at_most _ _ _ (accuracy_mono earlier t) (trigger_mono now draw (after earlier t))

  ingest_effect :
      (now : ℕ) (outcome : OutcomeData) (t : Trainer F)
      → let t' = (ingest_outcome_data fl print strings now outcome t).1 in
        (t'.config ≡ t.config)
        × (publications t'.logs ≡ publications t.logs)
        × (t'.dataset_since_last_training + length t.outcome_dataset
            ≡ t.dataset_since_last_training + length t'.outcome_dataset)
  unfolding ingest_outcome_data is_publication
  ingest_effect now outcome t = grind (arith, publications-logged, length-append)

  trigger_effect :
      (now draw : ℕ) (t : Trainer F)
      → let t' = (trigger_retraining fl print now draw t).1 in
        (t'.config ≡ t.config)
        × (t'.outcome_dataset ≡ t.outcome_dataset)
        × (((publications t'.logs ≡ publications t.logs)
              × (t'.dataset_since_last_training ≡ t.dataset_since_last_training))
            ⊎ ((publications t'.logs ≡ publications t.logs + 1)
                × (t'.dataset_since_last_training ≡ 0)
                × (ltb_ℤ (pos t.dataset_since_last_training) t.config.minimum_outcome_records
                    ≡ false)))
  unfolding trigger_retraining publish_or_reject is_publication
  trigger_effect now draw t = grind (arith, publications-logged)

  -- The records of the dataset pay for the publications.
  record IsPaid (n : ℕ) (t : Trainer F) : Type 0 where
    minimum : t.config.minimum_outcome_records ≡ pos n
    paid : publications t.logs * n + t.dataset_since_last_training ≤ length t.outcome_dataset

  apply-IsPaid : (n : ℕ) (op : Operation) (t : Trainer F) → IsPaid n t → IsPaid n (apply op t)
  unfolding apply
  apply-IsPaid n (ingest now outcome) t p =
      let (config, published, counted) = ingest_effect now outcome t in
      record {
        minimum = ap (λ (c : TrainerConfig). c.minimum_outcome_records) config ∙ p.minimum;
        paid = rw published (omega (arith, p.paid));
      }
  apply-IsPaid n (retrain now draw) t p =
      let (config, dataset, cases) = trigger_effect now draw t in
      record {
        minimum = ap (λ (c : TrainerConfig). c.minimum_outcome_records) config ∙ p.minimum;
        paid = elim cases [
          | inl (published, since) ↦ rw (published, since, dataset) p.paid
          | inr (published, since, enough) ↦
              let full : ltb_ℤ (pos t.dataset_since_last_training) (pos n) ≡ false =
                rw p.minimum at enough in
              rw (published, since, dataset) (omega (arith, ltb-false _ _ full, p.paid))
        ];
      }

  after-IsPaid :
      (n : ℕ) (ops : List Operation) (t : Trainer F) → IsPaid n t → IsPaid n (after ops t)
  unfolding after
  after-IsPaid n [] t p = p
  after-IsPaid n (op ∷ earlier) t p =
      apply-IsPaid n op (after earlier t) (after-IsPaid n earlier t p)

  new_trainer_fields :
      (now n : ℕ) (cfg : TrainerConfig) (model : Option (ModelVersion F)) (t : Trainer F)
      → cfg.minimum_outcome_records ≡ pos (suc n)
      → new_trainer fl print now cfg model ≡ some t
      → (t.config.minimum_outcome_records ≡ pos (suc n))
        × (t.logs ≡ [])
        × (t.dataset_since_last_training ≡ 0)
  unfolding new_trainer
  new_trainer_fields now n cfg model t e new = ground arith

  -- From a new trainer with a minimum of n records, after any ingestions and retrainings, the dataset has at
  -- least n records for each model that was published, and besides them those ingested since.
  pub publications-le :
      (now n : ℕ) (cfg : TrainerConfig) (model : Option (ModelVersion F)) (t : Trainer F)
      (ops : List Operation)
      → cfg.minimum_outcome_records ≡ pos (suc n)
      → new_trainer fl print now cfg model ≡ some t
      → let t' = after ops t in
        publications t'.logs * suc n + t'.dataset_since_last_training ≤ length t'.outcome_dataset
  unfolding publications
  publications-le now n cfg model t ops e new =
      let (minimum, logs, since) = new_trainer_fields now n cfg model t e new in
      (after-IsPaid (suc n) ops t
        (record { minimum = minimum; paid = rw (logs, since) (omega arith) })).paid
