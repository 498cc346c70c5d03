-- ===== src/EbeeControl/Trainer/Defs.antt =====
-- `Trainer`. Every operation reads the clock once; `print` are the formats of fmt.
use titanops.Common.{
  ℕ, ◌+◌, ◌/◌, ◌%◌, ◌*◌, String, Bool, true, false, ◌||◌, ◌&&◌, not, Option, none, some, List, [],
  ◌∷◌, ◌++◌, length, if◌then◌else◌,
}
use titanops.Common.Int.{ℤ, pos, pos_part, ltb_ℤ, difference}
use titanops.Common.Float.{Floats}
use titanops.Common.Text.{Strings, ◌+◌ as ◌&◌}
use titanops.EbeeControl.Types.{OutcomeData}
use titanops.EbeeControl.Trainer.Outcome.{validate_outcome_data}

pub record Print (F : Type 0) : Type 0 where
  pub int : ℤ → String
  pub percent : F → String
  pub duration : ℤ → String

pub record TrainerConfig : Type 0 where
  pub retraining_interval : ℤ
  pub minimum_outcome_records : ℤ

pub record ModelVersion (F : Type 0) : Type 0 where
  pub version_id : String
  pub training_dataset_size : ℕ
  pub validation_accuracy : F
  pub published_timestamp : ℕ

pub record TrainingStatus : Type 0 where
  pub last_retraining_timestamp : ℕ
  pub next_scheduled_retraining : ℕ
  pub dataset_size_since_last_training : ℕ
  pub minimum_records_required : ℤ
  pub retraining_interval : ℤ

pub record IngestionConfirmation : Type 0 where
  pub dataset_entry_count : ℕ
  pub ingestion_timestamp : ℕ

pub record RetrainingResult (F : Type 0) : Type 0 where
  pub success : Bool
  pub new_model : Option (ModelVersion F)
  pub reason : String

pub data TrainingLogEvent : Type 0 where
  ingestion : TrainingLogEvent
  retraining_started : TrainingLogEvent
  retraining_success : TrainingLogEvent
  retraining_failed : TrainingLogEvent
  model_published : TrainingLogEvent
  model_rejected : TrainingLogEvent

pub record TrainingLogEntry : Type 0 where
  pub timestamp : ℕ
  pub event : TrainingLogEvent
  pub details : String

pub record Trainer (F : Type 0) : Type 0 where
  pub config : TrainerConfig
  pub current_model : ModelVersion F
  pub outcome_dataset : List OutcomeData
  pub dataset_since_last_training : ℕ
  pub last_retraining_timestamp : ℕ
  pub logs : List TrainingLogEntry

-- Either the error or the confirmation.
pub data Ingested : Type 0 where
  rejected : String → Ingested
  confirmed : IngestionConfirmation → Ingested

abbrev pub hour : ℕ
hour = 3600000000000

-- `t.addLog(event, details)`
abbrev pub logged : List TrainingLogEntry → ℕ → TrainingLogEvent → String → List TrainingLogEntry
logged logs now event details =
    logs ++ record { timestamp = now; event = event; details = details } ∷ []

module _ {F : Type 0} (fl : Floats F) (print : Print F) where
  abbrev pub baseline : ℕ → ModelVersion F
  baseline now = record {
    version_id = "v1.0.0";
    training_dataset_size = 0;
    validation_accuracy = fl.literal 75 1;
    published_timestamp = now;
  }

  abbrev pub initial : ℕ → Option (ModelVersion F) → ModelVersion F
  initial now none = baseline now
  initial now (some model) = model

  -- none is the error of an interval out of its range.
  unfoldable pub new_trainer : ℕ → TrainerConfig → Option (ModelVersion F) → Option (Trainer F)
  new_trainer now cfg initial_model =
      let interval = cfg.retraining_interval in
      if ltb_ℤ interval (pos hour) || ltb_ℤ (pos (168 * hour)) interval
      then none
      else some (record {
        config = record {
          retraining_interval = interval;
          minimum_outcome_records =
              if ltb_ℤ cfg.minimum_outcome_records (pos 1)
              then pos 50
              else cfg.minimum_outcome_records;
        };
        current_model = initial now initial_model;
        outcome_dataset = [];
        dataset_since_last_training = 0;
        last_retraining_timestamp = (initial now initial_model).published_timestamp;
        logs = [];
      })

  unfoldable pub ingest_outcome_data : Strings → ℕ → OutcomeData → Trainer F → Ingested × Trainer F
  ingest_outcome_data strings now outcome t = elim (validate_outcome_data strings outcome) [
    | some err ↦ (rejected err, t)
    | none ↦
        let dataset = t.outcome_dataset ++ outcome ∷ [] in
        (
          confirmed (record { dataset_entry_count = length dataset; ingestion_timestamp = now }),
          record t {
            outcome_dataset = dataset;
            dataset_since_last_training = t.dataset_since_last_training + 1;
            logs = logged t.logs now ingestion (
                "Ingested outcome data for incident "
                & outcome.incident_id
                & ". Dataset size: "
                & print.int (pos (length dataset)));
          },
        )
  ]

  -- `new_trainer` has seen to it that the interval is not negative.
  unfoldable pub get_training_status : Trainer F → TrainingStatus
  get_training_status t = record {
    last_retraining_timestamp = t.last_retraining_timestamp;
    next_scheduled_retraining = t.last_retraining_timestamp + pos_part t.config.retraining_interval;
    dataset_size_since_last_training = t.dataset_since_last_training;
    minimum_records_required = t.config.minimum_outcome_records;
    retraining_interval = t.config.retraining_interval;
  }

  unfoldable pub should_retrain : ℕ → Trainer F → Bool
  should_retrain now t =
      not (ltb_ℤ (difference now t.last_retraining_timestamp) t.config.retraining_interval)
      && not (ltb_ℤ (pos t.dataset_since_last_training) t.config.minimum_outcome_records)

  unfoldable pub generate_version_id : ℕ → Trainer F → String
  generate_version_id now t =
      let size = length t.outcome_dataset in
      "v"
      & print.int (pos (size / 100 + 1))
      & "."
      & print.int (pos (size % 100))
      & "."
      & print.int (pos (now / 1000000 % 10000))

  -- The publish guard, for the accuracy of the model that was trained.
  unfoldable pub publish_or_reject : ℕ → F → Trainer F → RetrainingResult F × Trainer F
  publish_or_reject now new_accuracy t =
      let current_accuracy = t.current_model.validation_accuracy in
      if fl.le current_accuracy new_accuracy
      then (let new_model : ModelVersion F = record {
        version_id = generate_version_id now t;
        training_dataset_size = length t.outcome_dataset;
        validation_accuracy = new_accuracy;
        published_timestamp = now;
      } in
          (
            record {
              success = true;
              new_model = some new_model;
              reason =
                  "New model accuracy "
                  & print.percent new_accuracy
                  & "% >= current "
                  & print.percent current_accuracy
                  & "%";
            },
            record t {
              current_model = new_model;
              last_retraining_timestamp = now;
              dataset_since_last_training = 0;
              logs = logged t.logs now model_published (
                  "New model "
                  & new_model.version_id
                  & " published. Accuracy: "
                  & print.percent new_accuracy
                  & "% (was "
                  & print.percent current_accuracy
                  & "%)");
            },
          ))
      else (let reason =
            "New model accuracy "
            & print.percent new_accuracy
            & "% < current "
            & print.percent current_accuracy
            & "%. Retaining existing model." in
          (
            record { success = false; new_model = none; reason = reason },
            record t { logs = logged t.logs now model_rejected reason },
          ))

  -- `draw` is what rand.Intn(30) returns.
  unfoldable pub trigger_retraining : ℕ → ℕ → Trainer F → RetrainingResult F × Trainer F
  trigger_retraining now draw t =
      if ltb_ℤ (pos t.dataset_since_last_training) t.config.minimum_outcome_records
      then (let reason =
            "Insufficient outcome records: "
            & print.int (pos t.dataset_since_last_training)
            & " < "
            & print.int t.config.minimum_outcome_records
            & " required" in
          (
            record { success = false; new_model = none; reason = reason },
            record t { logs = logged t.logs now retraining_failed reason },
          ))
      else publish_or_reject now (fl.literal (draw + 70) 1) (record t {
        logs = logged t.logs now retraining_started (
            "Starting retraining with "
            & print.int (pos t.dataset_since_last_training)
            & " new records");
      })
