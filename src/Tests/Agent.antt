-- ===== src/Tests/Agent.antt =====
-- The theorems on EbeeControl's trainer and agent at concrete inputs.
use titanops.Common.{
  ℕ, suc, ◌+◌, ◌*◌, ◌≤◌, ◌≡◌, ◌≢◌, refl, true, false, none, some, List, [], ◌∷◌, map, length, arith,
}
use titanops.Common.Int.{pos}
use titanops.Common.Dict.{lookup_of_IsDict}
use titanops.EbeeControl.Types.{low, OutcomeData, AuditLogEntry}
use titanops.EbeeControl.Executor.Response.{expected, kind_and_target}
use titanops.EbeeControl.Monitor.{new_tetragon_monitor}
use titanops.EbeeControl.Trainer.{Print, TrainerConfig, Trainer, new_trainer}
use titanops.EbeeControl.Trainer.Guard.{
  Operation, ingest, retrain, after, publications, accuracy_mono, publications-le,
}
use titanops.EbeeControl.Classifier.{classify_threat, classify_from_inputs}
use titanops.EbeeControl.Trainer.{validate_access_event}
use titanops.EbeeControl.Agent.Registry.{mark_triggered, find_by_path, find, Entries}
use titanops.EbeeControl.Agent.Workflow.{
  AgentDeps, Moment, Agent, assess, honeytoken_type, emit_workflow_event, event_key,
  process_access_event,
}
use titanops.EbeeControl.Agent.Learning.{
  assessment, outcome, IsComplete, low_not_learned, threat_learned,
}
use titanops.EbeeControl.Agent.Discovery.{HighRiskService, Deployer, Discovery, execute_discovery}
use titanops.EbeeControl.Agent.Watched.{IsWatched, IsRange}
use titanops.EbeeControl.Agent.Reachable.{IsReachable, started, discovered, IsReachable-IsWatched}
use titanops.Tests.EbeeControl.{floats, ordered, executor, response_config, keep_order}
use titanops.Tests.Deception.{strings, event_at}

abbrev print : Print ℕ
print = record { int = λ n. "n"; percent = λ x. "x"; duration = λ d. "d" }

abbrev trainer_config : TrainerConfig
trainer_config = record { retraining_interval = pos 3600000000000; minimum_outcome_records = pos 1 }

abbrev trainer : Trainer ℕ
trainer = record {
  config = trainer_config;
  current_model = record {
    version_id = "v1.0.0";
    training_dataset_size = 0;
    validation_accuracy = 75000;
    published_timestamp = 3;
  };
  outcome_dataset = [];
  dataset_since_last_training = 0;
  last_retraining_timestamp = 3;
  logs = [];
}

abbrev deps_for : ℕ → AgentDeps ℕ
deps_for score = record {
  floats = floats;
  strings = strings;
  print = print;
  order = λ entries. entries;
  sort = keep_order;
  get_pod_context = λ pod ns. some (record {
    namespace = ns;
    namespace_classification = "staging";
    service_criticality = pos 2;
    davis_anomaly_score = score;
    anomaly_window_minutes = pos 5;
  });
  executor = executor;
  marshal = λ fields. some (123 ∷ 125 ∷ []);
}

abbrev moment : Moment
moment = record {
  assessment_id = "a-1";
  incident_id = "i-1";
  entry_id = "l-1";
  now = 8;
  assessment_latency = pos 1;
  response_latency = pos 2;
}

abbrev agent : Agent ℕ
agent = record {
  config = response_config;
  audit_retention_days = pos 90;
  registry = [];
  audit_log = record { entries = []; retention_days = pos 90 };
  trainer = trainer;
  calls = [];
  emitted = [];
}

-- The agent behind an event, or as it was when the workflow panics.
abbrev behind : ℕ → Agent ℕ
behind score = elim (process_access_event (deps_for score) moment (event_at 4) agent) [
  | none ↦ agent
  | some a ↦ a
]

abbrev outcomes : OutcomeData
outcomes = outcome (deps_for 400) moment (event_at 4) agent

abbrev trainings : List Operation
trainings = retrain 12 3 ∷ retrain 11 9 ∷ ingest 10 outcomes ∷ []

accuracy_mono_example :
    floats.lt (after floats print strings trainings trainer).current_model.validation_accuracy 75000
    ≡ false
accuracy_mono_example = accuracy_mono floats print strings ordered trainings trainer

trainer_is_new : new_trainer floats print 3 trainer_config none ≡ some trainer
unfolding new_trainer
trainer_is_new = refl

publications-le_example :
    let t = after floats print strings trainings trainer in
    publications t.logs * 1 + t.dataset_since_last_training ≤ length t.outcome_dataset
publications-le_example =
    publications-le floats print strings 3 0 trainer_config none trainer trainings refl
      trainer_is_new

low_run : process_access_event (deps_for 100) moment (event_at 4) agent ≡ some (behind 100)
unfolding process_access_event emit_workflow_event event_key
low_run = refl

low_class : (assessment (deps_for 100) moment (event_at 4) agent).classification ≡ low
unfolding assess classify_threat classify_from_inputs
low_class = refl

low_not_learned_example :
    ((behind 100).trainer ≡ trainer)
    × (entry : AuditLogEntry) × ((behind 100).audit_log.entries ≡ entry ∷ [])
    × (entry.outcome ≡ "Response: true. Learning: ingested.")
low_not_learned_example =
    low_not_learned (deps_for 100) moment (event_at 4) agent (behind 100) refl low_class low_run

complete : IsComplete (deps_for 400) moment (event_at 4) agent
unfolding honeytoken_type find_by_path mark_triggered find
complete = record { incident = refl; known_type = refl; latency = refl; instant = omega arith }

medium_class : (assessment (deps_for 400) moment (event_at 4) agent).classification ≢ low
unfolding assess classify_threat classify_from_inputs
medium_class h = cc

event_valid : validate_access_event strings (event_at 4) ≡ none
unfolding validate_access_event
event_valid = refl

medium_run : process_access_event (deps_for 400) moment (event_at 4) agent ≡ some (behind 400)
unfolding process_access_event emit_workflow_event event_key
medium_run = refl

threat_learned_example :
    let a = behind 400 in
    (a.trainer.outcome_dataset ≡ outcomes ∷ [])
    × (a.trainer.dataset_since_last_training ≡ 1)
    × (map kind_and_target outcomes.actions_taken
        ≡ expected
            (assessment (deps_for 400) moment (event_at 4) agent).classification
            "shop"
            "web-1")
threat_learned_example =
    threat_learned (deps_for 400) moment (event_at 4) agent (behind 400) (λ actions h. refl)
      medium_class event_valid complete medium_run

-- A deployer that places one honeytoken for each request.
abbrev one_each : Deployer ℕ
one_each = record {
  deploy = λ req n. (
    some (record {
      success = true;
      deployed_honeytokens =
          record {
            honeytoken_id = req.pod_id;
            pod_id = req.pod_id;
            namespace = req.namespace;
            type_name = "decoy_file";
            file_path = "/secrets/token";
            deployment_timestamp = n;
          }
          ∷ [];
      errors = [];
    }),
    suc n,
  );
}

abbrev in_order : Entries → Entries
in_order entries = entries

in_order-IsRange : IsRange in_order
in_order-IsRange m dict = lookup_of_IsDict m dict

abbrev services : List (HighRiskService ℕ)
services =
    record {
      service_id = "s-1";
      service_name = "cart";
      namespace = "shop";
      pod_identifiers = "web-1" ∷ "web-2" ∷ [];
      risk_score = 90;
    }
    ∷ []

abbrev at_first : Discovery ℕ
at_first = record {
  deployer = 0;
  registry = [];
  monitor = new_tetragon_monitor (pos 4) true;
  audit_log = record { entries = []; retention_days = pos 90 };
  total_deployed = 0;
  total_failed = 0;
}

abbrev discovery : Discovery ℕ
discovery =
    execute_discovery one_each (λ found. found) (λ n. "n") "l-2" 9 (pos 90) (some services) at_first

discovery_reached : IsReachable ℕ one_each strings in_order discovery.registry discovery.monitor
discovery_reached =
    discovered (λ found. found) (λ n. "n") "l-2" 9 (pos 90) (some services) at_first
      (started (pos 4) true)

IsReachable-IsWatched_example : IsWatched discovery.registry discovery.monitor
IsReachable-IsWatched_example =
    IsReachable-IsWatched ℕ one_each strings in_order discovery.registry discovery.monitor
      in_order-IsRange discovery_reached
