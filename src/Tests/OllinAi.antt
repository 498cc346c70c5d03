-- ===== src/Tests/OllinAi.antt =====
-- The theorems on the OllinAI module at concrete inputs.
use titanops.Common.{
  Bool, String, ◌↔◌, map, Option, ℕ, ◌+◌, ◌-◌, ◌^◌, ◌≤◌, ◌≡◌, ◌≢◌, refl, true, false, some, List,
  [], ◌∷◌, length, arith, ltb, if◌then◌else◌,
}
use titanops.Common.Int.{ℤ, pos, negsuc}
use titanops.Export.Event.{Event}
use titanops.Export.Validate.{validate_event}
use titanops.OllinAi.Change.{
  DeploymentChange, classify_image_change, classify_replica_change, int_to_str,
}
use titanops.OllinAi.Change.{read_int, read_int-int_to_str}
use titanops.OllinAi.Verdict.{Verdict, new_verdict}
use titanops.OllinAi.Verifier.{
  error_rate, throughput, VerifierConfig, VerifierDeps, Verifier, select_signals, verify,
  emit_verdict,
}
use titanops.OllinAi.Verifier.Verdicts.{verify_lem}
use titanops.OllinAi.Verifier.Readings.{Judgement}
use titanops.OllinAi.Verifier.Schema.{emit_verdict-validate_event}
use titanops.OllinAi.Emitter.{NatsPublisher, NatsEmitterConfig, completed}
use titanops.OllinAi.Emitter.Account.{
  Operation, emitting, flushing, after, delivered, emits, after_account,
}
use titanops.Correlation.Scoring.{deployment_risk_bonus_from_events}
use titanops.OllinAi.Poller.{DeploymentRiskEntry, DeploymentRiskPayload}
use titanops.OllinAi.Poller.Bonus.{sent, deployment_risk_bonus-sent}
use titanops.OllinAi.Watcher.{WorkloadSnapshot, Previous, observe, workload_key}
use titanops.OllinAi.Watcher.Diff.{IsUnchanged, observe_iff}
use titanops.Common.Dict.{lookup}
use titanops.Tests.Data.{syscall, flow}
use titanops.Tests.EbeeControl.{floats}

not_least : negsuc 41 ≢ negsuc (2 ^ 63 - 1)
not_least h = absurd (ground (arith, h))

read_int-int_to_str_example : read_int (int_to_str (negsuc 41)) ≡ negsuc 41
read_int-int_to_str_example = read_int-int_to_str (negsuc 41) not_least

abbrev rollout : DeploymentChange
rollout = record {
  workload_name = "cart";
  workload_kind = "Deployment";
  namespace = "shop";
  changes =
      classify_replica_change (pos 2) (pos 4)
      ∷ classify_image_change "image" "cart:1" "cart:2"
      ∷ [];
  detected_at = 3;
  commit_sha = "abc";
  deployer = "ci";
}

abbrev config : VerifierConfig ℕ
config = record {
  baseline_window = pos 300000000000;
  error_rate_threshold = 1500;
  latency_threshold = 2000;
  restart_threshold = 1000;
  throughput_drop_threshold = 700;
  cpu_threshold = 900;
}

-- The error rate has risen, and the throughput does not answer.
abbrev deps : VerifierDeps ℕ
deps = record {
  floats = floats;
  query = λ place signal ns workload window. elim signal [
    | error_rate ↦
        (elim window [ pos n ↦ if ltb n 100000000000 then 90 else 10 | negsuc n ↦ 0 ], false)
    | throughput ↦ (0, true)
    | _ ↦ (0, false)
  ];
  order = λ signals. signals;
  serialize = λ verdict. some (123 ∷ 125 ∷ []);
  has_emitter = true;
}

abbrev verifier : Verifier ℕ
verifier = record { config = config; verdicts = []; emitted = [] }

verify_lem_example :
    let (result, v') = verify deps false "v-1" 5 9 rollout verifier in
    (verdict : Verdict ℕ) × (result ≡ some verdict)
    × (v'.verdicts ≡ verdict ∷ [])
    × Judgement deps config "shop" "cart" (select_signals deps.order rollout.changes) verdict.status
verify_lem_example = verify_lem deps config "v-1" 5 9 rollout verifier refl

abbrev verdict : Verdict ℕ
verdict = new_verdict "v-1" 9 rollout [] 5

emit_verdict-validate_event_example :
    (event : Event) × (emit_verdict deps verdict [] ≡ event ∷ [])
    × (validate_event (completed "e-1" 10 event) ≢ [])
emit_verdict-validate_event_example =
    emit_verdict-validate_event deps verdict [] "e-1" 10 (123 ∷ 125 ∷ []) refl

-- The first call fails, the later ones succeed.
abbrev publisher : NatsPublisher
publisher = record {
  is_connected = λ trace. true;
  publish = λ trace bytes. ltb 0 (length trace);
  marshal = λ event. some (123 ∷ 125 ∷ []);
  done = λ trace. false;
  now = λ trace. 5;
  new_id = λ trace. "id";
}

abbrev emitter_config : NatsEmitterConfig
emitter_config = record {
  buffer_capacity = pos 2;
  initial_backoff = pos 0;
  max_backoff = pos 0;
  max_retries = pos 0;
  subject = "";
}

abbrev operations : List Operation
operations = flushing ∷ emitting flow ∷ emitting syscall ∷ []

after_account_example :
    let (e, trace) = after publisher emitter_config operations in
    (delivered trace + e.dropped + length e.buffer ≡ emits operations)
    × (length e.buffer ≤ e.capacity)
after_account_example = after_account publisher emitter_config operations (λ event h. cc)

abbrev risk : DeploymentRiskEntry
risk = record {
  service = "cart";
  commit_sha = "abc";
  deployer = "ci";
  risk_score = pos 95;
  risk_factors = [];
  pipeline_id = "p-1";
  environment = "prod";
  node = "node-1";
  pod = "cart-1";
  namespace = "shop";
}

abbrev encode : DeploymentRiskPayload → Option (List ℕ × Bool)
encode payload = some (123 ∷ 125 ∷ [], true)

deployment_risk_bonus-sent_example :
    deployment_risk_bonus_from_events (map (sent encode "e-1" 9) (risk ∷ risk ∷ [])) ≡ 0
deployment_risk_bonus-sent_example = deployment_risk_bonus-sent encode "e-1" 9 (risk ∷ risk ∷ [])

abbrev snapshot : ℤ → String → WorkloadSnapshot
snapshot generation image = record {
  name = "cart";
  kind = "Deployment";
  namespace = "shop";
  generation = generation;
  image_tags = ("main", image) ∷ [];
  env_vars = ("main", ("MODE", "live") ∷ []) ∷ [];
  replicas = pos 2;
  resource_limits = [];
  resource_requests = [];
  probe_fingerprints = [];
  strategy_type = "RollingUpdate";
  annotations = [];
}

abbrev earlier_snapshots : Previous
earlier_snapshots = (workload_key (snapshot (pos 1) "cart:1"), snapshot (pos 1) "cart:1") ∷ []

seen_before :
    lookup (workload_key (snapshot (pos 2) "cart:2")) earlier_snapshots
    ≡ some (snapshot (pos 1) "cart:1")
unfolding lookup workload_key
seen_before = refl

observe_iff_example :
    ((observe 9 (snapshot (pos 2) "cart:2") earlier_snapshots).0 ≡ [])
    ↔ IsUnchanged (snapshot (pos 1) "cart:1") (snapshot (pos 2) "cart:2")
observe_iff_example =
    observe_iff 9 (snapshot (pos 2) "cart:2") (snapshot (pos 1) "cart:1") earlier_snapshots
      seen_before refl
