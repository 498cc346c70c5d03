-- ===== src/Tests/EbeeControl.antt =====
-- The theorems on EbeeControl at concrete inputs.
use titanops.Common.{
  ℕ, ◌*◌, ◌/◌, ◌≤◌, ◌≡◌, ◌↔◌, refl, true, false, none, some, List, [], map, length, All, arith, ltb,
  leb, ◌==◌, if◌then◌else◌,
}
use titanops.Common.Int.{pos}
use titanops.Common.Float.{Floats, IsOrdered}
use titanops.EbeeControl.Types.{high, ThreatAssessment, success, ResponseAction}
use titanops.EbeeControl.Classifier.{classify_from_inputs}
use titanops.EbeeControl.Classifier.Monotone.{rank, classify_mono}
use titanops.EbeeControl.Planner.{PlannedAction, generate_response_plan}
use titanops.EbeeControl.Executor.{
  ResponseExecutorDeps, ResponseConfig, execute_pod_isolation, execute_response,
}
use titanops.EbeeControl.Executor.Retry.{IsIsolated, execute_pod_isolation-IsIsolated}
use titanops.EbeeControl.Executor.Attempts.{Carried}
use titanops.EbeeControl.Executor.Response.{
  expected, kind_and_target, execute_response-generate_response_plan,
}

-- Fixed-point numbers with three digits.
abbrev pub floats : Floats ℕ
floats = record {
  literal = λ m n. m * 1000 / n;
  lt = ltb;
  le = leb;
  eq = ◌==◌;
  mul = λ a b. a * b / 1000;
}

pub ordered : IsOrdered floats
ordered = record {
  le_lem = λ a b. ground arith;
  irreflexive = λ a. ground arith;
  lt_left = λ a b c h g. ground arith;
  lt_right = λ a b c h g. ground arith;
}

classify_mono_example :
    rank (classify_from_inputs floats "staging" (pos 2) 100)
    ≤ rank (classify_from_inputs floats "production" (pos 5) 900)
classify_mono_example =
    classify_mono floats ordered "staging" "production" 2 5 100 900 (omega arith)
      (record { exposed = λ h. refl; above = omega arith; score = refl })

-- The pod is isolated at the third attempt.
abbrev pub executor : ResponseExecutorDeps
executor = record {
  isolate_pod = λ calls pod. if ltb (length calls) 4 then some "busy" else none;
  block_ip = λ calls pod. none;
  deploy_honeytokens = λ calls ns n. none;
  done = λ calls. false;
  new_id = λ calls. "id";
  now = λ calls. 7;
  print_int = λ n. "n";
}

abbrev pub response_config : ResponseConfig
response_config = record {
  isolation_timeout = pos 10;
  isolation_max_retries = pos 3;
  isolation_retry_interval = pos 5;
  ip_block_max_retries = pos 3;
  ip_block_retry_interval = pos 5;
}

execute_pod_isolation-IsIsolated_example :
    IsIsolated executor "web-1" 3 [] []
      (execute_pod_isolation executor "web-1" response_config [] [])
execute_pod_isolation-IsIsolated_example =
    execute_pod_isolation-IsIsolated executor "web-1" response_config 3 [] [] refl

abbrev assessment : ThreatAssessment ℕ
assessment = record {
  assessment_id = "a-1";
  access_event_id = "e-1";
  classification = high;
  inputs = record {
    namespace_classification = "production";
    service_criticality = pos 4;
    davis_anomaly_score = 700;
  };
  assessment_time = 7;
  assessment_latency = pos 2;
}

abbrev pub keep_order : List PlannedAction → List PlannedAction
keep_order actions = actions

execute_response-generate_response_plan_example :
    let (result, trace) =
      execute_response executor keep_order
        (generate_response_plan assessment "shop" "web-1")
        high
        response_config
        [] in
    (map kind_and_target result.actions ≡ expected high "shop" "web-1")
    × Carried executor result.actions [] trace
    × (result.all_succeeded ≡ true
        ↔ All (λ (a : ResponseAction). a.result ≡ success) result.actions)
execute_response-generate_response_plan_example =
    execute_response-generate_response_plan keep_order assessment "shop" "web-1" executor
      response_config [] 3 3 (λ actions h. refl) refl refl
