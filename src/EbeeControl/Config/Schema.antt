-- ===== src/EbeeControl/Config/Schema.antt =====
-- `Validate` decides whether the fields of a `Config` lie in their ranges.
use titanops.Common.{◌≡◌, ◌≢◌, ◌↔◌, String, false, Option, none, some, arith, eq_iff}
use titanops.Common.Int.{pos, ◌≤ℤ◌}
use titanops.Common.Float.{Floats}
use titanops.EbeeControl.Executor.{ResponseConfig}
use titanops.EbeeControl.Config.Types.{
  DiscoveryConfig, HealthCheckConfig, DeploymentConfig, ReportingConfig, LearningConfig,
  AuditLogConfig, RetryConfig, BatchConfig, TetragonConfig, Config,
}
use titanops.EbeeControl.Config.Defs.{
  Formats, minutes, hours, or_next, check_discovery, check_health_check, check_deployment,
  check_response, check_learning, check_audit_log, check_reporting, check_retry, check_batch,
  check_tetragon, validate,
}

-- The range of each field that is checked, part by part, its ends included; where the comment on a field
-- states a range, it is that one.
pub record IsInRange {F : Type 0} (fl : Floats F) (c : Config F) : Type 0 where
  pub discovery : (minutes 5 ≤ℤ c.discovery.interval) × (c.discovery.interval ≤ℤ minutes 1440)
  pub health_check :
      (pos 1 ≤ℤ c.health_check.interval)
      × (pos 1 ≤ℤ c.health_check.response_timeout)
      × (pos 1 ≤ℤ c.health_check.component_timeout)
  pub deployment :
      (pos 1 ≤ℤ c.deployment.max_honeytokens_per_pod)
      × (c.deployment.max_honeytokens_per_pod ≤ℤ pos 5)
      × (pos 1 ≤ℤ c.deployment.timeout)
  pub response :
      (pos 1 ≤ℤ c.response.isolation_timeout)
      × (pos 0 ≤ℤ c.response.isolation_max_retries)
      × (pos 0 ≤ℤ c.response.ip_block_max_retries)
  pub learning :
      (hours 1 ≤ℤ c.learning.retraining_interval)
      × (c.learning.retraining_interval ≤ℤ hours 168)
      × (pos 1 ≤ℤ c.learning.minimum_outcome_records)
  pub audit_log : pos 90 ≤ℤ c.audit_log.retention_days
  pub reporting : pos 1 ≤ℤ c.reporting.retention_days
  pub retry :
      (pos 0 ≤ℤ c.dynatrace_ingestion.retry.max_retries)
      × (pos 1 ≤ℤ c.dynatrace_ingestion.retry.initial_backoff)
      × (fl.lt c.dynatrace_ingestion.retry.backoff_multiplier (fl.literal 1 1) ≡ false)
  pub batch :
      (pos 1 ≤ℤ c.dynatrace_ingestion.batch.max_batch_size)
      × (pos 1 ≤ℤ c.dynatrace_ingestion.batch.flush_interval)
  pub tetragon :
      (c.tetragon.grpc_address ≢ "")
      × (pos 1 ≤ℤ c.tetragon.reconnect_interval)
      × (pos 1 ≤ℤ c.tetragon.event_buffer_capacity)

or_next_iff : (a b : Option String) → (or_next a b ≡ none) ↔ ((a ≡ none) × (b ≡ none))
unfolding or_next
or_next_iff none b = ground arith
or_next_iff (some err) b = ground arith

module _ {F : Type 0} (fl : Floats F) (print : Formats F) where
  discovery_iff :
      (c : DiscoveryConfig)
      → (check_discovery fl print c ≡ none)
        ↔ ((minutes 5 ≤ℤ c.interval) × (c.interval ≤ℤ minutes 1440))
  unfolding check_discovery
  discovery_iff c = ground arith

  health_check_iff :
      (c : HealthCheckConfig)
      → (check_health_check fl print c ≡ none)
        ↔ ((pos 1 ≤ℤ c.interval) × (pos 1 ≤ℤ c.response_timeout) × (pos 1 ≤ℤ c.component_timeout))
  unfolding check_health_check
  health_check_iff c = ground arith

  tetragon_iff :
      (c : TetragonConfig)
      → (check_tetragon fl print c ≡ none) ↔ (
          (c.grpc_address ≢ "")
          × (pos 1 ≤ℤ c.reconnect_interval)
          × (pos 1 ≤ℤ c.event_buffer_capacity))
  unfolding check_tetragon
  tetragon_iff c = ground (arith, eq_iff c.grpc_address "")

  deployment_iff :
      (c : DeploymentConfig)
      → (check_deployment fl print c ≡ none) ↔ (
          (pos 1 ≤ℤ c.max_honeytokens_per_pod)
          × (c.max_honeytokens_per_pod ≤ℤ pos 5)
          × (pos 1 ≤ℤ c.timeout))
  unfolding check_deployment
  deployment_iff c = ground arith

  response_iff :
      (c : ResponseConfig)
      → (check_response fl print c ≡ none) ↔ (
          (pos 1 ≤ℤ c.isolation_timeout)
          × (pos 0 ≤ℤ c.isolation_max_retries)
          × (pos 0 ≤ℤ c.ip_block_max_retries))
  unfolding check_response
  response_iff c = ground arith

  learning_iff :
      (c : LearningConfig)
      → (check_learning fl print c ≡ none) ↔ (
          (hours 1 ≤ℤ c.retraining_interval)
          × (c.retraining_interval ≤ℤ hours 168)
          × (pos 1 ≤ℤ c.minimum_outcome_records))
  unfolding check_learning
  learning_iff c = ground arith

  audit_log_iff :
      (c : AuditLogConfig) → (check_audit_log fl print c ≡ none) ↔ (pos 90 ≤ℤ c.retention_days)
  unfolding check_audit_log
  audit_log_iff c = ground arith

  reporting_iff :
      (c : ReportingConfig) → (check_reporting fl print c ≡ none) ↔ (pos 1 ≤ℤ c.retention_days)
  unfolding check_reporting
  reporting_iff c = ground arith

  retry_iff :
      (c : RetryConfig F)
      → (check_retry fl print c ≡ none) ↔ (
          (pos 0 ≤ℤ c.max_retries)
          × (pos 1 ≤ℤ c.initial_backoff)
          × (fl.lt c.backoff_multiplier (fl.literal 1 1) ≡ false))
  unfolding check_retry
  retry_iff c = ground arith

  batch_iff :
      (c : BatchConfig)
      → (check_batch fl print c ≡ none)
        ↔ ((pos 1 ≤ℤ c.max_batch_size) × (pos 1 ≤ℤ c.flush_interval))
  unfolding check_batch
  batch_iff c = ground arith

  -- The configuration passes the validation exactly if every field that it checks lies in its range, the
  -- ends included; where the comment on a field states a range, it is that one.
  pub validate_iff : (c : Config F) → (validate fl print c ≡ none) ↔ IsInRange fl c
  unfolding validate or_next
  validate_iff c = (
    λ h.
        let s = (or_next_iff (check_discovery fl print c.discovery) _).0 h in
        let t = (or_next_iff (check_health_check fl print c.health_check) _).0 s.1 in
        let u = (or_next_iff (check_deployment fl print c.deployment) _).0 t.1 in
        let v = (or_next_iff (check_response fl print c.response) _).0 u.1 in
        let w = (or_next_iff (check_learning fl print c.learning) _).0 v.1 in
        let x = (or_next_iff (check_audit_log fl print c.audit_log) _).0 w.1 in
        let y = (or_next_iff (check_reporting fl print c.reporting) _).0 x.1 in
        let z = (or_next_iff (check_retry fl print c.dynatrace_ingestion.retry) _).0 y.1 in
        let last = (or_next_iff (check_batch fl print c.dynatrace_ingestion.batch) _).0 z.1 in
        record {
          discovery = (discovery_iff c.discovery).0 s.0;
          health_check = (health_check_iff c.health_check).0 t.0;
          deployment = (deployment_iff c.deployment).0 u.0;
          response = (response_iff c.response).0 v.0;
          learning = (learning_iff c.learning).0 w.0;
          audit_log = (audit_log_iff c.audit_log).0 x.0;
          reporting = (reporting_iff c.reporting).0 y.0;
          retry = (retry_iff c.dynatrace_ingestion.retry).0 z.0;
          batch = (batch_iff c.dynatrace_ingestion.batch).0 last.0;
          tetragon = (tetragon_iff c.tetragon).0 last.1;
        },
    λ r.
        rw
          (
            (discovery_iff c.discovery).1 r.discovery,
            (health_check_iff c.health_check).1 r.health_check,
            (deployment_iff c.deployment).1 r.deployment,
            (response_iff c.response).1 r.response,
            (learning_iff c.learning).1 r.learning,
            (audit_log_iff c.audit_log).1 r.audit_log,
            (reporting_iff c.reporting).1 r.reporting,
            (retry_iff c.dynatrace_ingestion.retry).1 r.retry,
            (batch_iff c.dynatrace_ingestion.batch).1 r.batch,
          )
          ((tetragon_iff c.tetragon).1 r.tetragon),
  )
