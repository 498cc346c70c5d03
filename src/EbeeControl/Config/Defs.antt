-- ===== src/EbeeControl/Config/Defs.antt =====
-- `DefaultConfig` and `Validate`, with one function for each of the comments in its body. `print` are the
-- formats of fmt.
use titanops.Common.{ℕ, ◌*◌, String, Bool, ◌||◌, not, Option, none, some, if◌then◌else◌, str_eq}
use titanops.Common.Int.{ℤ, pos, negsuc, ltb_ℤ}
use titanops.Common.Float.{Floats}
use titanops.Common.Text.{◌+◌ as ◌&◌}
use titanops.EbeeControl.Executor.{ResponseConfig}
use titanops.EbeeControl.Config.Types.{
  DiscoveryConfig, HealthCheckConfig, DeploymentConfig, ReportingConfig, LearningConfig,
  AuditLogConfig, RetryConfig, BatchConfig, TetragonConfig, Config,
}

pub record Formats (F : Type 0) : Type 0 where
  pub int : ℤ → String
  pub float : F → String
  pub duration : ℤ → String

abbrev pub seconds : ℕ → ℤ
seconds n = pos (n * 1000000000)

abbrev pub minutes : ℕ → ℤ
minutes n = seconds (n * 60)

abbrev pub hours : ℕ → ℤ
hours n = minutes (n * 60)

unfoldable pub default_config : {F : Type 0} → Floats F → Config F
default_config fl = record {
  discovery = record { interval = minutes 60 };
  health_check = record {
    interval = seconds 30;
    response_timeout = seconds 5;
    component_timeout = seconds 10;
  };
  deployment = record { max_honeytokens_per_pod = pos 5; timeout = seconds 30 };
  response = record {
    isolation_timeout = seconds 10;
    isolation_max_retries = pos 3;
    isolation_retry_interval = seconds 5;
    ip_block_max_retries = pos 3;
    ip_block_retry_interval = seconds 5;
  };
  reporting = record {
    retention_days = pos 90;
    generation_timeout = seconds 60;
    generation_max_retries = pos 3;
  };
  learning = record {
    retraining_interval = hours 24;
    minimum_outcome_records = pos 50;
    outcome_submission_timeout = seconds 60;
  };
  audit_log = record { retention_days = pos 90 };
  notifications = record { channel_endpoint = "" };
  dynatrace_ingestion = record {
    metrics_endpoint = "";
    log_endpoint = "";
    api_token = "";
    request_timeout = seconds 10;
    retry = record {
      max_retries = pos 5;
      initial_backoff = seconds 2;
      backoff_multiplier = fl.literal 2 1;
      max_backoff = seconds 32;
    };
    batch = record { max_batch_size = pos 100; flush_interval = seconds 5 };
  };
  tetragon = record {
    grpc_address = "localhost:54321";
    reconnect_interval = seconds 5;
    max_reconnect_attempts = negsuc 0;
    event_buffer_capacity = pos 1000;
  };
}

-- A check that returns only if it finds an error, and what comes after it.
unfoldable pub or_next : Option String → Option String → Option String
or_next none next = next
or_next (some err) next = some err

-- `z <= 0`
abbrev pub is_positive : ℤ → Bool
is_positive z = ltb_ℤ (pos 0) z

module _ {F : Type 0} (fl : Floats F) (print : Formats F) where
  unfoldable pub check_discovery : DiscoveryConfig → Option String
  check_discovery c =
      if ltb_ℤ c.interval (minutes 5) || ltb_ℤ (minutes 1440) c.interval
      then some
          ("discovery.interval must be between 5m and 1440m, got " & print.duration c.interval)
      else none

  unfoldable pub check_health_check : HealthCheckConfig → Option String
  check_health_check c =
      if not (is_positive c.interval)
      then some ("health_check.interval must be positive, got " & print.duration c.interval)
      else if not (is_positive c.response_timeout)
      then some (
          "health_check.response_timeout must be positive, got "
          & print.duration c.response_timeout)
      else if not (is_positive c.component_timeout)
      then some (
          "health_check.component_timeout must be positive, got "
          & print.duration c.component_timeout)
      else none

  unfoldable pub check_deployment : DeploymentConfig → Option String
  check_deployment c =
      if ltb_ℤ c.max_honeytokens_per_pod (pos 1) || ltb_ℤ (pos 5) c.max_honeytokens_per_pod
      then some (
          "deployment.max_honeytokens_per_pod must be between 1 and 5, got "
          & print.int c.max_honeytokens_per_pod)
      else if not (is_positive c.timeout)
      then some ("deployment.timeout must be positive, got " & print.duration c.timeout)
      else none

  unfoldable pub check_response : ResponseConfig → Option String
  check_response c =
      if not (is_positive c.isolation_timeout)
      then some
          ("response.isolation_timeout must be positive, got " & print.duration c.isolation_timeout)
      else if ltb_ℤ c.isolation_max_retries (pos 0)
      then some (
          "response.isolation_max_retries must be non-negative, got "
          & print.int c.isolation_max_retries)
      else if ltb_ℤ c.ip_block_max_retries (pos 0)
      then some (
          "response.ip_block_max_retries must be non-negative, got "
          & print.int c.ip_block_max_retries)
      else none

  unfoldable pub check_learning : LearningConfig → Option String
  check_learning c =
      if ltb_ℤ c.retraining_interval (hours 1) || ltb_ℤ (hours 168) c.retraining_interval
      then some (
          "learning.retraining_interval must be between 1h and 168h, got "
          & print.duration c.retraining_interval)
      else if ltb_ℤ c.minimum_outcome_records (pos 1)
      then some (
          "learning.minimum_outcome_records must be at least 1, got "
          & print.int c.minimum_outcome_records)
      else none

  unfoldable pub check_audit_log : AuditLogConfig → Option String
  check_audit_log c =
      if ltb_ℤ c.retention_days (pos 90)
      then some ("audit_log.retention_days must be at least 90, got " & print.int c.retention_days)
      else none

  unfoldable pub check_reporting : ReportingConfig → Option String
  check_reporting c =
      if not (is_positive c.retention_days)
      then some ("reporting.retention_days must be positive, got " & print.int c.retention_days)
      else none

  unfoldable pub check_retry : RetryConfig F → Option String
  check_retry c =
      if ltb_ℤ c.max_retries (pos 0)
      then some (
          "dynatrace_ingestion.retry.max_retries must be non-negative, got "
          & print.int c.max_retries)
      else if not (is_positive c.initial_backoff)
      then some (
          "dynatrace_ingestion.retry.initial_backoff must be positive, got "
          & print.duration c.initial_backoff)
      else if fl.lt c.backoff_multiplier (fl.literal 1 1)
      then some (
          "dynatrace_ingestion.retry.backoff_multiplier must be at least 1, got "
          & print.float c.backoff_multiplier)
      else none

  unfoldable pub check_batch : BatchConfig → Option String
  check_batch c =
      if not (is_positive c.max_batch_size)
      then some (
          "dynatrace_ingestion.batch.max_batch_size must be positive, got "
          & print.int c.max_batch_size)
      else if not (is_positive c.flush_interval)
      then some (
          "dynatrace_ingestion.batch.flush_interval must be positive, got "
          & print.duration c.flush_interval)
      else none

  unfoldable pub check_tetragon : TetragonConfig → Option String
  check_tetragon c =
      if str_eq c.grpc_address ""
      then some "tetragon.grpc_address must not be empty"
      else if not (is_positive c.reconnect_interval)
      then some (
          "tetragon.reconnect_interval must be positive, got "
          & print.duration c.reconnect_interval)
      else if ltb_ℤ c.event_buffer_capacity (pos 1)
      then some (
          "tetragon.event_buffer_capacity must be at least 1, got "
          & print.int c.event_buffer_capacity)
      else none

  unfoldable pub validate : Config F → Option String
  validate c = or_next (check_discovery c.discovery) (
      or_next (check_health_check c.health_check) (
        or_next (check_deployment c.deployment) (
          or_next (check_response c.response) (
            or_next (check_learning c.learning) (
              or_next (check_audit_log c.audit_log) (
                or_next (check_reporting c.reporting) (
                  or_next (check_retry c.dynatrace_ingestion.retry) (
                    or_next (check_batch c.dynatrace_ingestion.batch)
                      (check_tetragon c.tetragon)))))))))
