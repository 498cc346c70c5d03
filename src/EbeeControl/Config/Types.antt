-- ===== src/EbeeControl/Config/Types.antt =====
-- `Config` and its parts. A duration is in nanoseconds; `F` is Go's float64.
use titanops.Common.{String}
use titanops.Common.Int.{ℤ}
use titanops.EbeeControl.Executor.{ResponseConfig}

pub record DiscoveryConfig : Type 0 where
  pub interval : ℤ

pub record HealthCheckConfig : Type 0 where
  pub interval : ℤ
  pub response_timeout : ℤ
  pub component_timeout : ℤ

pub record DeploymentConfig : Type 0 where
  pub max_honeytokens_per_pod : ℤ
  pub timeout : ℤ

pub record ReportingConfig : Type 0 where
  pub retention_days : ℤ
  pub generation_timeout : ℤ
  pub generation_max_retries : ℤ

pub record LearningConfig : Type 0 where
  pub retraining_interval : ℤ
  pub minimum_outcome_records : ℤ
  pub outcome_submission_timeout : ℤ

pub record AuditLogConfig : Type 0 where
  pub retention_days : ℤ

pub record NotificationsConfig : Type 0 where
  pub channel_endpoint : String

pub record RetryConfig (F : Type 0) : Type 0 where
  pub max_retries : ℤ
  pub initial_backoff : ℤ
  pub backoff_multiplier : F
  pub max_backoff : ℤ

pub record BatchConfig : Type 0 where
  pub max_batch_size : ℤ
  pub flush_interval : ℤ

pub record DynatraceIngestionConfig (F : Type 0) : Type 0 where
  pub metrics_endpoint : String
  pub log_endpoint : String
  pub api_token : String
  pub request_timeout : ℤ
  pub retry : RetryConfig F
  pub batch : BatchConfig

pub record TetragonConfig : Type 0 where
  pub grpc_address : String
  pub reconnect_interval : ℤ
  pub max_reconnect_attempts : ℤ
  pub event_buffer_capacity : ℤ

pub record Config (F : Type 0) : Type 0 where
  pub discovery : DiscoveryConfig
  pub health_check : HealthCheckConfig
  pub deployment : DeploymentConfig
  pub response : ResponseConfig
  pub reporting : ReportingConfig
  pub learning : LearningConfig
  pub audit_log : AuditLogConfig
  pub notifications : NotificationsConfig
  pub dynatrace_ingestion : DynatraceIngestionConfig F
  pub tetragon : TetragonConfig
