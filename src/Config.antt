-- ===== src/Config.antt =====
-- internal/config/config.go: what the program reads from its environment. The tags of the fields are
-- read by package env, which fills the structs.
pub mod RabbitMq
use kenshu_elaris_project_pa.Base.{ℕ, Bool}
use kenshu_elaris_project_pa.Base.Int.{ℤ}
use kenshu_elaris_project_pa.Go.Text.{GoString, lit}
use kenshu_elaris_project_pa.Go.Call.{Act}
use kenshu_elaris_project_pa.Errors.{GoError}
use RabbitMq.{Secret, RabbitMqConfig}

-- The method String of Secret.
unfoldable pub secret_string : Secret → GoString
secret_string s = lit "REDACTED"

pub record LogConfig : Type 0 where
  pub level : ℤ

pub record ServerConfig : Type 0 where
  pub host : GoString
  pub port : ℤ
  pub read_header_timeout_in_seconds : ℤ
  pub read_timeout_in_seconds : ℤ
  pub write_timeout_in_seconds : ℤ
  pub idle_timeout_in_seconds : ℤ

pub record AppConfig : Type 0 where
  pub service_name : GoString
  pub version : GoString
  pub log_config : LogConfig
  pub server_config : ServerConfig

pub record ClockSimulatorConfig : Type 0 where
  pub grpc_host : GoString
  pub grpc_port : ℤ

pub record PaymentMakingCardConfig : Type 0 where
  pub host : GoString
  pub fail_chance : ℤ

pub record Services : Type 0 where
  pub clock_simulator_config : ClockSimulatorConfig
  pub payment_making_card_config : PaymentMakingCardConfig

pub record Collections : Type 0 where
  pub invoice_collection : GoString
  pub receipt_collection : GoString

pub record MongoConfig : Type 0 where
  pub username : Secret
  pub password : Secret
  pub host : GoString
  pub database : GoString
  pub replica_set : GoString
  pub connection_timeout_in_seconds : ℤ
  pub server_selection_timeout_in_seconds : ℤ
  pub ping_timeout_in_seconds : ℤ
  pub startup_timeout_in_seconds : ℤ
  pub max_conn_idle_time_in_seconds : ℤ
  pub max_pool_size : ℕ
  pub min_pool_size : ℕ
  pub retry_writes : Bool
  pub collections : Collections

pub record TelemetryConfig : Type 0 where
  pub otlp_endpoint : GoString
  pub otlp_grpc_port : ℤ
  pub otlp_health_port : ℤ
  pub otlp_insecure : Bool
  pub shutdown_timeout_in_seconds : ℤ

pub record Configs : Type 0 where
  pub app_config : AppConfig
  pub services : Services
  pub mongo_config : MongoConfig
  pub rabbit_mq_config : RabbitMqConfig
  pub telemetry_config : TelemetryConfig

-- LoadConfigs; `parse` is env.Parse on a new Configs.
unfoldable pub load_configs : {E : Type 0} → Act E GoError Configs → Act E GoError Configs
load_configs parse env = parse env
