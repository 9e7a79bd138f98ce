-- ===== src/Infra/Outside.antt =====
-- What internal/infra uses of the MongoDB driver, of grpc-go and of OpenTelemetry, and the calls of
-- them that a trace records.
use kenshu_elaris_project_pa.Base.{ℕ, Bool, Option}
use kenshu_elaris_project_pa.Go.Text.{GoString}
use kenshu_elaris_project_pa.Go.Call.{Act}
use kenshu_elaris_project_pa.Errors.{GoError}
use kenshu_elaris_project_pa.Dto.TimeEvent.{TimeEvent}
use kenshu_elaris_project_pa.Mq.Broker.{BrokerEvent}
use kenshu_elaris_project_pa.Infra.Duration.{Duration}

-- The options of a client of MongoDB that the program sets; `replica_set` is none if it is not set.
pub record ClientOptions : Type 0 where
  pub uri : GoString
  pub connect_timeout : Duration
  pub server_selection_timeout : Duration
  pub max_conn_idle_time : Duration
  pub max_pool_size : ℕ
  pub min_pool_size : ℕ
  pub retry_writes : Bool
  pub replica_set : Option GoString

-- The limits of time of a context, the outer one first.
pub record Deadline : Type 0 where
  pub startup : Option Duration
  pub own : Option Duration

-- A client is known by a number. `disconnect` of the driver, with the context that it is given.
pub record MongoDriver (E : Type 0) : Type 0 where
  pub connect : ClientOptions → Act E GoError ℕ
  pub ping : Deadline → ℕ → Act E GoError (Unit {0})
  pub disconnect : ℕ → Act E GoError (Unit {0})

-- grpc.NewClient with insecure credentials and the handler of OpenTelemetry, the method Now of a
-- ClockServiceClient on a connection, which gives a message without an error, and Close.
pub record GrpcDriver (E TS : Type 0) : Type 0 where
  pub new_client : GoString → Act E GoError ℕ
  pub now : ℕ → Act E GoError (TimeEvent TS)
  pub close_client : ℕ → Act E GoError (Unit {0})

pub record ExporterOptions : Type 0 where
  pub endpoint : GoString
  pub insecure : Bool

-- An instrument of a meter: the name, the unit and the description.
pub data Instrument : Type 0 where
  int_histogram : GoString → GoString → GoString → Instrument
  int_counter : GoString → GoString → GoString → Instrument
  float_histogram : GoString → GoString → GoString → Instrument

-- The packages of OpenTelemetry: a resource, an exporter and a provider are known by numbers, and a
-- provider is made of its exporter and the resource. `set_globals` makes two providers, and the
-- propagators of the program, the ones that the packages use.
pub record Otel (E : Type 0) : Type 0 where
  pub new_resource : GoString → Act E GoError ℕ
  pub new_trace_exporter : ExporterOptions → Act E GoError ℕ
  pub new_metric_exporter : ExporterOptions → Act E GoError ℕ
  pub trace_provider : ℕ → ℕ → ℕ
  pub meter_provider : ℕ → ℕ → ℕ
  pub set_globals : ℕ → ℕ → E → E
  pub new_instrument : Instrument → Act E GoError (Unit {0})
  pub shutdown_traces : Duration → ℕ → Act E GoError (Unit {0})
  pub shutdown_metrics : Duration → ℕ → Act E GoError (Unit {0})

pub data InfraEvent : Type 0 where
  mongo_connected : ClientOptions → InfraEvent
  mongo_pinged : ℕ → InfraEvent
  mongo_disconnected : ℕ → InfraEvent
  grpc_connected : GoString → InfraEvent
  grpc_closed : ℕ → InfraEvent
  resource_made : GoString → InfraEvent
  trace_exporter_made : ExporterOptions → InfraEvent
  metric_exporter_made : ExporterOptions → InfraEvent
  globals_set : ℕ → ℕ → InfraEvent
  instrument_made : Instrument → InfraEvent
  traces_shut_down : ℕ → InfraEvent
  metrics_shut_down : ℕ → InfraEvent
  broker : BrokerEvent → InfraEvent
  http_shut_down : InfraEvent
