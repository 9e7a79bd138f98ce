-- ===== src/Infra/Telemetry.antt =====
-- internal/infra/telemetry/telemetry.go and metrics.go: what starts and stops the telemetry.
pub mod Tracing
pub mod Propagation
use kenshu_elaris_project_pa.Base.{ℕ, Option, none, some, [], ◌∷◌, ◌++◌}
use kenshu_elaris_project_pa.Go.Text.{GoString, lit}
use kenshu_elaris_project_pa.Go.Call.{ok, Call, ◌>>=◌, ◌>>◌, pure, throw, perform, catch}
use kenshu_elaris_project_pa.Errors.{GoError, joined, nil, cons}
use kenshu_elaris_project_pa.Config.{TelemetryConfig, AppConfig}
use kenshu_elaris_project_pa.Infra.Outside.{
  ExporterOptions, Instrument, int_histogram, int_counter, float_histogram, Otel, InfraEvent,
  resource_made, trace_exporter_made, metric_exporter_made, globals_set, instrument_made,
  traces_shut_down, metrics_shut_down,
}
use kenshu_elaris_project_pa.Infra.Duration.{Duration, seconds, host_and_port}

-- What the returned function of Init closes over.
pub record Shutdown : Type 0 where
  pub timeout : Duration
  pub trace_provider : ℕ
  pub meter_provider : ℕ

unfoldable pub otel_trace_options : TelemetryConfig → ExporterOptions
unfolding host_and_port
otel_trace_options cfg = record {
  endpoint = host_and_port cfg.otlp_endpoint cfg.otlp_grpc_port;
  insecure = cfg.otlp_insecure;
}

unfoldable pub otel_metric_options : TelemetryConfig → ExporterOptions
unfolding host_and_port
otel_metric_options cfg = record {
  endpoint = host_and_port cfg.otlp_endpoint cfg.otlp_grpc_port;
  insecure = cfg.otlp_insecure;
}

-- fmt.Sprintf("%s:%s", appCfg.ServiceName, appCfg.Version)
unfoldable pub resource_name : AppConfig → GoString
resource_name app_cfg = app_cfg.service_name ++ (lit ":" ++ app_cfg.version)

unfoldable pub startup_histogram : Instrument
startup_histogram =
    int_histogram (lit "app.startup.duration") (lit "ms")
      (lit "Time from process start to ready state")

unfoldable pub mq_publish_counter : Instrument
mq_publish_counter =
    int_counter (lit "mq.publish") (lit "1") (lit "Number of RabbitMQ publish attempts.")

unfoldable pub mq_publish_duration_hist : Instrument
mq_publish_duration_hist =
    float_histogram (lit "mq.publish.duration_ms") (lit "ms")
      (lit "RabbitMQ publish end-to-end duration in milliseconds.")

-- errors.Join of an error so far and a new one.
unfoldable pub join_error : Option GoError → GoError → GoError
join_error none e = joined (cons e nil)
join_error (some old) e = joined (cons old (cons e nil))

module _ {E : Type 0} (otel : Otel E) where
  unfoldable pub new_trace_provider : ℕ → TelemetryConfig → Call E InfraEvent GoError ℕ
  unfolding otel_trace_options
  new_trace_provider resource cfg = do
    exporter ←
        perform (trace_exporter_made (otel_trace_options cfg))
          (otel.new_trace_exporter (otel_trace_options cfg))
    pure (otel.trace_provider exporter resource)

  unfoldable pub new_meter_provider : ℕ → TelemetryConfig → Call E InfraEvent GoError ℕ
  unfolding otel_metric_options
  new_meter_provider resource cfg = do
    exporter ←
        perform (metric_exporter_made (otel_metric_options cfg))
          (otel.new_metric_exporter (otel_metric_options cfg))
    pure (otel.meter_provider exporter resource)

  unfoldable pub make_instrument : Instrument → Call E InfraEvent GoError (Unit {0})
  make_instrument i = perform (instrument_made i) (otel.new_instrument i)

  unfoldable pub init_metrics : Call E InfraEvent GoError (Unit {0})
  unfolding make_instrument
  init_metrics = do
    make_instrument startup_histogram
    make_instrument mq_publish_counter
    make_instrument mq_publish_duration_hist

  unfoldable pub set_globals : ℕ → ℕ → Call E InfraEvent GoError (Unit {0})
  set_globals t m w =
      (ok tt, record { env = otel.set_globals t m w.env; trace = w.trace ++ globals_set t m ∷ [] })

  -- Init, with the function that shuts the telemetry down again.
  unfoldable pub init_telemetry : TelemetryConfig → AppConfig → Call E InfraEvent GoError Shutdown
  unfolding resource_name set_globals seconds
  init_telemetry cfg app_cfg = do
    resource ←
        perform (resource_made (resource_name app_cfg)) (otel.new_resource (resource_name app_cfg))
    traces ← new_trace_provider resource cfg
    metrics ← new_meter_provider resource cfg
    set_globals traces metrics
    init_metrics
    pure (record {
      timeout = seconds cfg.shutdown_timeout_in_seconds;
      trace_provider = traces;
      meter_provider = metrics;
    })

  -- A call whose error is joined to the errors so far.
  unfoldable pub joining :
      Option GoError
      → Call E InfraEvent GoError (Unit {0})
      → Call E InfraEvent GoError (Option GoError)
  unfolding join_error
  joining acc m = catch (m >> pure acc) (λ e. pure (some (join_error acc e)))

  -- The function that Init returns.
  unfoldable pub shutdown_telemetry : Shutdown → Call E InfraEvent GoError (Unit {0})
  unfolding joining
  shutdown_telemetry s = do
    first ← joining none (
        perform (traces_shut_down s.trace_provider)
          (otel.shutdown_traces s.timeout s.trace_provider))
    both ← joining first (
        perform (metrics_shut_down s.meter_provider)
          (otel.shutdown_metrics s.timeout s.meter_provider))
    elim both [ none ↦ pure tt | some e ↦ throw e ]
