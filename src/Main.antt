-- ===== src/Main.antt =====
-- internal/main.go: shutdown.
pub mod Order
pub mod Run
use kenshu_elaris_project_pa.Base.{Option, none, some}
use kenshu_elaris_project_pa.Go.Call.{Outcome, ok, err, panicked, ◌>>=◌, ◌>>◌, pure, catch}
use kenshu_elaris_project_pa.Errors.{GoError}
use kenshu_elaris_project_pa.Mq.Connection
use kenshu_elaris_project_pa.Mq.Channel.{close_channel}
use kenshu_elaris_project_pa.Infra.Clock
use kenshu_elaris_project_pa.Infra.Telemetry.{shutdown_telemetry}
use kenshu_elaris_project_pa.Infra.System.{
  SystemCall, on_outside, on_connection, on_payment_producer, on_guest_comm_producer,
  on_invoice_consumer,
}
use kenshu_elaris_project_pa.Infra.Init.{Drivers, Components}
use kenshu_elaris_project_pa.Transport.{HttpServer, HttpPackage, shutdown_server}

-- `if err := …; err != nil { slog.ErrorContext(…) }`
abbrev pub logged : {E : Type 0} → SystemCall E (Unit {0}) → SystemCall E (Unit {0})
logged m = catch m (λ e. pure tt)

module _ {E TS : Type 0} (drivers : Drivers E TS) (http : HttpPackage E) where
  unfoldable pub shutdown : Components → HttpServer → SystemCall E (Unit {0})
  shutdown components http_server = do
    logged (on_outside (shutdown_telemetry drivers.otel components.shutdown_telemetry))
    logged (on_connection (Connection.close drivers.amqp))
    logged (on_payment_producer (close_channel drivers.amqp))
    logged (on_guest_comm_producer (close_channel drivers.amqp))
    logged (on_invoice_consumer (close_channel drivers.amqp))
    logged (on_outside (shutdown_server http http_server))
    logged (on_outside (Clock.close drivers.grpc components.clock))
