-- ===== src/Transport.antt =====
-- internal/transport/server.go, internal/transport/init.go and internal/transport/http/probe/probe.go
pub mod Gateway
pub mod Readiness
use kenshu_elaris_project_pa.Base.{
  ℕ, Bool, true, false, not, ◌&&◌, Option, none, some, [], ◌∷◌, ◌++◌,
}
use kenshu_elaris_project_pa.Base.Int.{ℤ}
use kenshu_elaris_project_pa.Go.Text.{GoString, lit}
use kenshu_elaris_project_pa.Go.Call.{
  Outcome, ok, err, panicked, Act, Call, ◌>>=◌, ◌>>◌, pure, throw, of_outcome, perform, catch,
}
use kenshu_elaris_project_pa.Go.Time.{Time}
use kenshu_elaris_project_pa.Errors.{GoError}
use kenshu_elaris_project_pa.Port.{Event}
use kenshu_elaris_project_pa.App.Init.{Services}
use kenshu_elaris_project_pa.Transport.Gateway.{Runtime, Served}
use kenshu_elaris_project_pa.Transport.Gateway.Registration.{
  MuxPackage, register_pay_handler_server, register_reissue_handler_server,
}
use kenshu_elaris_project_pa.Validation.{
  Validator, int, pointer, ◌▷◌, new_validator, not_blank, not_nil, positive_value, validate,
}
use kenshu_elaris_project_pa.Config.{ServerConfig}
use kenshu_elaris_project_pa.Mq.Broker.{Amqp}
use kenshu_elaris_project_pa.Mq.Connection.{is_connection_open}
use kenshu_elaris_project_pa.Infra.Outside.{MongoDriver, InfraEvent, http_shut_down}
use kenshu_elaris_project_pa.Infra.Duration.{Duration, seconds, host_and_port}
use kenshu_elaris_project_pa.Infra.MongoDb.{Db, ping}
use kenshu_elaris_project_pa.Infra.System.{SystemCall, on_outside, on_connection, or_fail}

-- An answer to a probe: the status code and the body.
pub record Answer : Type 0 where
  pub code : ℕ
  pub body : GoString

abbrev pub status_ok : ℕ
status_ok = 200

abbrev pub status_service_unavailable : ℕ
status_service_unavailable = 503

unfoldable pub health_handler : Answer
health_handler = record { code = status_ok; body = [] }

-- http.Error, which ends the text with a line break.
unfoldable pub unavailable : GoString → Answer
unavailable text = record { code = status_service_unavailable; body = text ++ (lit "\n") }

-- What the probe of readiness answers, by whether the connection to RabbitMQ is open.
unfoldable pub answer_when : {E : Type 0} → MongoDriver E → Db → Bool → SystemCall E Answer
unfolding unavailable
answer_when mongo client false = pure (unavailable (lit "rabbitmq connection closed"))
answer_when mongo client true =
    catch {Y = GoError}
      (on_outside (ping mongo client) >> pure (record { code = status_ok; body = [] }))
      (λ e. pure (unavailable (lit "db ping failed")))

unfoldable pub readiness_handler : {E : Type 0} → Amqp E → MongoDriver E → Db → SystemCall E Answer
unfolding answer_when
readiness_handler amqp mongo client = do
  is_open ← on_connection (is_connection_open amqp)
  answer_when mongo client is_open

unfoldable pub http_validator : ServerConfig → Option (Unit {0}) → Validator
unfolding new_validator not_blank positive_value not_nil
http_validator cfg mux =
    new_validator
    ▷ not_blank (lit "http.host") cfg.host
    ▷ positive_value (lit "http.port") (some (int cfg.port))
    ▷ positive_value (lit "http.read_header_timeout_in_seconds")
        (some (int cfg.read_header_timeout_in_seconds))
    ▷ positive_value (lit "http.read_timeout_in_seconds") (some (int cfg.read_timeout_in_seconds))
    ▷ positive_value (lit "http.write_timeout_in_seconds") (some (int cfg.write_timeout_in_seconds))
    ▷ positive_value (lit "http.idle_timeout_in_seconds") (some (int cfg.idle_timeout_in_seconds))
    ▷ not_nil (lit "payment_server_mux") (pointer mux)

-- NewHttpServer: the configuration of the server, which the other fields accompany.
unfoldable pub new_http_server : ServerConfig → Option (Unit {0}) → Outcome GoError ServerConfig
new_http_server cfg mux = elim (validate (http_validator cfg mux)) [
  | some e ↦ err e
  | none ↦ ok cfg
]

-- The http.Server that SetServer makes.
pub record HttpServer : Type 0 where
  pub addr : GoString
  pub read_header_timeout : Duration
  pub read_timeout : Duration
  pub write_timeout : Duration
  pub idle_timeout : Duration

unfoldable pub set_server : ServerConfig → HttpServer
unfolding host_and_port seconds
set_server cfg = record {
  addr = host_and_port cfg.host cfg.port;
  read_header_timeout = seconds cfg.read_header_timeout_in_seconds;
  read_timeout = seconds cfg.read_timeout_in_seconds;
  write_timeout = seconds cfg.write_timeout_in_seconds;
  idle_timeout = seconds cfg.idle_timeout_in_seconds;
}

-- Package net/http: Shutdown of the server, and errors.Is(err, http.ErrServerClosed).
pub record HttpPackage (E : Type 0) : Type 0 where
  pub shutdown : HttpServer → Act E GoError (Unit {0})
  pub is_server_closed : GoError → Bool

unfoldable pub shutdown_server :
    {E : Type 0} → HttpPackage E → HttpServer → Call E InfraEvent GoError (Unit {0})
shutdown_server http server =
    catch (perform http_shut_down (http.shutdown server))
      (λ e. elim (http.is_server_closed e) [ true ↦ pure tt | false ↦ throw e ])

-- Init of internal/transport/init.go: the server, and the mux of the gateway, which is never nil.
unfoldable pub init_transport :
    {E S TS M : Type 0}
    → Runtime S
    → MuxPackage S (Event TS) (Served TS) M
    → (Time → TS)
    → ServerConfig
    → Services S TS
    → SystemCall E (HttpServer × M)
unfolding set_server
init_transport runtime mux_package new_timestamp cfg services = do
  paying ← or_fail (lit "register payment making gateway handler") (
      of_outcome (
        register_pay_handler_server runtime mux_package services.payment_making
          mux_package.new_serve_mux))
  mux ← or_fail (lit "register payment reissue gateway handler") (
      of_outcome (
        register_reissue_handler_server runtime mux_package new_timestamp services.payment_reissue
          paying))
  server ← or_fail (lit "create http server") (of_outcome (new_http_server cfg (some tt)))
  pure (set_server server, mux)
