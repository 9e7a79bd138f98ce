-- ===== src/Main/Order.antt =====
-- internal/main.go: what shutdown calls, and what it leaves behind.
use kenshu_elaris_project_pa.Base.{
  Bool, refl, sym, subst, Option, none, some, List, [], ◌∷◌, map, true, false, All, ◌&◌,
}
use kenshu_elaris_project_pa.Go.Call.{World, Call, pure, throw}
use kenshu_elaris_project_pa.Go.Call.Emits.{
  Extends, Emits, silent, perform-Emits, bind-Emits, catch-Emits,
}
use kenshu_elaris_project_pa.Errors.{GoError}
use kenshu_elaris_project_pa.Mq.Broker.{Store, BrokerEvent, Op}
use kenshu_elaris_project_pa.Mq.Connection
use kenshu_elaris_project_pa.Mq.Closing
use kenshu_elaris_project_pa.Mq.Closing.{Closes, close_channel-Emits}
use kenshu_elaris_project_pa.Mq.Channel.{close_channel}
use kenshu_elaris_project_pa.Infra.Outside.{
  InfraEvent, mongo_connected, mongo_pinged, mongo_disconnected, grpc_connected, grpc_closed,
  resource_made, trace_exporter_made, metric_exporter_made, globals_set, instrument_made,
  traces_shut_down, metrics_shut_down, broker, http_shut_down,
}
use kenshu_elaris_project_pa.Infra.Clock
use kenshu_elaris_project_pa.Infra.Telemetry.{Shutdown, joining, join_error, shutdown_telemetry}
use kenshu_elaris_project_pa.Infra.System.{System, Endpoint, SystemCall, on_outside, on_endpoint}
use kenshu_elaris_project_pa.Infra.Init.{Drivers, Components}
use kenshu_elaris_project_pa.Transport.{HttpServer, HttpPackage, shutdown_server}
use kenshu_elaris_project_pa.Main.{logged, shutdown}

-- A call that closes, disconnects or shuts down something other than the client of MongoDB.
abbrev pub Ends : InfraEvent → Type 0
Ends (broker e) = Closes e
Ends (grpc_closed c) = Unit
Ends (traces_shut_down t) = Unit
Ends (metrics_shut_down m) = Unit
Ends http_shut_down = Unit
Ends (mongo_connected o) = ⊥
Ends (mongo_pinged c) = ⊥
Ends (mongo_disconnected c) = ⊥
Ends (grpc_connected t) = ⊥
Ends (resource_made n) = ⊥
Ends (trace_exporter_made o) = ⊥
Ends (metric_exporter_made o) = ⊥
Ends (globals_set t m) = ⊥
Ends (instrument_made i) = ⊥

Ends-broker : (es : List BrokerEvent) → All Closes es → All Ends (map broker es)
Ends-broker [] h = tt
Ends-broker (e ∷ es) (h, hs) = h & Ends-broker es hs

-- What a method sees of the state.
abbrev pub seen :
    {E S : Type 0}
    → (System E → Endpoint S)
    → World (System E) InfraEvent
    → World (Store E S) BrokerEvent
seen get w = record {
  env = record {
    outside = w.env.outside;
    connection = w.env.connection;
    channel = (get w.env).channel;
    own = (get w.env).own;
  };
  trace = [];
}

module _ {E A : Type 0} where
  on_outside-Emits : (m : Call E InfraEvent GoError A) → Emits Ends m → Emits Ends (on_outside m)
  on_outside-Emits m h = record {
    emits = λ w. h.emits (record { env = w.env.outside; trace = w.trace });
  }

  on_endpoint-Emits :
      {S : Type 0} (get : System E → Endpoint S) (set : Endpoint S → System E → System E)
      (m : Op E S A)
      → Emits Closes m
      → Emits Ends (on_endpoint get set m)
  on_endpoint-Emits get set m h = record {
    emits = λ w. record {
      calls = map broker (m (seen get w)).1.trace;
      appended = refl;
      holds =
          subst (λ t. All Ends (map broker t)) (sym (h.emits (seen get w)).appended)
            (Ends-broker (h.emits (seen get w)).calls (h.emits (seen get w)).holds);
    };
  }

logged-Emits : {E : Type 0} {m : SystemCall E (Unit {0})} → Emits Ends m → Emits Ends (logged m)
logged-Emits h = catch-Emits h (λ (e : GoError). silent (pure tt) (λ w. refl))

module _ {E TS : Type 0} (drivers : Drivers E TS) (http : HttpPackage E) where
  joining-Emits :
      (acc : Option GoError) {m : Call E InfraEvent GoError (Unit {0})}
      → Emits Ends m
      → Emits Ends (joining drivers.otel acc m)
  unfolding joining
  joining-Emits acc h =
      catch-Emits (bind-Emits h (λ (u : Unit {0}). silent (pure acc) (λ w. refl)))
        (λ (e : GoError). silent (pure (some (join_error acc e))) (λ w. refl))

  result-Emits :
      (o : Option GoError)
      → Emits {E = E} {A = Unit {0}} Ends (elim o as (λ x. Call E InfraEvent GoError (Unit {0})) [
        | none ↦ pure tt
        | some e ↦ throw e
      ])
  result-Emits none = silent (pure tt) (λ w. refl)
  result-Emits (some e) = silent (throw e) (λ w. refl)

  shutdown_telemetry-Emits : (s : Shutdown) → Emits Ends (shutdown_telemetry drivers.otel s)
  unfolding shutdown_telemetry
  shutdown_telemetry-Emits s =
      bind-Emits
        (joining-Emits none (
          perform-Emits (traces_shut_down s.trace_provider)
            (drivers.otel.shutdown_traces s.timeout s.trace_provider) tt))
        (λ (first : Option GoError).
          bind-Emits
            (joining-Emits first (
              perform-Emits (metrics_shut_down s.meter_provider)
                (drivers.otel.shutdown_metrics s.timeout s.meter_provider) tt))
            result-Emits)

  closed_or-Emits :
      (b : Bool) (e : GoError)
      → Emits {E = E} {A = Unit {0}} Ends (elim b as (λ x. Call E InfraEvent GoError (Unit {0})) [
        | true ↦ pure tt
        | false ↦ throw e
      ])
  closed_or-Emits true e = silent (pure tt) (λ w. refl)
  closed_or-Emits false e = silent (throw e) (λ w. refl)

  shutdown_server-Emits : (server : HttpServer) → Emits Ends (shutdown_server http server)
  unfolding shutdown_server
  shutdown_server-Emits server =
      catch-Emits (perform-Emits http_shut_down (http.shutdown server) tt)
        (λ (e : GoError). closed_or-Emits (http.is_server_closed e) e)

  close-Emits : (c : Clock.Clock) → Emits Ends (Clock.close drivers.grpc c)
  unfolding Clock.close
  close-Emits c = perform-Emits (grpc_closed c.conn) (drivers.grpc.close_client c.conn) tt

  shutdown-Emits :
      (components : Components) (server : HttpServer)
      → Emits Ends (shutdown drivers http components server)
  unfolding shutdown
  shutdown-Emits components server =
      bind-Emits
        (logged-Emits (on_outside-Emits _ (shutdown_telemetry-Emits components.shutdown_telemetry)))
        (λ (a : Unit {0}).
          bind-Emits
            (logged-Emits (
              on_endpoint-Emits (λ s. record { channel = none; own = tt }) (λ e s. s)
                (Connection.close drivers.amqp) (Closing.close-Emits drivers.amqp)))
            (λ (b : Unit {0}).
              bind-Emits
                (logged-Emits (
                  on_endpoint-Emits (λ s. s.payment_producer)
                    (λ e s. record s { payment_producer = e }) (close_channel drivers.amqp)
                    (close_channel-Emits drivers.amqp)))
                (λ (c : Unit {0}).
                  bind-Emits
                    (logged-Emits (
                      on_endpoint-Emits (λ s. s.guest_comm_producer)
                        (λ e s. record s { guest_comm_producer = e }) (close_channel drivers.amqp)
                        (close_channel-Emits drivers.amqp)))
                    (λ (d : Unit {0}).
                      bind-Emits
                        (logged-Emits (
                          on_endpoint-Emits (λ s. s.invoice_consumer)
                            (λ e s. record s { invoice_consumer = e }) (close_channel drivers.amqp)
                            (close_channel-Emits drivers.amqp)))
                        (λ (e : Unit {0}).
                          bind-Emits
                            (logged-Emits (on_outside-Emits _ (shutdown_server-Emits server)))
                            (λ (f : Unit {0}).
                              logged-Emits (on_outside-Emits _ (close-Emits components.clock))))))))

  -- The shutdown of the program only ends what is there, and never disconnects the client of
  -- MongoDB: each of its calls shuts the telemetry down, closes the connection to RabbitMQ or a
  -- channel, shuts the server down or closes the client of the clock, whatever fails on the way.
  pub shutdown-Extends :
      (components : Components) (server : HttpServer) (w : World (System E) InfraEvent)
      → Extends Ends w.trace (shutdown drivers http components server w).1.trace
  shutdown-Extends components server w = (shutdown-Emits components server).emits w
