-- ===== src/Main/Run/Ending.antt =====
-- internal/main.go: what has been checked and what has been closed when run returns.
use kenshu_elaris_project_pa.Base.{arith, ◌≡◌, refl, sym, ap, ◌∙◌, true, none}
use kenshu_elaris_project_pa.Go.Call.{World, Call, ok, ◌>>◌, bind-eq-ok, catch-pure_world}
use kenshu_elaris_project_pa.Go.Call.Keeps.{Keeps, bind-Keeps}
use kenshu_elaris_project_pa.Errors.{GoError}
use kenshu_elaris_project_pa.Mq.Broker.{Amqp, Store, BrokerEvent}
use kenshu_elaris_project_pa.Mq.Connection
use kenshu_elaris_project_pa.Mq.Channel.{close_channel}
use kenshu_elaris_project_pa.Infra.Clock
use kenshu_elaris_project_pa.Infra.Outside.{InfraEvent}
use kenshu_elaris_project_pa.Infra.Telemetry.{shutdown_telemetry}
use kenshu_elaris_project_pa.Infra.System.{
  System, Endpoint, SystemCall, on_outside, on_connection, on_endpoint, on_payment_producer,
  on_guest_comm_producer, on_invoice_consumer,
}
use kenshu_elaris_project_pa.Infra.Init.{Drivers, Components}
use kenshu_elaris_project_pa.Transport.{HttpServer, HttpPackage, shutdown_server}
use kenshu_elaris_project_pa.Main.{logged, shutdown}
use kenshu_elaris_project_pa.Main.Order.{seen}

-- The connection to RabbitMQ is marked as closed, so no later call dials again.
abbrev pub IsShut : {E : Type 0} → World (System E) InfraEvent → Type 0
IsShut w = w.env.connection.closed ≡ true

module _ {E : Type 0} where
  logged-Keeps : {m : SystemCall E (Unit {0})} → Keeps IsShut m → Keeps IsShut (logged m)
  logged-Keeps {m} h = record {
    kept = λ w p.
        ap (λ (v : World (System E) InfraEvent). v.env.connection.closed)
          (catch-pure_world GoError m (λ e. tt) w)
        ∙ h.kept w p;
  }

  on_outside-Keeps : (m : Call E InfraEvent GoError (Unit {0})) → Keeps IsShut (on_outside m)
  on_outside-Keeps m = record { kept = λ w p. p }

  close_channel-closed :
      {S : Type 0} (amqp : Amqp E) (w : World (Store E S) BrokerEvent)
      → (close_channel {S = S} amqp w).1.env.connection.closed ≡ w.env.connection.closed
  unfolding close_channel
  close_channel-closed amqp w = ground arith

  close-closed :
      (amqp : Amqp E) (w : World (Store E (Unit {0})) BrokerEvent)
      → (Connection.close amqp w).1.env.connection.closed ≡ true
  unfolding Connection.close
  close-closed amqp w = ground arith

  on_producer-Keeps :
      {S : Type 0} (get : System E → Endpoint S) (set : Endpoint S → System E → System E)
      (amqp : Amqp E)
      → ((e : Endpoint S) (s : System E) → (set e s).connection ≡ s.connection)
      → Keeps IsShut (on_endpoint get set (close_channel amqp))
  on_producer-Keeps {S} get set amqp same = record {
    kept = λ w p. ap (λ c. c.closed) (same _ _) ∙ close_channel-closed amqp (seen get w) ∙ p;
  }

module _ {E TS : Type 0} (drivers : Drivers E TS) (http : HttpPackage E) (components : Components)
    (server : HttpServer) where
  -- What shutdown does after it has closed the connection.
  abbrev leaving : SystemCall E (Unit {0})
  leaving = do
    logged (on_payment_producer (close_channel drivers.amqp))
    logged (on_guest_comm_producer (close_channel drivers.amqp))
    logged (on_invoice_consumer (close_channel drivers.amqp))
    logged (on_outside (shutdown_server http server))
    logged (on_outside (Clock.close drivers.grpc components.clock))

  leaving-Keeps : Keeps IsShut leaving
  leaving-Keeps =
      bind-Keeps
        (logged-Keeps (
          on_producer-Keeps (λ s. s.payment_producer) (λ e s. record s { payment_producer = e })
            drivers.amqp (λ e s. refl)))
        (λ (a : Unit {0}).
          bind-Keeps
            (logged-Keeps (
              on_producer-Keeps (λ s. s.guest_comm_producer)
                (λ e s. record s { guest_comm_producer = e }) drivers.amqp (λ e s. refl)))
            (λ (b : Unit {0}).
              bind-Keeps
                (logged-Keeps (
                  on_producer-Keeps (λ s. s.invoice_consumer)
                    (λ e s. record s { invoice_consumer = e }) drivers.amqp (λ e s. refl)))
                (λ (c : Unit {0}).
                  bind-Keeps (logged-Keeps (on_outside-Keeps (shutdown_server http server)))
                    (λ (d : Unit {0}).
                      logged-Keeps
                        (on_outside-Keeps (Clock.close drivers.grpc components.clock))))))

  pub shutdown-IsShut :
      (w w' : World (System E) InfraEvent)
      → shutdown drivers http components server w ≡ (ok tt, w')
      → IsShut w'
  unfolding shutdown
  shutdown-IsShut w w' h =
      let (a, w₁, e₁, h₁) =
        bind-eq-ok
          (logged (on_outside (shutdown_telemetry drivers.otel components.shutdown_telemetry)))
          (λ (a : Unit {0}). logged (on_connection (Connection.close drivers.amqp)) >> leaving) w
          h in
      let (b, w₂, e₂, h₂) =
        bind-eq-ok (logged (on_connection (Connection.close drivers.amqp)))
          (λ (b : Unit {0}). leaving) w₁ h₁ in
      let closed : IsShut w₂ =
        sym (ap (λ p. p.1.env.connection.closed) e₂)
        ∙ ap (λ (v : World (System E) InfraEvent). v.env.connection.closed)
            (catch-pure_world GoError (on_connection (Connection.close drivers.amqp)) (λ e. tt) w₁)
        ∙ close-closed drivers.amqp (seen (λ s. record { channel = none; own = tt }) w₁) in
      sym (ap (λ p. p.1.env.connection.closed) h₂) ∙ leaving-Keeps.kept w₂ closed
