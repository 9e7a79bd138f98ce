-- ===== src/Infra/System.antt =====
-- The state that the parts of the program share: the connection to RabbitMQ, and the channel of
-- each of the two producers and of the consumer.
use kenshu_elaris_project_pa.Base.{ℕ, Option, none, [], ◌++◌, map}
use kenshu_elaris_project_pa.Go.Text.{GoString, lit}
use kenshu_elaris_project_pa.Go.Call.{Call, map_err}
use kenshu_elaris_project_pa.Errors.{GoError, wrapped, error_text}
use kenshu_elaris_project_pa.Mq.Broker.{RabbitMqConnection, Op}
use kenshu_elaris_project_pa.Mq.Producer.{Producer}
use kenshu_elaris_project_pa.Mq.Consumer.{Consumer}
use kenshu_elaris_project_pa.Infra.Outside.{InfraEvent, broker}

-- A value that embeds a RabbitMqChannel: the channel and the other fields.
pub record Endpoint (S : Type 0) : Type 0 where
  pub channel : Option ℕ
  pub own : S

pub record System (E : Type 0) : Type 0 where
  pub outside : E
  pub connection : RabbitMqConnection
  pub payment_producer : Endpoint Producer
  pub guest_comm_producer : Endpoint Producer
  pub invoice_consumer : Endpoint Consumer

abbrev pub SystemCall : Type 0 → Type 0 → Type 0
SystemCall E A = Call (System E) InfraEvent GoError A

module _ {E A : Type 0} where
  -- A call that concerns only the outside.
  abbrev pub on_outside : Call E InfraEvent GoError A → SystemCall E A
  on_outside m w =
      let (o, w') = m (record { env = w.env.outside; trace = w.trace }) in
      (o, record { env = record w.env { outside = w'.env }; trace = w'.trace })

  -- A method of a receiver, that the state holds.
  abbrev pub on_endpoint :
      {S : Type 0}
      → (System E → Endpoint S)
      → (Endpoint S → System E → System E)
      → Op E S A
      → SystemCall E A
  on_endpoint get set m w =
      let (o, w') = m (record {
        env = record {
          outside = w.env.outside;
          connection = w.env.connection;
          channel = (get w.env).channel;
          own = (get w.env).own;
        };
        trace = [];
      }) in
      (
        o,
        record {
          env =
              set (record { channel = w'.env.channel; own = w'.env.own })
                (record w.env { outside = w'.env.outside; connection = w'.env.connection });
          trace = w.trace ++ map broker w'.trace;
        },
      )

  abbrev pub on_connection : Op E (Unit {0}) A → SystemCall E A
  on_connection m = on_endpoint (λ s. record { channel = none; own = tt }) (λ e s. s) m

  abbrev pub on_payment_producer : Op E Producer A → SystemCall E A
  on_payment_producer m =
      on_endpoint (λ s. s.payment_producer) (λ e s. record s { payment_producer = e }) m

  abbrev pub on_guest_comm_producer : Op E Producer A → SystemCall E A
  on_guest_comm_producer m =
      on_endpoint (λ s. s.guest_comm_producer) (λ e s. record s { guest_comm_producer = e }) m

  abbrev pub on_invoice_consumer : Op E Consumer A → SystemCall E A
  on_invoice_consumer m =
      on_endpoint (λ s. s.invoice_consumer) (λ e s. record s { invoice_consumer = e }) m

  -- `if err != nil { return …, fmt.Errorf("…: %w", err) }`
  abbrev pub or_fail : GoString → SystemCall E A → SystemCall E A
  or_fail text m = map_err (λ e. wrapped (text ++ (lit ": " ++ error_text e)) e) m
