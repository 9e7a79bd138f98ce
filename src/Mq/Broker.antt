-- ===== src/Mq/Broker.antt =====
-- What internal/infra/mq uses of package amqp091-go, and the state that it keeps.
use kenshu_elaris_project_pa.Base.{ℕ, Bool, Option, List, [], ◌∷◌, ◌++◌}
use kenshu_elaris_project_pa.Base.Int.{ℤ}
use kenshu_elaris_project_pa.Go.Text.{GoString}
use kenshu_elaris_project_pa.Go.Time.{Time}
use kenshu_elaris_project_pa.Go.Call.{ok, Act, Call}
use kenshu_elaris_project_pa.Errors.{GoError}
use kenshu_elaris_project_pa.Config.RabbitMq.{RabbitMqConfig, QueueConfig}
use kenshu_elaris_project_pa.App.Unmarshal.{Delivery}

-- amqp.URI, as far as the program sets it.
pub record Uri : Type 0 where
  pub scheme : GoString
  pub username : GoString
  pub password : GoString
  pub host : GoString
  pub port : ℤ

-- The arguments of ExchangeDeclare, of QueueBind, of PublishWithContext and of ConsumeWithContext
-- that the program sets.
pub record Exchange : Type 0 where
  pub name : GoString
  pub kind : GoString
  pub durable : Bool
  pub auto_delete : Bool
  pub internal : Bool
  pub no_wait : Bool

pub record Binding : Type 0 where
  pub queue : GoString
  pub routing_key : GoString
  pub exchange : GoString
  pub no_wait : Bool

pub record Publishing : Type 0 where
  pub content_type : GoString
  pub body : GoString
  pub delivery_mode : ℕ
  pub headers : List (GoString × GoString)
  pub timestamp : Time

pub record Publication : Type 0 where
  pub exchange : GoString
  pub routing_key : GoString
  pub mandatory : Bool
  pub immediate : Bool
  pub publishing : Publishing

pub record Consumption : Type 0 where
  pub queue : GoString
  pub consumer : GoString
  pub auto_ack : Bool
  pub exclusive : Bool
  pub no_local : Bool
  pub no_wait : Bool

-- A connection and a channel of the package are known by a number. `queue_declare` gives the name
-- of the queue, and `consume` the deliveries that its channel will hold. `quote` is fmt's verb %q.
pub record Amqp (E : Type 0) : Type 0 where
  pub uri_string : Uri → GoString
  pub dial : GoString → Act E GoError ℕ
  pub is_connection_closed : ℕ → E → Bool
  pub close_connection : ℕ → Act E GoError (Unit {0})
  pub open_channel : ℕ → Act E GoError ℕ
  pub is_channel_closed : ℕ → E → Bool
  pub close_channel : ℕ → Act E GoError (Unit {0})
  pub exchange_declare : ℕ → Exchange → Act E GoError (Unit {0})
  pub queue_declare : ℕ → QueueConfig → Act E GoError GoString
  pub queue_bind : ℕ → Binding → Act E GoError (Unit {0})
  pub publish : ℕ → Publication → Act E GoError (Unit {0})
  pub consume : ℕ → Consumption → Act E GoError (List Delivery)
  pub sleep : ℕ → E → E
  pub quote : GoString → GoString

-- RabbitMqConnection; `none` is a nil connection of the package.
pub record RabbitMqConnection : Type 0 where
  pub conn : Option ℕ
  pub cfg : RabbitMqConfig
  pub closed : Bool

-- The state that a method works on: the connection, which all channels share, the channel of the
-- method's receiver, and the receiver's other fields.
pub record Store (E S : Type 0) : Type 0 where
  pub outside : E
  pub connection : RabbitMqConnection
  pub channel : Option ℕ
  pub own : S

-- A call of the package.
pub data BrokerEvent : Type 0 where
  dialled : GoString → BrokerEvent
  slept : ℕ → BrokerEvent
  closed_connection : ℕ → BrokerEvent
  opened_channel : ℕ → BrokerEvent
  closed_channel : ℕ → BrokerEvent
  declared_exchange : ℕ → Exchange → BrokerEvent
  declared_queue : ℕ → QueueConfig → BrokerEvent
  bound_queue : ℕ → Binding → BrokerEvent
  sent : ℕ → Publication → BrokerEvent
  consumed : ℕ → Consumption → BrokerEvent

abbrev pub Op : Type 0 → Type 0 → Type 0 → Type 0
Op E S A = Call (Store E S) BrokerEvent GoError A

module _ {E S : Type 0} where
  abbrev pub read : {A : Type 0} → (Store E S → A) → Op E S A
  read f w = (ok (f w.env), w)

  abbrev pub set_connection : RabbitMqConnection → Op E S (Unit {0})
  set_connection c w = (ok tt, record w { env = record w.env { connection = c } })

  abbrev pub set_channel : Option ℕ → Op E S (Unit {0})
  set_channel ch w = (ok tt, record w { env = record w.env { channel = ch } })

  abbrev pub set_own : S → Op E S (Unit {0})
  set_own s w = (ok tt, record w { env = record w.env { own = s } })

  -- A call of the package: the trace records it, whatever it returns.
  abbrev pub request : {A : Type 0} → BrokerEvent → Act E GoError A → Op E S A
  request event act w =
      let (o, e) = act w.env.outside in
      (o, record { env = record w.env { outside = e }; trace = w.trace ++ event ∷ [] })
