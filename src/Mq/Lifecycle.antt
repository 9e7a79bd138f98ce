-- ===== src/Mq/Lifecycle.antt =====
-- internal/infra/mq: the life of a connection that several producers and consumers share, as a step
-- for each call of a method, and an abstract view of it in three phases.
pub mod Phases
use kenshu_elaris_project_pa.Base.{
  ℕ, subst, sym, ◌≡◌, ◌≢◌, refl, ap, ◌∙◌, ◌⊎◌, inl, inr, Bool, true, false, Bool-cases,
  if◌then◌else◌, Option, Option-cases, none, some,
}
use kenshu_elaris_project_pa.Go.Text.{GoString}
use kenshu_elaris_project_pa.Go.Call.{World, pure, ◌>>=◌}
use kenshu_elaris_project_pa.Config.RabbitMq.{
  ExchangeConfig, PublishConfig, QueueConfig, BindingConfig, ConsumeConfig,
}
use kenshu_elaris_project_pa.Port.{Message}
use kenshu_elaris_project_pa.Mq.Broker.{
  Amqp, RabbitMqConnection, Store, BrokerEvent, Op, read, request, closed_channel,
  closed_connection,
}
use kenshu_elaris_project_pa.Mq.Connection.{close}
use kenshu_elaris_project_pa.Mq.Channel.{ConnectionRef, close_channel}
use kenshu_elaris_project_pa.Mq.Producer.{
  Producer, Encoding, new_rabbitmq_producer, declare_exchange, publish,
}
use kenshu_elaris_project_pa.Mq.Consumer.{
  Consumer, new_rabbitmq_consumer, declare_queue, bind_queue, consume,
}
use kenshu_elaris_project_pa.Mq.Link.{
  Link, IsLinked, keeps, bind-IsLinked, Option-IsLinked, Bool-IsLinked,
}
use kenshu_elaris_project_pa.Mq.Link.Methods.{
  new_rabbitmq_producer-IsLinked, declare_exchange-IsLinked, publish-IsLinked,
  new_rabbitmq_consumer-IsLinked, declare_queue-IsLinked, bind_queue-IsLinked, consume-IsLinked,
}

-- The connection after an operation, whatever the operation returns.
abbrev pub after : {E S A : Type 0} → Op E S A → World (Store E S) BrokerEvent → RabbitMqConnection
after m w = (m w).1.env.connection

-- A call of a method, by what it makes of the connection.
pub data Step {E TS : Type 0} (amqp : Amqp E) (encoding : Encoding E TS)
    : RabbitMqConnection → RabbitMqConnection → Type 0 where
  creates_producer :
      (w : World (Store E Producer) BrokerEvent) (connection : ConnectionRef)
      (config : PublishConfig)
      → Step amqp encoding w.env.connection (after (new_rabbitmq_producer amqp connection config) w)
  declares_exchange :
      (w : World (Store E Producer) BrokerEvent) (config : ExchangeConfig)
      → Step amqp encoding w.env.connection (after (declare_exchange amqp config) w)
  publishes :
      (w : World (Store E Producer) BrokerEvent) (message : Message TS) (routing_key : GoString)
      → Step amqp encoding w.env.connection (after (publish amqp encoding message routing_key) w)
  creates_consumer :
      (w : World (Store E Consumer) BrokerEvent) (connection : ConnectionRef)
      (config : ConsumeConfig)
      → Step amqp encoding w.env.connection (after (new_rabbitmq_consumer amqp connection config) w)
  declares_queue :
      (w : World (Store E Consumer) BrokerEvent) (config : QueueConfig)
      → Step amqp encoding w.env.connection (after (declare_queue amqp config) w)
  binds_queue :
      (w : World (Store E Consumer) BrokerEvent) (config : BindingConfig)
      → Step amqp encoding w.env.connection (after (bind_queue amqp config) w)
  consumes :
      (w : World (Store E Consumer) BrokerEvent)
      → Step amqp encoding w.env.connection (after (consume amqp) w)
  closes_producer :
      (w : World (Store E Producer) BrokerEvent)
      → Step amqp encoding w.env.connection (after (close_channel amqp) w)
  closes_consumer :
      (w : World (Store E Consumer) BrokerEvent)
      → Step amqp encoding w.env.connection (after (close_channel amqp) w)
  closes :
      (w : World (Store E (Unit {0})) BrokerEvent)
      → Step amqp encoding w.env.connection (after (close amqp) w)

-- Any number of calls, in any order.
pub data Reach {E TS : Type 0} (amqp : Amqp E) (encoding : Encoding E TS) (c : RabbitMqConnection)
    : RabbitMqConnection → Type 0 where
  start : Reach amqp encoding c c
  step :
      {d d' : RabbitMqConnection}
      → Reach amqp encoding c d
      → Step amqp encoding d d'
      → Reach amqp encoding c d'

-- The abstract view: not connected yet, connected once, and closed by the program.
pub data Phase : Type 0 where
  starting : Phase
  connected : Phase
  shut_down : Phase

abbrev pub phase : Bool → Option ℕ → Phase
phase true conn = shut_down
phase false none = starting
phase false (some c) = connected

abbrev pub phase_of : RabbitMqConnection → Phase
phase_of c = phase c.closed c.conn

-- What a connection may do, in the abstract: it connects, and it is closed for good.
pub data Allowed : Phase → Phase → Type 0 where
  stays : (p : Phase) → Allowed p p
  connects : Allowed starting connected
  shuts_down : (p : Phase) → Allowed p shut_down
