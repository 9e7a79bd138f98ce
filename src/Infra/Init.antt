-- ===== src/Infra/Init.antt =====
-- internal/infra/init.go
use kenshu_elaris_project_pa.Base.{ℕ, some}
use kenshu_elaris_project_pa.Go.Text.{GoString, lit}
use kenshu_elaris_project_pa.Go.Call.{◌>>=◌, ◌>>◌, pure, of_outcome}
use kenshu_elaris_project_pa.Config.{Configs}
use kenshu_elaris_project_pa.Mq.Broker.{Amqp}
use kenshu_elaris_project_pa.Mq.Connection.{new_rabbit_mq_connection}
use kenshu_elaris_project_pa.Mq.Producer.{new_rabbitmq_producer, declare_exchange}
use kenshu_elaris_project_pa.Mq.Consumer.{new_rabbitmq_consumer, declare_queue, bind_queue}
use kenshu_elaris_project_pa.Infra.Outside.{MongoDriver, GrpcDriver, Otel}
use kenshu_elaris_project_pa.Infra.Clock.{Clock, new_clock}
use kenshu_elaris_project_pa.Infra.MongoDb.{Db, new_mongo_db, new_invoice_repo, new_receipt_repo}
use kenshu_elaris_project_pa.Infra.Telemetry.{Shutdown, init_telemetry}
use kenshu_elaris_project_pa.Infra.System.{
  SystemCall, on_outside, on_connection, on_payment_producer, on_guest_comm_producer,
  on_invoice_consumer, or_fail,
}

-- The drivers of the outside.
pub record Drivers (E TS : Type 0) : Type 0 where
  pub otel : Otel E
  pub mongo : MongoDriver E
  pub amqp : Amqp E
  pub grpc : GrpcDriver E TS

-- Components, but for the fields that refer to the connection, the producers and the consumer of
-- the state. A repository is the collection that it is made of.
pub record Components : Type 0 where
  pub shutdown_telemetry : Shutdown
  pub mongo_db : Db
  pub invoice_repo : ℕ × GoString × GoString
  pub receipt_repo : ℕ × GoString × GoString
  pub clock : Clock

module _ {E TS : Type 0} (drivers : Drivers E TS) where
  -- The producers and the consumer, in the order of Init.
  unfoldable pub init_payment_producer : Configs → SystemCall E (Unit {0})
  init_payment_producer configs = do
    or_fail (lit "failed to create payment producer") (
        on_payment_producer (
          new_rabbitmq_producer drivers.amqp (some tt)
            configs.rabbit_mq_config.publishers.payment_publish))
    or_fail (lit "failed to declare exchange") (
        on_payment_producer
          (declare_exchange drivers.amqp configs.rabbit_mq_config.publishers.payment_exchange))

  unfoldable pub init_guest_comm_producer : Configs → SystemCall E (Unit {0})
  init_guest_comm_producer configs = do
    or_fail (lit "failed to create guest communication producer") (
        on_guest_comm_producer (
          new_rabbitmq_producer drivers.amqp (some tt)
            configs.rabbit_mq_config.publishers.guest_communication_publish))
    or_fail (lit "failed to declare guest communication exchange") (
        on_guest_comm_producer (
          declare_exchange drivers.amqp
            configs.rabbit_mq_config.publishers.guest_communication_exchange))

  unfoldable pub init_invoice_consumer : Configs → SystemCall E (Unit {0})
  init_invoice_consumer configs = do
    or_fail (lit "failed to create invoice consumer") (
        on_invoice_consumer (
          new_rabbitmq_consumer drivers.amqp (some tt)
            configs.rabbit_mq_config.consumers.invoice_consume))
    or_fail (lit "failed to declare queue") (
        on_invoice_consumer
          (declare_queue drivers.amqp configs.rabbit_mq_config.consumers.invoice_queue))
    or_fail (lit "failed to bind invoice queue") (
        on_invoice_consumer
          (bind_queue drivers.amqp configs.rabbit_mq_config.consumers.invoice_binding))

  unfoldable pub init : Configs → SystemCall E Components
  unfolding init_payment_producer init_guest_comm_producer init_invoice_consumer
  init configs = do
    shutdown ←
        or_fail (lit "failed to setup telemetry")
          (on_outside (init_telemetry drivers.otel configs.telemetry_config configs.app_config))
    mongo_db ←
        or_fail (lit "failed to connect to MongoDB")
          (on_outside (new_mongo_db drivers.mongo configs.mongo_config))
    invoice_repo ←
        or_fail (lit "failed to create invoice repo")
          (of_outcome (new_invoice_repo (some mongo_db)))
    receipt_repo ←
        or_fail (lit "failed to create receipt repo")
          (of_outcome (new_receipt_repo (some mongo_db)))
    or_fail (lit "failed to connect to RabbitMQ")
        (on_connection (new_rabbit_mq_connection drivers.amqp configs.rabbit_mq_config))
    init_payment_producer configs
    init_guest_comm_producer configs
    init_invoice_consumer configs
    clock ←
        or_fail (lit "failed to create clock emu")
          (on_outside (new_clock drivers.grpc configs.services))
    pure (record {
      shutdown_telemetry = shutdown;
      mongo_db = mongo_db;
      invoice_repo = invoice_repo;
      receipt_repo = receipt_repo;
      clock = clock;
    })
