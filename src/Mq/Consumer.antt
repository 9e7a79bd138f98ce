-- ===== src/Mq/Consumer.antt =====
-- internal/infra/mq/rabbitmq_consumer.go
use kenshu_elaris_project_pa.Base.{true, false, Option, none, some, List, [], ◌++◌}
use kenshu_elaris_project_pa.Go.Text.{GoString, lit, text_eq}
use kenshu_elaris_project_pa.Go.Call.{panicked, ◌>>=◌, ◌>>◌, pure, throw, of_outcome, map_err}
use kenshu_elaris_project_pa.Errors.{GoError, foreign, wrapped, error_text, mq_unexpected}
use kenshu_elaris_project_pa.Config.RabbitMq.{QueueConfig, BindingConfig, ConsumeConfig}
use kenshu_elaris_project_pa.App.Unmarshal.{Delivery}
use kenshu_elaris_project_pa.Mq.Broker.{
  Binding, Consumption, Amqp, declared_queue, bound_queue, consumed, Op, read, set_own, request,
}
use kenshu_elaris_project_pa.Mq.Channel.{
  ConnectionRef, new_rabbit_mq_channel, open_channel, reopen_channel, ensure_channel, with_channel,
}

-- The fields of rabbitmqConsumer beside the channel; of the queue, its name.
pub record Consumer : Type 0 where
  pub queue : Option GoString
  pub consume_config : ConsumeConfig

unfoldable pub binding_of : GoString → BindingConfig → Binding
binding_of q config = record {
  queue = q;
  routing_key = config.routing_key;
  exchange = config.exchange_name;
  no_wait = config.no_wait;
}

unfoldable pub consumption_of : GoString → ConsumeConfig → Consumption
consumption_of q config = record {
  queue = q;
  consumer = config.consumer;
  auto_ack = config.auto_ack;
  exclusive = config.exclusive;
  no_local = config.no_local;
  no_wait = config.no_wait;
}

module _ {E : Type 0} (amqp : Amqp E) where
  unfoldable pub new_rabbitmq_consumer : ConnectionRef → ConsumeConfig → Op E Consumer (Unit {0})
  new_rabbitmq_consumer connection consume_config = do
    new_rabbit_mq_channel amqp connection
    set_own (record { queue = none; consume_config = consume_config })
    open_channel amqp

  -- The error of DeclareQueue.
  unfoldable pub queue_error : QueueConfig → GoError → GoError
  queue_error config e =
      wrapped (lit "declare queue " ++ (amqp.quote config.name ++ (lit ": " ++ error_text e))) e

  -- What DeclareQueue does once the channel is open.
  unfoldable pub declare_on_channel : QueueConfig → Op E Consumer (Unit {0})
  unfolding queue_error
  declare_on_channel config = do
    q ← map_err (queue_error config) (
        with_channel amqp (λ ch. request (declared_queue ch config) (amqp.queue_declare ch config)))
    own ← read (λ s. s.own)
    set_own (record own { queue = some q })

  unfoldable pub declare_queue : QueueConfig → Op E Consumer (Unit {0})
  declare_queue config = do ensure_channel amqp; declare_on_channel config

  -- The text of the error of a binding.
  unfoldable pub binding_error : Binding → GoError → GoError
  binding_error b e =
      wrapped
        (lit "bind queue "
          ++ (amqp.quote b.queue
              ++ (lit " to exchange "
                  ++ (amqp.quote b.exchange
                      ++ (lit " with routing key "
                          ++ (amqp.quote b.routing_key ++ (lit ": " ++ error_text e)))))))
        e

  -- What BindQueue does once the channel is open.
  unfoldable pub bind_on_channel : BindingConfig → Op E Consumer (Unit {0})
  unfolding binding_error binding_of text_eq
  bind_on_channel config = do
    queue ← read (λ s. s.own.queue)
    elim queue [
      | none ↦ throw (foreign (lit "queue not declared"))
      | some q ↦ elim (text_eq config.exchange_name []) [
        | true ↦ throw (foreign (lit "exchange name is required"))
        | false ↦ do
          let binding = binding_of q config
          map_err (binding_error binding) (
              with_channel amqp
                (λ ch. request (bound_queue ch binding) (amqp.queue_bind ch binding)))
      ]
    ]

  unfoldable pub bind_queue : BindingConfig → Op E Consumer (Unit {0})
  bind_queue config = do ensure_channel amqp; bind_on_channel config

  -- The guard of Consume, which asks only whether there is a channel.
  unfoldable pub ensure_not_nil : Op E Consumer (Unit {0})
  ensure_not_nil = do
    channel ← read (λ s. s.channel)
    elim channel [ none ↦ reopen_channel amqp | some ch ↦ pure tt ]

  -- The rest of Consume: `c.queue.Name` panics on a nil queue.
  unfoldable pub consume_from : ConsumeConfig → Option GoString → Op E Consumer (List Delivery)
  unfolding consumption_of
  consume_from config none = of_outcome panicked
  consume_from config (some q) =
      map_err (mq_unexpected (lit "start consuming queue " ++ amqp.quote q)) (
        with_channel amqp (λ ch.
          request (consumed ch (consumption_of q config))
            (amqp.consume ch (consumption_of q config))))

  unfoldable pub consume : Op E Consumer (List Delivery)
  consume = do ensure_not_nil; own ← read (λ s. s.own); consume_from own.consume_config own.queue
