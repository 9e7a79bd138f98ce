-- ===== src/Mq/Link/Methods.antt =====
-- internal/infra/mq/rabbitmq_producer.go and rabbitmq_consumer.go: what each method does to the
-- connection.
use kenshu_elaris_project_pa.Base.{ℕ, Option, none, some, [], ◌++◌, refl}
use kenshu_elaris_project_pa.Go.Text.{GoString, lit, text_eq}
use kenshu_elaris_project_pa.Go.Time.{Time}
use kenshu_elaris_project_pa.Go.Call.{Act, map_err, panicked, of_outcome, pure, throw}
use kenshu_elaris_project_pa.Errors.{GoError, foreign, mq_unexpected}
use kenshu_elaris_project_pa.Validation.{validate}
use kenshu_elaris_project_pa.Config.RabbitMq.{
  ExchangeConfig, PublishConfig, QueueConfig, BindingConfig, ConsumeConfig,
}
use kenshu_elaris_project_pa.Port.{Message}
use kenshu_elaris_project_pa.Mq.Broker.{
  Amqp, Store, BrokerEvent, read, request, set_channel, set_own, declared_exchange, declared_queue,
  bound_queue, consumed, sent,
}
use kenshu_elaris_project_pa.Mq.Channel.{
  ConnectionRef, channel_validator, new_rabbit_mq_channel, with_channel,
}
use kenshu_elaris_project_pa.Mq.Producer.{
  Producer, Encoding, exchange_of, new_rabbitmq_producer, declare_exchange, exchange_error,
  local_now, publication_of, encode, send_payload, publish,
}
use kenshu_elaris_project_pa.Mq.Consumer.{
  Consumer, binding_of, binding_error, consumption_of, new_rabbitmq_consumer, declare_on_channel,
  declare_queue, queue_error, bind_on_channel, bind_queue, ensure_not_nil, consume_from, consume,
}
use kenshu_elaris_project_pa.Mq.Link.{
  IsLinked, keeps, bind-IsLinked, map_err-IsLinked, Bool-IsLinked, Option-IsLinked,
}
use kenshu_elaris_project_pa.Mq.Link.Calls.{
  open_channel-IsLinked, reopen_channel-IsLinked, ensure_channel-IsLinked, with_channel-IsLinked,
}

module _ {E S : Type 0} (amqp : Amqp E) where
  new_rabbit_mq_channel-IsLinked :
      (connection : ConnectionRef) → IsLinked (new_rabbit_mq_channel {S = S} amqp connection)
  unfolding new_rabbit_mq_channel
  new_rabbit_mq_channel-IsLinked connection =
      Option-IsLinked (validate (channel_validator connection))
        (keeps (set_channel none) (λ w. refl)) (λ e. keeps (throw e) (λ w. refl))

  -- A request on the channel of the receiver.
  requested-IsLinked :
      {A : Type 0} (f : GoError → GoError) (event : ℕ → BrokerEvent) (act : ℕ → Act E GoError A)
      → IsLinked {S = S} (map_err f (with_channel amqp (λ ch. request (event ch) (act ch))))
  requested-IsLinked f event act = map_err-IsLinked f (
      with_channel-IsLinked amqp (λ ch. request (event ch) (act ch))
        (λ ch. keeps (request (event ch) (act ch)) (λ w. refl)))

  set_own-IsLinked : (own : S) → IsLinked (set_own {E = E} own)
  set_own-IsLinked own = keeps (set_own own) (λ w. refl)

module _ {E : Type 0} (amqp : Amqp E) where
  pub new_rabbitmq_producer-IsLinked :
      (connection : ConnectionRef) (config : PublishConfig)
      → IsLinked (new_rabbitmq_producer amqp connection config)
  unfolding new_rabbitmq_producer
  new_rabbitmq_producer-IsLinked connection config =
      bind-IsLinked (new_rabbit_mq_channel-IsLinked amqp connection) (λ (u : Unit {0}).
        bind-IsLinked
          (set_own-IsLinked amqp
            (record { exchange_name = []; exchange_kind = []; publish_config = config }))
          (λ (v : Unit {0}). open_channel-IsLinked amqp))

  pub declare_exchange-IsLinked :
      (config : ExchangeConfig) → IsLinked (declare_exchange amqp config)
  unfolding declare_exchange
  declare_exchange-IsLinked config =
      bind-IsLinked (keeps (read (λ s. s.own)) (λ w. refl)) (λ (own : Producer).
        bind-IsLinked
          (set_own-IsLinked amqp (record own {
            exchange_name = (exchange_of config).name;
            exchange_kind = (exchange_of config).kind;
          }))
          (λ (u : Unit {0}). bind-IsLinked (ensure_channel-IsLinked amqp) (λ (v : Unit {0}).
            requested-IsLinked amqp (exchange_error amqp config)
              (λ ch. declared_exchange ch (exchange_of config))
              (λ ch. amqp.exchange_declare ch (exchange_of config)))))

  pub publish-IsLinked :
      {TS : Type 0} (encoding : Encoding E TS) (message : Message TS) (routing_key : GoString)
      → IsLinked (publish amqp encoding message routing_key)
  unfolding publish encode send_payload local_now
  publish-IsLinked encoding message routing_key =
      bind-IsLinked (ensure_channel-IsLinked amqp) (λ (u : Unit {0}).
        bind-IsLinked
          (map_err-IsLinked (mq_unexpected (lit "failed to marshal protobuf message"))
            (keeps (of_outcome (encoding.marshal message)) (λ w. refl)))
          (λ (payload : GoString).
            bind-IsLinked (keeps (read (λ s. s)) (λ w. refl)) (λ (s : Store E Producer).
              bind-IsLinked (keeps (local_now amqp encoding) (λ w. refl)) (λ (timestamp : Time).
                let publication : _ =
                  publication_of amqp encoding s.own message routing_key payload s.outside
                    timestamp in
                requested-IsLinked amqp (mq_unexpected (lit "failed to publish protobuf message"))
                  (λ ch. sent ch publication) (λ ch. amqp.publish ch publication)))))

  pub new_rabbitmq_consumer-IsLinked :
      (connection : ConnectionRef) (config : ConsumeConfig)
      → IsLinked (new_rabbitmq_consumer amqp connection config)
  unfolding new_rabbitmq_consumer
  new_rabbitmq_consumer-IsLinked connection config =
      bind-IsLinked (new_rabbit_mq_channel-IsLinked amqp connection) (λ (u : Unit {0}).
        bind-IsLinked (set_own-IsLinked amqp (record { queue = none; consume_config = config }))
          (λ (v : Unit {0}). open_channel-IsLinked amqp))

  pub declare_queue-IsLinked : (config : QueueConfig) → IsLinked (declare_queue amqp config)
  unfolding declare_queue declare_on_channel
  declare_queue-IsLinked config = bind-IsLinked (ensure_channel-IsLinked amqp) (λ (u : Unit {0}).
      bind-IsLinked
        (requested-IsLinked amqp (queue_error amqp config) (λ ch. declared_queue ch config)
          (λ ch. amqp.queue_declare ch config))
        (λ (q : GoString).
          bind-IsLinked (keeps (read (λ s. s.own)) (λ w. refl))
            (λ (own : Consumer). set_own-IsLinked amqp (record own { queue = some q }))))

  pub bind_queue-IsLinked : (config : BindingConfig) → IsLinked (bind_queue amqp config)
  unfolding bind_queue bind_on_channel
  bind_queue-IsLinked config = bind-IsLinked (ensure_channel-IsLinked amqp) (λ (u : Unit {0}).
      bind-IsLinked (keeps (read (λ s. s.own.queue)) (λ w. refl)) (λ (queue : Option GoString).
        Option-IsLinked queue (keeps (throw (foreign (lit "queue not declared"))) (λ w. refl)) (λ q.
          Bool-IsLinked (text_eq config.exchange_name [])
            (keeps (throw (foreign (lit "exchange name is required"))) (λ w. refl))
            (requested-IsLinked amqp (binding_error amqp (binding_of q config))
              (λ ch. bound_queue ch (binding_of q config))
              (λ ch. amqp.queue_bind ch (binding_of q config))))))

  consume_from-IsLinked :
      (config : ConsumeConfig) (queue : Option GoString) → IsLinked (consume_from amqp config queue)
  unfolding consume_from
  consume_from-IsLinked config none = keeps (of_outcome panicked) (λ w. refl)
  consume_from-IsLinked config (some q) =
      requested-IsLinked amqp (mq_unexpected (lit "start consuming queue " ++ amqp.quote q))
        (λ ch. consumed ch (consumption_of q config))
        (λ ch. amqp.consume ch (consumption_of q config))

  pub consume-IsLinked : IsLinked (consume amqp)
  unfolding consume ensure_not_nil
  consume-IsLinked =
      bind-IsLinked
        (bind-IsLinked (keeps (read (λ s. s.channel)) (λ w. refl)) (λ (channel : Option ℕ).
          Option-IsLinked channel (reopen_channel-IsLinked amqp)
            (λ ch. keeps (pure tt) (λ w. refl))))
        (λ (u : Unit {0}).
          bind-IsLinked (keeps (read (λ s. s.own)) (λ w. refl))
            (λ (own : Consumer). consume_from-IsLinked own.consume_config own.queue))
