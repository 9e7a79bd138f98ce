-- ===== src/Mq/Producer.antt =====
-- internal/infra/mq/rabbitmq_producer.go
use kenshu_elaris_project_pa.Base.{ℕ, List, [], ◌∷◌, ◌++◌, if◌then◌else◌}
use kenshu_elaris_project_pa.Go.Text.{GoString, lit, text_eq}
use kenshu_elaris_project_pa.Go.Time.{Time}
use kenshu_elaris_project_pa.Go.Call.{Outcome, ok, World, ◌>>=◌, ◌>>◌, of_outcome, map_err}
use kenshu_elaris_project_pa.Errors.{GoError, wrapped, error_text, mq_unexpected}
use kenshu_elaris_project_pa.Config.RabbitMq.{ExchangeConfig, PublishConfig}
use kenshu_elaris_project_pa.Port.{Message, MqProducer}
use kenshu_elaris_project_pa.Mq.Broker.{
  Exchange, Publication, Amqp, Store, BrokerEvent, declared_exchange, sent, Op, read, set_own,
  request,
}
use kenshu_elaris_project_pa.Mq.Channel.{
  ConnectionRef, new_rabbit_mq_channel, open_channel, ensure_channel, with_channel,
}

-- The fields of rabbitmqProducer beside the channel.
pub record Producer : Type 0 where
  pub exchange_name : GoString
  pub exchange_kind : GoString
  pub publish_config : PublishConfig

-- What Publish uses of other packages: proto.Marshal, the full name of a message's descriptor, the
-- entries that the propagator injects where the context has a trace, and the local clock.
pub record Encoding (E TS : Type 0) : Type 0 where
  pub marshal : Message TS → Outcome GoError GoString
  pub full_name : Message TS → GoString
  pub carrier : E → List (GoString × GoString)
  pub now : E → Time × E

-- An entry of a map from texts to texts.
unfoldable pub set_entry :
    GoString → GoString → List (GoString × GoString) → List (GoString × GoString)
set_entry k v [] = (k, v) ∷ []
set_entry k v ((j, u) ∷ m) = if text_eq j k then (k, v) ∷ m else (j, u) ∷ set_entry k v m

-- The loop that copies the carrier into the headers.
unfoldable pub set_entries :
    List (GoString × GoString) → List (GoString × GoString) → List (GoString × GoString)
unfolding set_entry
set_entries [] headers = headers
set_entries ((k, v) ∷ carrier) headers = set_entries carrier (set_entry k v headers)

-- amqp.Persistent
abbrev pub persistent : ℕ
persistent = 2

unfoldable pub exchange_of : ExchangeConfig → Exchange
unfolding text_eq
exchange_of config = record {
  name = config.name;
  kind = if text_eq config.kind [] then lit "direct" else config.kind;
  durable = config.durable;
  auto_delete = config.auto_delete;
  internal = config.internal;
  no_wait = config.no_wait;
}

module _ {E : Type 0} (amqp : Amqp E) where
  unfoldable pub new_rabbitmq_producer : ConnectionRef → PublishConfig → Op E Producer (Unit {0})
  new_rabbitmq_producer connection publish_config = do
    new_rabbit_mq_channel amqp connection
    set_own (record { exchange_name = []; exchange_kind = []; publish_config = publish_config })
    open_channel amqp

  -- The error of DeclareExchange.
  unfoldable pub exchange_error : ExchangeConfig → GoError → GoError
  exchange_error config e =
      wrapped (lit "declare exchange " ++ (amqp.quote config.name ++ (lit ": " ++ error_text e))) e

  unfoldable pub declare_exchange : ExchangeConfig → Op E Producer (Unit {0})
  unfolding exchange_of exchange_error
  declare_exchange config = do
    own ← read (λ s. s.own)
    let exchange = exchange_of config
    set_own (record own { exchange_name = exchange.name; exchange_kind = exchange.kind })
    ensure_channel amqp
    map_err (exchange_error config) (
        with_channel amqp
          (λ ch. request (declared_exchange ch exchange) (amqp.exchange_declare ch exchange)))

  module _ {TS : Type 0} (encoding : Encoding E TS) where
    -- The headers of a message.
    unfoldable pub headers_of : Message TS → E → List (GoString × GoString)
    unfolding set_entries
    headers_of message outside =
        set_entries (encoding.carrier outside)
          ((lit "message_type", encoding.full_name message) ∷ [])

    -- time.Now()
    unfoldable pub local_now : Op E Producer Time
    local_now w =
        let (t, e) = encoding.now w.env.outside in
        (ok t, record w { env = record w.env { outside = e } })

    -- The message that Publish sends.
    unfoldable pub publication_of :
        Producer → Message TS → GoString → GoString → E → Time → Publication
    unfolding headers_of
    publication_of own message routing_key payload outside timestamp = record {
      exchange = own.exchange_name;
      routing_key = routing_key;
      mandatory = own.publish_config.mandatory;
      immediate = own.publish_config.immediate;
      publishing = record {
        content_type = lit "application/protobuf";
        body = payload;
        delivery_mode = persistent;
        headers = headers_of message outside;
        timestamp = timestamp;
      };
    }

    -- What Publish does with the encoded message.
    unfoldable pub send_payload : Message TS → GoString → GoString → Op E Producer (Unit {0})
    unfolding local_now
    send_payload message routing_key payload = do
      s ← read (λ s. s)
      timestamp ← local_now
      let publication = publication_of s.own message routing_key payload s.outside timestamp
      map_err (mq_unexpected (lit "failed to publish protobuf message"))
          (with_channel amqp (λ ch. request (sent ch publication) (amqp.publish ch publication)))

    unfoldable pub encode : Message TS → Op E Producer GoString
    encode message =
        map_err (mq_unexpected (lit "failed to marshal protobuf message"))
          (of_outcome (encoding.marshal message))

    unfoldable pub publish : Message TS → GoString → Op E Producer (Unit {0})
    unfolding encode
    publish message routing_key = do
      ensure_channel amqp
      payload ← encode message
      send_payload message routing_key payload

    -- The port that the services call, over the state of this producer.
    unfoldable pub mq_producer : MqProducer (World (Store E Producer) BrokerEvent) TS
    mq_producer = record { publish = publish }
