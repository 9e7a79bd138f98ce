-- ===== src/Tests/Broker.antt =====
-- Runs of the producers and the consumer on a broker that refuses the first two attempts to dial.

use kenshu_elaris_project_pa.Mq.Channel.{is_usable, ensure_channel, with_channel}
use kenshu_elaris_project_pa.Base.{
  ◌∷◌, ℕ, suc, ◌≡◌, refl, ltb, if◌then◌else◌, Bool, true, false, Option, none, some, [],
}
use kenshu_elaris_project_pa.Base.Int.{pos}
use kenshu_elaris_project_pa.Go.Text.{lit}
use kenshu_elaris_project_pa.Go.Time.{Time}
use kenshu_elaris_project_pa.Go.Call.{World, ok, err}
use kenshu_elaris_project_pa.Errors.{foreign}
use kenshu_elaris_project_pa.Config.RabbitMq.{
  RabbitMqConfig, ExchangeConfig, QueueConfig, BindingConfig, ConsumeConfig, PublishConfig,
}
use kenshu_elaris_project_pa.Port.{Message, payment_request}
use kenshu_elaris_project_pa.App.Mapper.{build_payment_request}
use kenshu_elaris_project_pa.Mq.Broker.{Amqp, RabbitMqConnection, Store, BrokerEvent}
use kenshu_elaris_project_pa.Mq.Connection.{uri_of, reconnect_locked, close}
use kenshu_elaris_project_pa.Mq.Connection.Dialling.{Run, reconnect_locked-Run}
use kenshu_elaris_project_pa.Mq.Producer.{
  Producer, Encoding, declare_exchange, publish, encode, send_payload, local_now,
}
use kenshu_elaris_project_pa.Mq.Consumer.{Consumer, consume, ensure_not_nil, consume_from}
use kenshu_elaris_project_pa.Mq.Lifecycle.{
  after, phase_of, Allowed, start, step, declares_exchange, closes,
}
use kenshu_elaris_project_pa.Mq.Lifecycle.Phases.{Reach-Allowed, Reach-closed}
use kenshu_elaris_project_pa.Mq.Shut.{shut_error, publish-IsShut}
use kenshu_elaris_project_pa.Mq.OnChannel.{IsSent, publish-ok, IsConsuming, consume-ok}
use kenshu_elaris_project_pa.Tests.Fixtures.{noon, bill}
use kenshu_elaris_project_pa.Tests.Services.{host}

-- The outside counts the calls.
abbrev pub amqp : Amqp ℕ
amqp = record {
  uri_string = λ u. u.host;
  dial = λ u n. (if ltb n 2 then err (foreign (lit "refused")) else ok 7, suc n);
  is_connection_closed = λ c n. false;
  close_connection = λ c n. (ok tt, suc n);
  open_channel = λ c n. (ok 3, suc n);
  is_channel_closed = λ ch n. false;
  close_channel = λ ch n. (ok tt, suc n);
  exchange_declare = λ ch x n. (ok tt, suc n);
  queue_declare = λ ch q n. (ok q.name, suc n);
  queue_bind = λ ch b n. (ok tt, suc n);
  publish = λ ch p n. (ok tt, suc n);
  consume = λ ch c n. (ok [], suc n);
  sleep = λ d n. n;
  quote = λ s. s;
}

abbrev pub encoding : Encoding ℕ Time
encoding = record {
  marshal = λ m. ok (lit "bytes");
  full_name = λ m. lit "dto.PaymentRequest";
  carrier = λ n. (lit "traceparent", lit "00-1") ∷ [];
  now = λ n. (noon, n);
}

abbrev pub exchange : ExchangeConfig
exchange = record {
  name = lit "payments";
  kind = [];
  durable = true;
  auto_delete = false;
  internal = false;
  no_wait = false;
}

abbrev pub queue : QueueConfig
queue = record {
  name = lit "invoice.requests";
  durable = true;
  auto_delete = false;
  exclusive = false;
  no_wait = false;
}

abbrev pub binding : BindingConfig
binding = record { exchange_name = lit "invoices"; routing_key = lit "new"; no_wait = false }

abbrev pub publishing : PublishConfig
publishing = record { mandatory = false; immediate = false }

abbrev pub consuming : ConsumeConfig
consuming = record {
  consumer = lit "app";
  auto_ack = false;
  exclusive = false;
  no_local = false;
  no_wait = false;
}

abbrev pub config : RabbitMqConfig
config = record {
  username = lit "u";
  password = lit "p";
  host = lit "mq";
  port = pos 5672;
  publishers = record {
    payment_exchange = exchange;
    payment_publish = publishing;
    guest_communication_exchange = exchange;
    guest_communication_publish = publishing;
  };
  consumers = record {
    invoice_queue = queue;
    invoice_binding = binding;
    invoice_consume = consuming;
  };
}

abbrev pub connection : Option ℕ → Bool → RabbitMqConnection
connection conn closed = record { conn = conn; cfg = config; closed = closed }

abbrev pub producing : Option ℕ → RabbitMqConnection → World (Store ℕ Producer) BrokerEvent
producing channel c = record {
  env = record {
    outside = 0;
    connection = c;
    channel = channel;
    own = record {
      exchange_name = lit "payments";
      exchange_kind = lit "direct";
      publish_config = publishing;
    };
  };
  trace = [];
}

abbrev receiving : Option ℕ → RabbitMqConnection → World (Store ℕ Consumer) BrokerEvent
receiving channel c = record {
  env = record {
    outside = 0;
    connection = c;
    channel = channel;
    own = record { queue = some (lit "invoice.requests"); consume_config = consuming };
  };
  trace = [];
}

abbrev ending : RabbitMqConnection → World (Store ℕ (Unit {0})) BrokerEvent
ending c = record {
  env = record { outside = 4; connection = c; channel = none; own = tt };
  trace = [];
}

abbrev pub message : Message Time
message = payment_request (build_payment_request (λ t. t) bill host)

-- The connection when the exchange has been declared.
abbrev declared : RabbitMqConnection
declared = after (declare_exchange amqp exchange) (producing none (connection none false))

reconnect_locked-Run_example :
    Run amqp
      (lit "mq")
      4
      (producing none (connection none false))
      (reconnect_locked amqp (producing none (connection none false)))
unfolding lit uri_of
reconnect_locked-Run_example =
    reconnect_locked-Run amqp (producing none (connection none false)) refl

Reach-Allowed_example :
    Allowed (phase_of (connection none false)) (phase_of (after (close amqp) (ending declared)))
    × ((after (close amqp) (ending declared)).cfg ≡ config)
Reach-Allowed_example = Reach-Allowed amqp encoding (
    step (step start (declares_exchange (producing none (connection none false)) exchange))
      (closes (ending declared)))

Reach-closed_example :
    after (declare_exchange amqp exchange) (producing none (connection (some 7) true))
    ≡ connection (some 7) true
Reach-closed_example =
    Reach-closed amqp encoding
      (step start (declares_exchange (producing none (connection (some 7) true)) exchange)) refl

publish-IsShut_example :
    publish amqp encoding message (lit "guest.P1") (producing none (connection (some 7) true))
    ≡ (err shut_error, producing none (connection (some 7) true))
unfolding is_usable
publish-IsShut_example =
    publish-IsShut amqp encoding message (lit "guest.P1")
      (producing none (connection (some 7) true)) (record { closed = refl; unusable = refl })

-- A producer and a consumer with an open channel.
abbrev producing_open : World (Store ℕ Producer) BrokerEvent
producing_open = producing (some 3) (connection (some 7) false)

abbrev receiving_open : World (Store ℕ Consumer) BrokerEvent
receiving_open = receiving (some 3) (connection (some 7) false)

publish-ok_example :
    (ready : World (Store ℕ Producer) BrokerEvent) × (ensure_channel amqp producing_open
      ≡ (ok tt, ready))
    × IsSent amqp encoding message
        (lit "guest.P1")
        ready
        (publish amqp encoding message (lit "guest.P1") producing_open).1
unfolding publish ensure_channel is_usable encode send_payload with_channel local_now
publish-ok_example =
    publish-ok amqp encoding message (lit "guest.P1") producing_open
      (publish amqp encoding message (lit "guest.P1") producing_open).1 refl

consume-ok_example :
    (ready : World (Store ℕ Consumer) BrokerEvent) × (ensure_not_nil amqp receiving_open
      ≡ (ok tt, ready))
    × IsConsuming amqp ready (consume amqp receiving_open).1 []
unfolding consume ensure_not_nil consume_from with_channel
consume-ok_example = consume-ok amqp receiving_open (consume amqp receiving_open).1 [] refl
