-- ===== src/Fakes/Mq.antt =====
-- internal/infra/mq/fakes
use mathlib.Core.Option
use kenshu_elaris_project_pa.Base.{ℕ, suc, Bool, Option, none, some, List}
use kenshu_elaris_project_pa.Go.Text.{GoString}
use kenshu_elaris_project_pa.Go.Call.{Outcome, ok, err, Act}
use kenshu_elaris_project_pa.Errors.{GoError}
use kenshu_elaris_project_pa.Config.RabbitMq.{ExchangeConfig, QueueConfig, BindingConfig}
use kenshu_elaris_project_pa.Port.{Message, MqProducer, Acknowledger}
use kenshu_elaris_project_pa.App.Unmarshal.{Delivery}
use kenshu_elaris_project_pa.Fakes.{or_zero, noting}

-- FakeMqProducer: the functions, and what it keeps of the calls; `none` is a zero value that no call
-- has replaced.
pub record MqProducerFns (S TS : Type 0) : Type 0 where
  pub declare_exchange_fn : Option (ExchangeConfig → Act S GoError (Unit {0}))
  pub publish_fn : Option (Message TS → GoString → Act S GoError (Unit {0}))
  pub close_channel_fn : Option (Act S GoError (Unit {0}))

pub record MqProducerCalls (TS : Type 0) : Type 0 where
  pub declare_exchange_call_count : ℕ
  pub publish_call_count : ℕ
  pub close_channel_call_count : ℕ
  pub last_declared_exchange : Option ExchangeConfig
  pub last_published_message : Option (Message TS)
  pub last_published_routing_key : GoString

module _ {S TS : Type 0} (fns : MqProducerFns S TS) where
  unfoldable pub declare_exchange : ExchangeConfig → Act (MqProducerCalls TS × S) GoError (Unit {0})
  declare_exchange cfg =
      noting
        (λ c. record c {
          declare_exchange_call_count = suc c.declare_exchange_call_count;
          last_declared_exchange = some cfg;
        })
        (or_zero (Option.map (λ f. f cfg) fns.declare_exchange_fn) tt)

  unfoldable pub publish : Message TS → GoString → Act (MqProducerCalls TS × S) GoError (Unit {0})
  publish message routing_key =
      noting
        (λ c. record c {
          publish_call_count = suc c.publish_call_count;
          last_published_message = some message;
          last_published_routing_key = routing_key;
        })
        (or_zero (Option.map (λ f. f message routing_key) fns.publish_fn) tt)

  unfoldable pub close_producer_channel : Act (MqProducerCalls TS × S) GoError (Unit {0})
  close_producer_channel =
      noting (λ c. record c { close_channel_call_count = suc c.close_channel_call_count })
        (or_zero fns.close_channel_fn tt)

  unfoldable pub fake_mq_producer : MqProducer (MqProducerCalls TS × S) TS
  unfolding publish
  fake_mq_producer = record { publish = publish }

-- FakeMqConsumer. A nil channel of deliveries is one that holds none.
pub record MqConsumerFns (S : Type 0) : Type 0 where
  pub declare_queue_fn : Option (QueueConfig → Act S GoError (Unit {0}))
  pub bind_queue_fn : Option (BindingConfig → Act S GoError (Unit {0}))
  pub consume_fn : Option (Act S GoError (Option (List Delivery)))
  pub close_channel_fn : Option (Act S GoError (Unit {0}))

pub record MqConsumerCalls : Type 0 where
  pub declare_queue_call_count : ℕ
  pub bind_queue_call_count : ℕ
  pub consume_call_count : ℕ
  pub close_channel_call_count : ℕ
  pub last_declared_queue : Option QueueConfig
  pub last_bound_queue : Option BindingConfig

module _ {S : Type 0} (fns : MqConsumerFns S) where
  unfoldable pub declare_queue : QueueConfig → Act (MqConsumerCalls × S) GoError (Unit {0})
  declare_queue cfg =
      noting
        (λ c. record c {
          declare_queue_call_count = suc c.declare_queue_call_count;
          last_declared_queue = some cfg;
        })
        (or_zero (Option.map (λ f. f cfg) fns.declare_queue_fn) tt)

  unfoldable pub bind_queue : BindingConfig → Act (MqConsumerCalls × S) GoError (Unit {0})
  bind_queue cfg =
      noting
        (λ c. record c {
          bind_queue_call_count = suc c.bind_queue_call_count;
          last_bound_queue = some cfg;
        })
        (or_zero (Option.map (λ f. f cfg) fns.bind_queue_fn) tt)

  -- The channel of the deliveries; `none` is a nil channel.
  unfoldable pub consume : Act (MqConsumerCalls × S) GoError (Option (List Delivery))
  consume =
      noting (λ c. record c { consume_call_count = suc c.consume_call_count })
        (or_zero fns.consume_fn none)

  unfoldable pub close_consumer_channel : Act (MqConsumerCalls × S) GoError (Unit {0})
  close_consumer_channel =
      noting (λ c. record c { close_channel_call_count = suc c.close_channel_call_count })
        (or_zero fns.close_channel_fn tt)

-- FakeAcknowledger: the errors that it returns, and what it keeps of the calls.
pub record AcknowledgerErrs : Type 0 where
  pub ack_err : Option GoError
  pub nack_err : Option GoError
  pub reject_err : Option GoError

pub record AcknowledgerCalls : Type 0 where
  pub ack_calls : ℕ
  pub nack_calls : ℕ
  pub reject_calls : ℕ
  pub last_ack_tag : ℕ
  pub last_ack_multiple : Bool
  pub last_nack_tag : ℕ
  pub last_nack_multiple : Bool
  pub last_nack_requeue : Bool
  pub last_reject_tag : ℕ
  pub last_reject_requeue : Bool

-- An error that is nil or not.
abbrev pub returned : Option GoError → Outcome GoError (Unit {0})
returned none = ok tt
returned (some e) = err e

module _ (errs : AcknowledgerErrs) where
  unfoldable pub ack : ℕ → Bool → Act AcknowledgerCalls GoError (Unit {0})
  ack tag multiple c = (
    returned errs.ack_err,
    record c { ack_calls = suc c.ack_calls; last_ack_tag = tag; last_ack_multiple = multiple },
  )

  unfoldable pub nack : ℕ → Bool → Bool → Act AcknowledgerCalls GoError (Unit {0})
  nack tag multiple requeue c = (
    returned errs.nack_err,
    record c {
      nack_calls = suc c.nack_calls;
      last_nack_tag = tag;
      last_nack_multiple = multiple;
      last_nack_requeue = requeue;
    },
  )

  unfoldable pub reject : ℕ → Bool → Act AcknowledgerCalls GoError (Unit {0})
  reject tag requeue c = (
    returned errs.reject_err,
    record c {
      reject_calls = suc c.reject_calls;
      last_reject_tag = tag;
      last_reject_requeue = requeue;
    },
  )

  unfoldable pub fake_acknowledger : Acknowledger AcknowledgerCalls
  unfolding ack nack
  fake_acknowledger = record { ack = ack; nack = nack }
