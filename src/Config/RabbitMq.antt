-- ===== src/Config/RabbitMq.antt =====
-- internal/config/rabbitmq_config.go, and the RabbitMQ part of internal/config/config.go.
use kenshu_elaris_project_pa.Base.{Bool}
use kenshu_elaris_project_pa.Base.Int.{ℤ}
use kenshu_elaris_project_pa.Go.Text.{GoString}

-- A text that is logged as REDACTED.
abbrev pub Secret : Type 0
Secret = GoString

pub record ExchangeConfig : Type 0 where
  pub name : GoString
  pub kind : GoString
  pub durable : Bool
  pub auto_delete : Bool
  pub internal : Bool
  pub no_wait : Bool

pub record QueueConfig : Type 0 where
  pub name : GoString
  pub durable : Bool
  pub auto_delete : Bool
  pub exclusive : Bool
  pub no_wait : Bool

pub record BindingConfig : Type 0 where
  pub exchange_name : GoString
  pub routing_key : GoString
  pub no_wait : Bool

pub record PublishConfig : Type 0 where
  pub mandatory : Bool
  pub immediate : Bool

pub record ConsumeConfig : Type 0 where
  pub consumer : GoString
  pub auto_ack : Bool
  pub exclusive : Bool
  pub no_local : Bool
  pub no_wait : Bool

pub record Publishers : Type 0 where
  pub payment_exchange : ExchangeConfig
  pub payment_publish : PublishConfig
  pub guest_communication_exchange : ExchangeConfig
  pub guest_communication_publish : PublishConfig

pub record Consumers : Type 0 where
  pub invoice_queue : QueueConfig
  pub invoice_binding : BindingConfig
  pub invoice_consume : ConsumeConfig

pub record RabbitMqConfig : Type 0 where
  pub username : Secret
  pub password : Secret
  pub host : GoString
  pub port : ℤ
  pub publishers : Publishers
  pub consumers : Consumers
