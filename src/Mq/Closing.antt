-- ===== src/Mq/Closing.antt =====
-- internal/infra/mq: that Close and CloseChannel only close.
use kenshu_elaris_project_pa.Base.{
  ℕ, Bool, true, false, if◌then◌else◌, refl, Option, none, some, [], ◌∷◌, ◌&◌,
}
use kenshu_elaris_project_pa.Go.Call.{Act, pure, ◌>>=◌}
use kenshu_elaris_project_pa.Go.Call.Emits.{Emits, silent, bind-Emits}
use kenshu_elaris_project_pa.Errors.{GoError}
use kenshu_elaris_project_pa.Mq.Broker.{
  Amqp, RabbitMqConnection, Store, BrokerEvent, dialled, slept, closed_connection, opened_channel,
  closed_channel, declared_exchange, declared_queue, bound_queue, consumed, sent, Op, read,
  set_connection, request,
}
use kenshu_elaris_project_pa.Mq.Connection.{close}
use kenshu_elaris_project_pa.Mq.Channel.{close_channel}

-- A call that closes the connection or a channel.
abbrev pub Closes : BrokerEvent → Type 0
Closes (closed_connection c) = Unit
Closes (closed_channel ch) = Unit
Closes (dialled u) = ⊥
Closes (slept d) = ⊥
Closes (opened_channel c) = ⊥
Closes (declared_exchange ch x) = ⊥
Closes (declared_queue ch q) = ⊥
Closes (bound_queue ch b) = ⊥
Closes (sent ch p) = ⊥
Closes (consumed ch c) = ⊥

module _ {E S : Type 0} (amqp : Amqp E) where
  request-Emits :
      (event : BrokerEvent) (act : Act E GoError (Unit {0}))
      → Closes event
      → Emits Closes (request {S = S} event act)
  request-Emits event act p = record {
    emits = λ w. record { calls = event ∷ []; appended = refl; holds = p & tt };
  }

  close_open-Emits :
      (c : ℕ) (closed : Bool)
      → Emits Closes (
          if closed
          then pure tt
          else request {S = S} (closed_connection c) (amqp.close_connection c))
  close_open-Emits c true = silent (pure tt) (λ w. refl)
  close_open-Emits c false = request-Emits (closed_connection c) (amqp.close_connection c) tt

  disconnect-Emits :
      (conn : Option ℕ)
      → Emits Closes (elim conn as (λ x. Op E S (Unit {0})) [
        | none ↦ pure tt
        | some c ↦ do
          closed ← read (λ s. amqp.is_connection_closed c s.outside)
          if closed then pure tt else request (closed_connection c) (amqp.close_connection c)
      ])
  disconnect-Emits none = silent (pure tt) (λ w. refl)
  disconnect-Emits (some c) =
      bind-Emits (silent (read (λ s. amqp.is_connection_closed c s.outside)) (λ w. refl))
        (close_open-Emits c)

  pub close-Emits : Emits Closes (close {S = S} amqp)
  unfolding close
  close-Emits =
      bind-Emits (silent (read (λ s. s.connection)) (λ w. refl))
        (λ (connection : RabbitMqConnection).
          bind-Emits (silent (set_connection (record connection { closed = true })) (λ w. refl))
            (λ (u : Unit {0}). disconnect-Emits connection.conn))

  close_usable-Emits :
      (ch : ℕ) (closed : Bool)
      → Emits Closes (elim closed as (λ x. Op E S (Unit {0})) [
        | true ↦ pure tt
        | false ↦ request (closed_channel ch) (amqp.close_channel ch)
      ])
  close_usable-Emits ch true = silent (pure tt) (λ w. refl)
  close_usable-Emits ch false = request-Emits (closed_channel ch) (amqp.close_channel ch) tt

  leave-Emits :
      (channel : Option ℕ) (outside : E)
      → Emits Closes (elim channel as (λ x. Op E S (Unit {0})) [
        | none ↦ pure tt
        | some ch ↦ elim (amqp.is_channel_closed ch outside) as (λ x. Op E S (Unit {0})) [
          | true ↦ pure tt
          | false ↦ request (closed_channel ch) (amqp.close_channel ch)
        ]
      ])
  leave-Emits none outside = silent (pure tt) (λ w. refl)
  leave-Emits (some ch) outside = close_usable-Emits ch (amqp.is_channel_closed ch outside)

  pub close_channel-Emits : Emits Closes (close_channel {S = S} amqp)
  unfolding close_channel
  close_channel-Emits =
      bind-Emits (silent (read (λ s. s)) (λ w. refl))
        (λ (s : Store E S). leave-Emits s.channel s.outside)
