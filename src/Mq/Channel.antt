-- ===== src/Mq/Channel.antt =====
-- internal/infra/mq/rabbitmq_channel.go
use kenshu_elaris_project_pa.Base.{ℕ, Bool, true, false, not, Option, none, some}
use kenshu_elaris_project_pa.Go.Text.{lit}
use kenshu_elaris_project_pa.Go.Call.{panicked, ◌>>=◌, pure, throw, of_outcome, catch, map_err}
use kenshu_elaris_project_pa.Errors.{GoError, mq_unexpected}
use kenshu_elaris_project_pa.Validation.{Validator, pointer, ◌▷◌, new_validator, not_nil, validate}
use kenshu_elaris_project_pa.Mq.Broker.{
  Amqp, opened_channel, closed_channel, Op, read, set_channel, request,
}
use kenshu_elaris_project_pa.Mq.Connection.{open_connection}

-- A *RabbitMqConnection: nil, or the connection of the store.
abbrev pub ConnectionRef : Type 0
ConnectionRef = Option (Unit {0})

unfoldable pub channel_validator : ConnectionRef → Validator
unfolding new_validator not_nil
channel_validator connection =
    new_validator ▷ not_nil (lit "rabbitmq_connection") (pointer connection)

-- Whether the channel is there and open.
unfoldable pub is_usable : {E : Type 0} → Amqp E → Option ℕ → E → Bool
is_usable amqp none outside = false
is_usable amqp (some ch) outside = not (amqp.is_channel_closed ch outside)

module _ {E S : Type 0} (amqp : Amqp E) where
  -- NewRabbitMqChannel
  unfoldable pub new_rabbit_mq_channel : ConnectionRef → Op E S (Unit {0})
  new_rabbit_mq_channel connection = elim (validate (channel_validator connection)) [
    | some e ↦ throw e
    | none ↦ set_channel none
  ]

  -- conn.Channel() on what openConnection returned.
  unfoldable pub channel_on : Option ℕ → Op E S ℕ
  channel_on none = of_outcome panicked
  channel_on (some c) = request (opened_channel c) (amqp.open_channel c)

  unfoldable pub is_closed_on : Option ℕ → Op E S Bool
  is_closed_on none = of_outcome panicked
  is_closed_on (some c) = read (λ s. amqp.is_connection_closed c s.outside)

  -- What openChannel does when the first attempt has failed with `e` on `conn`.
  unfoldable pub retry_channel : Option ℕ → GoError → Op E S ℕ
  unfolding channel_on is_closed_on
  retry_channel conn e = do
    closed ← is_closed_on conn
    elim closed [ false ↦ throw e | true ↦ do again ← open_connection amqp; channel_on again ]

  unfoldable pub open_channel : Op E S (Unit {0})
  open_channel = do
    conn ← open_connection amqp
    ch ← catch (channel_on conn) (retry_channel conn)
    set_channel (some ch)

  unfoldable pub reopen_channel : Op E S (Unit {0})
  reopen_channel =
      map_err (mq_unexpected (lit "unexpected error when reopening channel")) open_channel

  -- The guard of the methods that need an open channel.
  unfoldable pub ensure_channel : Op E S (Unit {0})
  ensure_channel = do
    s ← read (λ s. s)
    elim (is_usable amqp s.channel s.outside) [ true ↦ pure tt | false ↦ reopen_channel ]

  unfoldable pub close_channel : Op E S (Unit {0})
  close_channel = do
    s ← read (λ s. s)
    elim s.channel [
      | none ↦ pure tt
      | some ch ↦ elim (amqp.is_channel_closed ch s.outside) [
        | true ↦ pure tt
        | false ↦ request (closed_channel ch) (amqp.close_channel ch)
      ]
    ]

  -- A method call on the channel of the receiver, which panics on a nil one.
  unfoldable pub with_channel : {A : Type 0} → (ℕ → Op E S A) → Op E S A
  with_channel f = do
    channel ← read (λ s. s.channel)
    elim channel [ none ↦ of_outcome panicked | some ch ↦ f ch ]
