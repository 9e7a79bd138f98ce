-- ===== src/Mq/Shut.antt =====
-- internal/infra/mq after Close: what the methods do when the connection is closed and the channel
-- of their receiver is not usable.
use kenshu_elaris_project_pa.Base.{◌≡◌, refl, sym, subst, true, false, some}
use kenshu_elaris_project_pa.Go.Text.{GoString, lit}
use kenshu_elaris_project_pa.Go.Call.{World, err, pure, bind-err, map_err-err, catch, ◌>>=◌}
use kenshu_elaris_project_pa.Errors.{GoError, mq_unexpected}
use kenshu_elaris_project_pa.Config.RabbitMq.{QueueConfig, BindingConfig}
use kenshu_elaris_project_pa.Port.{Message}
use kenshu_elaris_project_pa.Mq.Broker.{Amqp, Store, BrokerEvent, Op, set_channel}
use kenshu_elaris_project_pa.Mq.Connection.{connection_closed, open_connection}
use kenshu_elaris_project_pa.Mq.Channel.{
  is_usable, channel_on, retry_channel, open_channel, reopen_channel, ensure_channel,
}
use kenshu_elaris_project_pa.Mq.Producer.{Producer, Encoding, encode, send_payload, publish}
use kenshu_elaris_project_pa.Mq.Consumer.{
  Consumer, declare_on_channel, declare_queue, bind_on_channel, bind_queue,
}

-- The connection is closed, and the channel of the receiver is nil or closed.
pub record IsShut {E S : Type 0} (amqp : Amqp E) (w : World (Store E S) BrokerEvent) : Type 0 where
  pub closed : w.env.connection.closed ≡ true
  pub unusable : is_usable amqp w.env.channel w.env.outside ≡ false

-- What every method returns then.
abbrev pub shut_error : GoError
shut_error = mq_unexpected (lit "unexpected error when reopening channel") connection_closed

module _ {E S : Type 0} (amqp : Amqp E) where
  open_connection-closed :
      (w : World (Store E S) BrokerEvent)
      → w.env.connection.closed ≡ true
      → open_connection amqp w ≡ (err connection_closed, w)
  unfolding open_connection
  open_connection-closed w h = rw (h) refl

  open_channel-closed :
      (w : World (Store E S) BrokerEvent)
      → w.env.connection.closed ≡ true
      → open_channel amqp w ≡ (err connection_closed, w)
  unfolding open_channel
  open_channel-closed w h =
      bind-err (open_connection amqp)
        (λ conn.
          catch (channel_on amqp conn) (retry_channel amqp conn) >>= (λ ch. set_channel (some ch)))
        w (open_connection-closed w h)

  reopen_channel-closed :
      (w : World (Store E S) BrokerEvent)
      → w.env.connection.closed ≡ true
      → reopen_channel amqp w ≡ (err shut_error, w)
  unfolding reopen_channel
  reopen_channel-closed w h =
      map_err-err (mq_unexpected (lit "unexpected error when reopening channel"))
        (open_channel amqp) w (open_channel-closed w h)

  pub ensure_channel-IsShut :
      (w : World (Store E S) BrokerEvent)
      → IsShut amqp w
      → ensure_channel amqp w ≡ (err shut_error, w)
  unfolding ensure_channel
  ensure_channel-IsShut w h =
      subst
        (λ b.
          (elim b as (λ x. Op E S (Unit {0})) [ true ↦ pure tt | false ↦ reopen_channel amqp ]) w
          ≡ (err shut_error, w))
        (sym h.unusable) (reopen_channel-closed w h.closed)

module _ {E TS : Type 0} (amqp : Amqp E) (encoding : Encoding E TS) where
  -- On a connection that Close has marked, a producer whose channel is nil or closed publishes
  -- nothing: Publish returns the error of the closed connection, whatever the message is, without
  -- a call of the package and without a change of its state.
  pub publish-IsShut :
      (message : Message TS) (routing_key : GoString) (w : World (Store E Producer) BrokerEvent)
      → IsShut amqp w
      → publish amqp encoding message routing_key w ≡ (err shut_error, w)
  unfolding publish
  publish-IsShut message routing_key w h =
      bind-err (ensure_channel amqp)
        (λ u. encode amqp encoding message >>= send_payload amqp encoding message routing_key) w
        (ensure_channel-IsShut amqp w h)

module _ {E : Type 0} (amqp : Amqp E) where
  -- On a connection that Close has marked, a consumer whose channel is nil or closed declares and
  -- binds nothing: both calls return the error of the closed connection, without a call of the
  -- package and without a change of its state.
  pub consumer-IsShut :
      (config : QueueConfig) (binding : BindingConfig) (w : World (Store E Consumer) BrokerEvent)
      → IsShut amqp w
      → (declare_queue amqp config w ≡ (err shut_error, w))
        × (bind_queue amqp binding w ≡ (err shut_error, w))
  unfolding declare_queue bind_queue
  consumer-IsShut config binding w h = (
    bind-err (ensure_channel amqp) (λ u. declare_on_channel amqp config) w
        (ensure_channel-IsShut amqp w h),
    bind-err (ensure_channel amqp) (λ u. bind_on_channel amqp binding) w
        (ensure_channel-IsShut amqp w h),
  )
