-- ===== src/Mq/Connection.antt =====
-- internal/infra/mq/rabbitmq_connection.go. The methods hold the mutex for their whole length, so
-- each is one step.
pub mod Dialling
use kenshu_elaris_project_pa.Base.{
  ℕ, zero, suc, ◌+◌, Bool, true, false, not, Option, none, some, [], ◌∷◌, ◌++◌, ltb, if◌then◌else◌,
}
use kenshu_elaris_project_pa.Go.Text.{GoString, lit, show_nat}
use kenshu_elaris_project_pa.Go.Call.{
  Outcome, ok, err, panicked, Call, ◌>>=◌, ◌>>◌, pure, throw, catch,
}
use kenshu_elaris_project_pa.Errors.{GoError, foreign, wrapped, error_text}
use kenshu_elaris_project_pa.Validation.{
  Validator, int, ◌▷◌, new_validator, not_blank, positive_value, validate,
}
use kenshu_elaris_project_pa.Config.RabbitMq.{RabbitMqConfig}
use kenshu_elaris_project_pa.Mq.Broker.{
  Uri, Amqp, RabbitMqConnection, Store, dialled, slept, closed_connection, Op, read, set_connection,
  request,
}

abbrev pub rabbit_dial_attempts : ℕ
rabbit_dial_attempts = 5

-- Two seconds, in nanoseconds.
abbrev pub rabbit_dial_backoff : ℕ
rabbit_dial_backoff = 2000000000

unfoldable pub connection_validator : RabbitMqConfig → Validator
unfolding new_validator not_blank positive_value
connection_validator cfg =
    new_validator
    ▷ not_blank (lit "rabbitmq.username") cfg.username
    ▷ not_blank (lit "rabbitmq.password") cfg.password
    ▷ not_blank (lit "rabbitmq.host") cfg.host
    ▷ positive_value (lit "rabbitmq.port") (some (int cfg.port))

unfoldable pub connection_closed : GoError
connection_closed = foreign (lit "rabbitmq connection closed")

unfoldable pub uri_of : RabbitMqConfig → Uri
uri_of cfg = record {
  scheme = lit "amqp";
  username = cfg.username;
  password = cfg.password;
  host = cfg.host;
  port = cfg.port;
}

-- The error after the last attempt; fmt writes a nil error as %!w(<nil>).
unfoldable pub dial_error : Option GoError → GoError
dial_error none = foreign (lit "dial rabbitmq after 5 attempts: %!w(<nil>)")
dial_error (some e) = wrapped (lit "dial rabbitmq after 5 attempts: " ++ error_text e) e

-- Whether the connection is there and open.
unfoldable pub is_live : {E : Type 0} → Amqp E → RabbitMqConnection → E → Bool
is_live amqp connection outside = elim connection.conn [
  | none ↦ false
  | some c ↦ not (amqp.is_connection_closed c outside)
]

module _ {E S : Type 0} (amqp : Amqp E) where
  -- The wait between two attempts, which the last one leaves out.
  unfoldable pub backoff : ℕ → Op E S (Unit {0})
  backoff attempt w =
      if ltb attempt rabbit_dial_attempts
      then (
        ok tt,
        record {
          env = record w.env { outside = amqp.sleep rabbit_dial_backoff w.env.outside };
          trace = w.trace ++ slept rabbit_dial_backoff ∷ [];
        },
      )
      else (ok tt, w)

  unfoldable pub set_conn : ℕ → Op E S (Unit {0})
  set_conn c = do
    connection ← read (λ s. s.connection)
    set_connection (record connection { conn = some c })

  -- The loop of reconnectLocked, with the rounds left, the number of the attempt, and lastErr.
  unfoldable pub dial_loop : GoString → ℕ → ℕ → Option GoError → Op E S (Unit {0})
  unfolding set_conn
  dial_loop uri zero attempt last = throw (dial_error last)
  dial_loop uri (suc left) attempt last =
      catch (request (dialled uri) (amqp.dial uri) >>= set_conn)
        (λ e. backoff attempt >> dial_loop uri left (attempt + 1) (some e))

  unfoldable pub reconnect_locked : Op E S (Unit {0})
  reconnect_locked = do
    connection ← read (λ s. s.connection)
    elim connection.closed [
      | true ↦ throw connection_closed
      | false ↦ dial_loop (amqp.uri_string (uri_of connection.cfg)) rabbit_dial_attempts 1 none
    ]

  -- NewRabbitMqConnection: the connection of the store is the one allocated here.
  unfoldable pub new_rabbit_mq_connection : RabbitMqConfig → Op E S (Unit {0})
  new_rabbit_mq_connection cfg = elim (validate (connection_validator cfg)) [
    | some e ↦ throw e
    | none ↦ do set_connection (record { conn = none; cfg = cfg; closed = false }); reconnect_locked
  ]

  unfoldable pub is_connection_open : Op E S Bool
  is_connection_open = read (λ s. is_live amqp s.connection s.outside)

  unfoldable pub close : Op E S (Unit {0})
  close = do
    connection ← read (λ s. s.connection)
    set_connection (record connection { closed = true })
    elim connection.conn [
      | none ↦ pure tt
      | some c ↦ do
        closed ← read (λ s. amqp.is_connection_closed c s.outside)
        if closed then pure tt else request (closed_connection c) (amqp.close_connection c)
    ]

  -- The connection that it returns; `none` would be a nil pointer.
  unfoldable pub open_connection : Op E S (Option ℕ)
  open_connection = do
    s ← read (λ s. s)
    elim s.connection.closed [
      | true ↦ throw connection_closed
      | false ↦ elim (is_live amqp s.connection s.outside) [
        | true ↦ pure s.connection.conn
        | false ↦ do reconnect_locked; read (λ s. s.connection.conn)
      ]
    ]
