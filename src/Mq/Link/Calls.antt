-- ===== src/Mq/Link/Calls.antt =====
-- internal/infra/mq: what each call does to the connection.
use kenshu_elaris_project_pa.Base.{
  Bool, ℕ, ◌≡◌, refl, sym, subst, inl, inr, Bool-cases, false, Option, none, some,
}
use kenshu_elaris_project_pa.Go.Text.{GoString, lit}
use kenshu_elaris_project_pa.Go.Call.{Outcome, panicked, World, of_outcome, pure, throw}
use kenshu_elaris_project_pa.Errors.{GoError, mq_unexpected}
use kenshu_elaris_project_pa.Mq.Broker.{
  Amqp, Store, BrokerEvent, Op, read, request, set_channel, opened_channel,
}
use kenshu_elaris_project_pa.Mq.Connection.Dialling.{
  Ends, Run, reconnect_locked-closed, reconnect_locked-Run,
}
use kenshu_elaris_project_pa.Mq.Connection.{
  set_conn, reconnect_locked, is_live, open_connection, connection_closed,
}
use kenshu_elaris_project_pa.Mq.Channel.{
  is_usable, channel_on, is_closed_on, retry_channel, open_channel, reopen_channel, ensure_channel,
  with_channel,
}
use kenshu_elaris_project_pa.Mq.Link.{
  Link, Link-refl, IsLinked, keeps, bind-IsLinked, catch-IsLinked, map_err-IsLinked, Bool-IsLinked,
  Option-IsLinked,
}

module _ {E S : Type 0} (amqp : Amqp E) where
  pub set_conn-Link :
      (n : ℕ) (w : World (Store E S) BrokerEvent)
      → w.env.connection.closed ≡ false
      → Link w.env.connection (set_conn amqp n w).1.env.connection
  unfolding set_conn
  set_conn-Link n w h = record {
    cfg_kept = refl;
    closed_kept = refl;
    conn_kept = λ g e. cc;
    shut = λ g. cc;
  }

  pub Ends-Link :
      (uri : GoString) (left k : ℕ) (w : World (Store E S) BrokerEvent)
      (p : Outcome GoError (Unit {0}) × World (Store E S) BrokerEvent)
      → w.env.connection.closed ≡ false
      → Ends amqp uri left k w.env.outside w.env.connection p
      → Link w.env.connection p.1.env.connection
  unfolding set_conn
  Ends-Link uri left k w p h (inl (n, d, e, c)) =
      subst (Link w.env.connection) (sym c) (set_conn-Link n w h)
  Ends-Link uri left k w p h (inr (inl (x, d, e, l, c))) =
      subst (Link w.env.connection) (sym c) (Link-refl w.env.connection)
  Ends-Link uri left k w p h (inr (inr (d, e, c))) =
      subst (Link w.env.connection) (sym c) (Link-refl w.env.connection)

  pub Run-Link :
      (uri : GoString) (left : ℕ) (w : World (Store E S) BrokerEvent)
      (p : Outcome GoError (Unit {0}) × World (Store E S) BrokerEvent)
      → w.env.connection.closed ≡ false
      → Run amqp uri left w p
      → Link w.env.connection p.1.env.connection
  unfolding Run
  Run-Link uri left w p h (k, _, _, _, e) = Ends-Link uri left k w p h e

  reconnect_locked-Link :
      (w : World (Store E S) BrokerEvent)
      → Link w.env.connection (reconnect_locked amqp w).1.env.connection
  reconnect_locked-Link w = elim (Bool-cases w.env.connection.closed) [
    | inl h ↦
        subst (λ p. Link w.env.connection p.1.env.connection)
          (sym (reconnect_locked-closed amqp w h)) (Link-refl w.env.connection)
    | inr h ↦ Run-Link _ 4 w (reconnect_locked amqp w) h (reconnect_locked-Run amqp w h)
  ]

  pub reconnect_locked-IsLinked : IsLinked (reconnect_locked {S = S} amqp)
  reconnect_locked-IsLinked = record { link = reconnect_locked-Link }

  pub open_connection-IsLinked : IsLinked (open_connection {S = S} amqp)
  unfolding open_connection
  open_connection-IsLinked = bind-IsLinked (keeps (read (λ s. s)) (λ w. refl)) (λ (s : Store E S).
      Bool-IsLinked s.connection.closed (keeps (throw connection_closed) (λ w. refl)) (
        Bool-IsLinked (is_live amqp s.connection s.outside)
          (keeps (pure s.connection.conn) (λ w. refl))
          (bind-IsLinked reconnect_locked-IsLinked
            (λ (u : Unit {0}). keeps (read (λ s. s.connection.conn)) (λ w. refl)))))

  channel_on-IsLinked : (conn : Option ℕ) → IsLinked (channel_on {S = S} amqp conn)
  unfolding channel_on
  channel_on-IsLinked none = keeps (of_outcome panicked) (λ w. refl)
  channel_on-IsLinked (some c) =
      keeps (request (opened_channel c) (amqp.open_channel c)) (λ w. refl)

  is_closed_on-IsLinked : (conn : Option ℕ) → IsLinked (is_closed_on {S = S} amqp conn)
  unfolding is_closed_on
  is_closed_on-IsLinked none = keeps (of_outcome panicked) (λ w. refl)
  is_closed_on-IsLinked (some c) =
      keeps (read (λ s. amqp.is_connection_closed c s.outside)) (λ w. refl)

  retry_channel-IsLinked :
      (conn : Option ℕ) (e : GoError) → IsLinked (retry_channel {S = S} amqp conn e)
  unfolding retry_channel
  retry_channel-IsLinked conn e = bind-IsLinked (is_closed_on-IsLinked conn) (λ (closed : Bool).
      Bool-IsLinked closed (bind-IsLinked open_connection-IsLinked channel_on-IsLinked)
        (keeps (throw e) (λ w. refl)))

  pub open_channel-IsLinked : IsLinked (open_channel {S = S} amqp)
  unfolding open_channel
  open_channel-IsLinked = bind-IsLinked open_connection-IsLinked (λ (conn : Option ℕ).
      bind-IsLinked (catch-IsLinked (channel_on-IsLinked conn) (retry_channel-IsLinked conn))
        (λ (ch : ℕ). keeps (set_channel (some ch)) (λ w. refl)))

  pub reopen_channel-IsLinked : IsLinked (reopen_channel {S = S} amqp)
  unfolding reopen_channel
  reopen_channel-IsLinked =
      map_err-IsLinked (mq_unexpected (lit "unexpected error when reopening channel"))
        open_channel-IsLinked

  pub ensure_channel-IsLinked : IsLinked (ensure_channel {S = S} amqp)
  unfolding ensure_channel
  ensure_channel-IsLinked = bind-IsLinked (keeps (read (λ s. s)) (λ w. refl)) (λ (s : Store E S).
      Bool-IsLinked (is_usable amqp s.channel s.outside) (keeps (pure tt) (λ w. refl))
        reopen_channel-IsLinked)

  pub with_channel-IsLinked :
      {A : Type 0} (f : ℕ → Op E S A)
      → ((ch : ℕ) → IsLinked (f ch))
      → IsLinked (with_channel amqp f)
  unfolding with_channel
  with_channel-IsLinked f h =
      bind-IsLinked (keeps (read (λ s. s.channel)) (λ w. refl)) (λ (channel : Option ℕ).
        Option-IsLinked channel (keeps (of_outcome panicked) (λ w. refl)) h)
