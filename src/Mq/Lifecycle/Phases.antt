-- ===== src/Mq/Lifecycle/Phases.antt =====
-- internal/infra/mq: what any sequence of calls makes of the shared connection.
use kenshu_elaris_project_pa.Base.{
  ℕ, subst, sym, ◌≡◌, ◌≢◌, refl, ap, ◌∙◌, ◌⊎◌, inl, inr, Bool, true, false, if◌then◌else◌, Option,
  none, some,
}
use kenshu_elaris_project_pa.Go.Call.{World, pure, ◌>>=◌}
use kenshu_elaris_project_pa.Mq.Broker.{
  Amqp, RabbitMqConnection, Store, BrokerEvent, Op, read, request, closed_channel,
  closed_connection,
}
use kenshu_elaris_project_pa.Mq.Connection.{close}
use kenshu_elaris_project_pa.Mq.Channel.{close_channel}
use kenshu_elaris_project_pa.Mq.Producer.{Encoding}
use kenshu_elaris_project_pa.Mq.Link.{
  Link, IsLinked, keeps, bind-IsLinked, Option-IsLinked, Bool-IsLinked,
}
use kenshu_elaris_project_pa.Mq.Link.Methods.{
  new_rabbitmq_producer-IsLinked, declare_exchange-IsLinked, publish-IsLinked,
  new_rabbitmq_consumer-IsLinked, declare_queue-IsLinked, bind_queue-IsLinked, consume-IsLinked,
}
use kenshu_elaris_project_pa.Mq.Lifecycle.{
  after, Step, creates_producer, declares_exchange, publishes, creates_consumer, declares_queue,
  binds_queue, consumes, closes_producer, closes_consumer, closes, Reach, start, step, Phase,
  starting, connected, shut_down, phase, phase_of, Allowed, stays, connects, shuts_down,
}

-- Of a connection that is not closed, only the conn may change, and only from nil.
phase-Allowed :
    (b : Bool) (o o' : Option ℕ) → (o ≢ none → o' ≢ none) → Allowed (phase b o) (phase b o')
phase-Allowed true o o' h = stays shut_down
phase-Allowed false none none h = stays starting
phase-Allowed false none (some c) h = connects
phase-Allowed false (some c) none h = absurd (h (λ e. cc) refl)
phase-Allowed false (some c) (some d) h = stays connected

Link-Allowed : (c c' : RabbitMqConnection) → Link c c' → Allowed (phase_of c) (phase_of c')
Link-Allowed c c' l =
    subst (λ b. Allowed (phase_of c) (phase b c'.conn)) (sym l.closed_kept)
      (phase-Allowed c.closed c.conn c'.conn l.conn_kept)

module _ {E S : Type 0} (amqp : Amqp E) where
  close_channel-IsLinked : IsLinked (close_channel {S = S} amqp)
  unfolding close_channel
  close_channel-IsLinked = bind-IsLinked (keeps (read (λ s. s)) (λ w. refl)) (λ (s : Store E S).
      Option-IsLinked s.channel (keeps (pure tt) (λ w. refl)) (λ ch.
        Bool-IsLinked (amqp.is_channel_closed ch s.outside) (keeps (pure tt) (λ w. refl))
          (keeps (request (closed_channel ch) (amqp.close_channel ch)) (λ w. refl))))

  request_keeps :
      (c : ℕ) (b : Bool) (w : World (Store E S) BrokerEvent)
      → after (if b then pure tt else request (closed_connection c) (amqp.close_connection c)) w
        ≡ w.env.connection
  request_keeps c true w = refl
  request_keeps c false w = refl

  -- What Close does after it has set the flag.
  disconnect_keeps :
      (o : Option ℕ) (w : World (Store E S) BrokerEvent)
      → after
          (elim o as (λ x. Op E S (Unit {0})) [
            | none ↦ pure tt
            | some c ↦ read (λ s. amqp.is_connection_closed c s.outside) >>= (λ closed.
                if closed then pure tt else request (closed_connection c) (amqp.close_connection c))
          ])
          w
        ≡ w.env.connection
  disconnect_keeps none w = refl
  disconnect_keeps (some c) w = request_keeps c (amqp.is_connection_closed c w.env.outside) w

  close-after :
      (w : World (Store E S) BrokerEvent)
      → after (close amqp) w ≡ record w.env.connection { closed = true }
  unfolding close
  close-after w =
      disconnect_keeps w.env.connection.conn
        (record w { env = record w.env { connection = record w.env.connection { closed = true } } })

-- The two ways in which a step changes the connection.
Effect : RabbitMqConnection → RabbitMqConnection → Type 0
Effect c c' = Link c c' ⊎ (c' ≡ record c { closed = true })

module _ {E TS : Type 0} (amqp : Amqp E) (encoding : Encoding E TS) where
  Step-Effect : {c c' : RabbitMqConnection} → Step amqp encoding c c' → Effect c c'
  unfolding Effect
  Step-Effect (creates_producer w connection config) =
      inl ((new_rabbitmq_producer-IsLinked amqp connection config).link w)
  Step-Effect (declares_exchange w config) = inl ((declare_exchange-IsLinked amqp config).link w)
  Step-Effect (publishes w message routing_key) =
      inl ((publish-IsLinked amqp encoding message routing_key).link w)
  Step-Effect (creates_consumer w connection config) =
      inl ((new_rabbitmq_consumer-IsLinked amqp connection config).link w)
  Step-Effect (declares_queue w config) = inl ((declare_queue-IsLinked amqp config).link w)
  Step-Effect (binds_queue w config) = inl ((bind_queue-IsLinked amqp config).link w)
  Step-Effect (consumes w) = inl ((consume-IsLinked amqp).link w)
  Step-Effect (closes_producer w) = inl ((close_channel-IsLinked amqp).link w)
  Step-Effect (closes_consumer w) = inl ((close_channel-IsLinked amqp).link w)
  Step-Effect (closes w) = inr (close-after amqp w)

Allowed-trans : {p q r : Phase} → Allowed p q → Allowed q r → Allowed p r
Allowed-trans (stays _) b = b
Allowed-trans connects (stays _) = connects
Allowed-trans connects (shuts_down _) = shuts_down starting
Allowed-trans (shuts_down p) (stays _) = shuts_down p
Allowed-trans (shuts_down p) (shuts_down _) = shuts_down p

Effect-Allowed : (c c' : RabbitMqConnection) → Effect c c' → Allowed (phase_of c) (phase_of c')
unfolding Effect
Effect-Allowed c c' (inl l) = Link-Allowed c c' l
Effect-Allowed c c' (inr e) =
    subst (λ d. Allowed (phase_of c) (phase_of d)) (sym e) (shuts_down (phase_of c))

Effect-cfg : (c c' : RabbitMqConnection) → Effect c c' → c'.cfg ≡ c.cfg
unfolding Effect
Effect-cfg c c' (inl l) = l.cfg_kept
Effect-cfg c c' (inr e) = ap (λ d. d.cfg) e

Effect-closed : (c c' : RabbitMqConnection) → Effect c c' → c.closed ≡ true → c' ≡ c
unfolding Effect
Effect-closed c c' (inl l) h =
    λ i. record { conn = l.shut h i; cfg = l.cfg_kept i; closed = l.closed_kept i }
Effect-closed c c' (inr e) h = e ∙ (λ i. record c { closed = sym h i })

module _ {E TS : Type 0} (amqp : Amqp E) (encoding : Encoding E TS) where
  -- Whatever calls the producers and the consumers make on the connection that they share, in any
  -- order, and however each call ends: the phases that the connection goes through are those of
  -- the abstract view (it may connect once and be closed for good, and does not come back from
  -- either), and its configuration stays the same.
  pub Reach-Allowed :
      {c d : RabbitMqConnection}
      → Reach amqp encoding c d
      → Allowed (phase_of c) (phase_of d) × (d.cfg ≡ c.cfg)
  Reach-Allowed {c} start = (stays (phase_of c), refl)
  Reach-Allowed {c} (step {d} {d'} r s) =
      let (a, e) = Reach-Allowed r in
      let f = Step-Effect amqp encoding s in
      (Allowed-trans a (Effect-Allowed d d' f), Effect-cfg d d' f ∙ e)

  -- A connection that Close has marked does not change any more, whatever calls follow.
  pub Reach-closed : {c d : RabbitMqConnection} → Reach amqp encoding c d → c.closed ≡ true → d ≡ c
  Reach-closed start h = refl
  Reach-closed (step {d} {d'} r s) h =
      let e = Reach-closed r h in
      Effect-closed d d' (Step-Effect amqp encoding s) (ap (λ x. x.closed) e ∙ h) ∙ e
