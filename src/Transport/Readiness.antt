-- ===== src/Transport/Readiness.antt =====
-- internal/transport/http/probe/probe.go: what the probe of readiness answers.
use mathlib.Core.List.{append-nil}
use kenshu_elaris_project_pa.Base.{
  ℕ, ◌≡◌, ◌⊎◌, inl, inr, refl, ap, sym, subst, ◌∙◌, Bool, Bool-cases, Option-cases, true, false,
  none, some, List, [], ◌∷◌, ◌++◌, arith,
}
use kenshu_elaris_project_pa.Go.Text.{lit}
use kenshu_elaris_project_pa.Go.Call.{
  Outcome, World, ok, err, panicked, is_ok, is_err, is_panicked, Outcome-cases,
}
use kenshu_elaris_project_pa.Errors.{GoError}
use kenshu_elaris_project_pa.Mq.Broker.{Amqp}
use kenshu_elaris_project_pa.Mq.Connection.{is_live, is_connection_open}
use kenshu_elaris_project_pa.Infra.Outside.{MongoDriver, InfraEvent, mongo_pinged}
use kenshu_elaris_project_pa.Infra.MongoDb.{Db, ping}
use kenshu_elaris_project_pa.Infra.System.{System}
use kenshu_elaris_project_pa.Transport.{
  Answer, status_ok, unavailable, answer_when, readiness_handler,
}

module _ {E : Type 0} (amqp : Amqp E) (mongo : MongoDriver E) (client : Db) where
  -- What the ping of the probe comes to.
  abbrev pub pinged : World (System E) InfraEvent → Outcome GoError (Unit {0})
  pinged w = (mongo.ping (record { startup = none; own = none }) client.client w.env.outside).0

  -- The state after the question whether the connection is open, which calls nothing.
  abbrev unchanged : World (System E) InfraEvent → World (System E) InfraEvent
  unchanged w = record w { trace = w.trace ++ [] }

  asked :
      {b : Bool} (w : World (System E) InfraEvent)
      → is_live amqp w.env.connection w.env.outside ≡ b
      → readiness_handler amqp mongo client w ≡ answer_when mongo client b (unchanged w)
  unfolding readiness_handler is_connection_open
  asked w h = ap (λ b. answer_when mongo client b (unchanged w)) h

  answer_when-trace :
      (w : World (System E) InfraEvent)
      → (answer_when mongo client true (unchanged w)).1.trace
        ≡ (w.trace ++ []) ++ mongo_pinged client.client ∷ []
  unfolding answer_when ping
  answer_when-trace w = elim (Outcome-cases (pinged w)) [
    | is_ok a e ↦ ground (arith, e)
    | is_err x e ↦ ground (arith, e)
    | is_panicked e ↦ ground (arith, e)
  ]

  -- The answer by whether the connection is open and by the outcome of the ping.
  abbrev pub readiness : Bool → Outcome GoError (Unit {0}) → Outcome GoError Answer
  readiness false o = ok (unavailable (lit "rabbitmq connection closed"))
  readiness true (ok u) = ok (record { code = status_ok; body = [] })
  readiness true (err e) = ok (unavailable (lit "db ping failed"))
  readiness true panicked = panicked

  -- The ping, if the connection is open.
  abbrev pub ping_if : Bool → List InfraEvent
  ping_if false = []
  ping_if true = mongo_pinged client.client ∷ []

  answer_when-readiness :
      (b : Bool) (w : World (System E) InfraEvent)
      → ((answer_when mongo client b (unchanged w)).0 ≡ readiness b (pinged w))
        × ((answer_when mongo client b (unchanged w)).1.trace ≡ w.trace ++ ping_if b)
  unfolding answer_when ping
  answer_when-readiness false w = (refl, refl)
  answer_when-readiness true w = (
    elim (Outcome-cases (pinged w)) [
      | is_ok a e ↦ ground (arith, e)
      | is_err x e ↦ ground (arith, e)
      | is_panicked e ↦ ground (arith, e)
    ],
    answer_when-trace w ∙ ap (λ t. t ++ mongo_pinged client.client ∷ []) (append-nil w.trace),
  )

  -- The connection is there and open.
  abbrev pub IsOpen : World (System E) InfraEvent → Type 0
  IsOpen w =
      (c : ℕ) × (w.env.connection.conn ≡ some c)
      × (amqp.is_connection_closed c w.env.outside ≡ false)

  is_live-true :
      (w : World (System E) InfraEvent)
      → is_live amqp w.env.connection w.env.outside ≡ true
      → IsOpen w
  unfolding is_live
  is_live-true w h = elim (Option-cases w.env.connection.conn) [
    | inl e ↦ absurd (ground (arith, h, e))
    | inr (c, e) ↦ (c, e, ground (arith, h, e))
  ]

  is_live-false :
      (w : World (System E) InfraEvent)
      → is_live amqp w.env.connection w.env.outside ≡ false
      → ¬ IsOpen w
  unfolding is_live
  is_live-false w h (c, e, o) = ground (arith, h, e, o)

  -- The code of the answer, by the outcome of the ping.
  unfoldable pub IsAnswered : Outcome GoError (Unit {0}) → Outcome GoError Answer → Type 0
  IsAnswered (ok u) o = o ≡ ok (record { code = 200; body = [] })
  IsAnswered (err e) o = o ≡ ok (record { code = 503; body = lit "db ping failed\n" })
  IsAnswered panicked o = o ≡ panicked

  readiness-IsAnswered : (o : Outcome GoError (Unit {0})) → IsAnswered o (readiness true o)
  unfolding IsAnswered unavailable lit
  readiness-IsAnswered (ok u) = refl
  readiness-IsAnswered (err e) = refl
  readiness-IsAnswered panicked = refl

  -- If the connection to RabbitMQ is there and open, the probe of readiness pings MongoDB once, with
  -- no limit of time, and answers 200 if the ping succeeds and 503 if it fails. If not, it answers 503
  -- with no ping. It calls nothing else.
  pub readiness_handler-readiness :
      (w : World (System E) InfraEvent)
      → (IsOpen w
          × IsAnswered (pinged w) (readiness_handler amqp mongo client w).0
          × ((readiness_handler amqp mongo client w).1.trace
              ≡ w.trace ++ mongo_pinged client.client ∷ []))
        ⊎ (¬ IsOpen w
            × ((readiness_handler amqp mongo client w).0
                ≡ ok (record { code = 503; body = lit "rabbitmq connection closed\n" }))
            × ((readiness_handler amqp mongo client w).1.trace ≡ w.trace))
  unfolding unavailable lit
  readiness_handler-readiness w = elim (Bool-cases (is_live amqp w.env.connection w.env.outside)) [
    | inl h ↦
        let (answer, trace) = answer_when-readiness true w in
        inl (
          is_live-true w h,
          subst (IsAnswered (pinged w)) (sym (ap (λ p. p.0) (asked w h) ∙ answer))
              (readiness-IsAnswered (pinged w)),
          ap (λ p. p.1.trace) (asked w h) ∙ trace,
        )
    | inr h ↦
        let (answer, trace) = answer_when-readiness false w in
        inr (
          is_live-false w h,
          ap (λ p. p.0) (asked w h) ∙ answer,
          ap (λ p. p.1.trace) (asked w h) ∙ trace ∙ append-nil w.trace,
        )
  ]
