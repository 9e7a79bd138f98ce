-- ===== src/Mq/Connection/Dialling.antt =====
-- How often the connection dials, and what is left of the attempts.
use mathlib.Core.List.{append_assoc}
use kenshu_elaris_project_pa.Base.{
  ℕ, zero, suc, ◌+◌, ◌≤◌, ◌≡◌, refl, sym, ap, subst, inl, inr, ltb, if◌then◌else◌, ◌∙◌, ◌⊎◌, true,
  false, Option, none, some, List, [], ◌∷◌, ◌++◌, arith,
}
use kenshu_elaris_project_pa.Go.Text.{GoString, lit}
use kenshu_elaris_project_pa.Go.Call.{
  Outcome, ok, err, panicked, World, of_outcome, throw, catch, ◌>>=◌, ◌>>◌, Outcome-cases, is_ok,
  is_err, is_panicked,
}
use kenshu_elaris_project_pa.Errors.{GoError, wrapped, error_text}
use kenshu_elaris_project_pa.Mq.Broker.{
  Amqp, RabbitMqConnection, Store, BrokerEvent, dialled, slept, Op,
}
use kenshu_elaris_project_pa.Mq.Connection.{
  rabbit_dial_attempts, dial_error, rabbit_dial_backoff, connection_closed, uri_of, backoff,
  set_conn, dial_loop, reconnect_locked,
}

-- The calls of `k` failed attempts, each with a wait, and of a last one.
abbrev pub rounds : GoString → ℕ → List BrokerEvent
rounds uri zero = dialled uri ∷ []
rounds uri (suc k) = dialled uri ∷ slept rabbit_dial_backoff ∷ rounds uri k

module _ {E : Type 0} (amqp : Amqp E) (uri : GoString) where
  -- The outside after `k` attempts with a wait each.
  abbrev pub after_rounds : ℕ → E → E
  after_rounds zero outside = outside
  after_rounds (suc k) outside =
      after_rounds k (amqp.sleep rabbit_dial_backoff (amqp.dial uri outside).1)

  -- The first `k` attempts fail.
  pub data Fails : ℕ → E → Type 0 where
    none_yet : {outside : E} → Fails zero outside
    once_more :
        {k : ℕ} {outside : E} (x : GoError)
        → (amqp.dial uri outside).0 ≡ err x
        → Fails k (amqp.sleep rabbit_dial_backoff (amqp.dial uri outside).1)
        → Fails (suc k) outside

module _ {E S : Type 0} (amqp : Amqp E) (uri : GoString) where
  -- How the loop ends after `k` failures with a wait, where `left` are possible, by what the next
  -- attempt gives: its connection is kept, or all attempts have failed and nothing is replaced.
  abbrev pub Ends :
      ℕ
      → ℕ
      → E
      → RabbitMqConnection
      → Outcome GoError (Unit {0}) × World (Store E S) BrokerEvent
      → Type 0
  Ends left k outside c p =
      ((n : ℕ) × ((amqp.dial uri (after_rounds amqp uri k outside)).0 ≡ ok n)
        × (p.0 ≡ ok tt)
        × (p.1.env.connection ≡ record c { conn = some n }))
      ⊎ ((e : GoError) × ((amqp.dial uri (after_rounds amqp uri k outside)).0 ≡ err e)
          × (p.0 ≡ err (wrapped (lit "dial rabbitmq after 5 attempts: " ++ error_text e) e))
          × (k ≡ left)
          × (p.1.env.connection ≡ c))
      ⊎ (((amqp.dial uri (after_rounds amqp uri k outside)).0 ≡ panicked)
          × (p.0 ≡ panicked)
          × (p.1.env.connection ≡ c))

  -- What a run of the loop comes to, where `left` waits are possible: `k` attempts fail, with a wait
  -- after each, and with the next one the run Ends.
  unfoldable pub Run :
      ℕ
      → World (Store E S) BrokerEvent
      → Outcome GoError (Unit {0}) × World (Store E S) BrokerEvent
      → Type 0
  Run left w p =
      (k : ℕ) × (k ≤ left)
      × Fails amqp uri k w.env.outside
      × (p.1.trace ≡ w.trace ++ rounds uri k)
      × Ends left k w.env.outside w.env.connection p

module _ {E S : Type 0} (amqp : Amqp E) where
  -- The state and the calls after an attempt.
  abbrev pub tried : GoString → World (Store E S) BrokerEvent → World (Store E S) BrokerEvent
  tried uri w = record {
    env = record w.env { outside = (amqp.dial uri w.env.outside).1 };
    trace = w.trace ++ dialled uri ∷ [];
  }

  -- The state and the calls after a failed attempt and the wait.
  abbrev pub retried : GoString → World (Store E S) BrokerEvent → World (Store E S) BrokerEvent
  retried uri w = record {
    env = record w.env { outside = amqp.sleep rabbit_dial_backoff (amqp.dial uri w.env.outside).1 };
    trace = (w.trace ++ dialled uri ∷ []) ++ slept rabbit_dial_backoff ∷ [];
  }

  dial_loop-retried :
      (uri : GoString) (left attempt : ℕ) (last : Option GoError) (x : GoError)
      (w : World (Store E S) BrokerEvent)
      → (amqp.dial uri w.env.outside).0 ≡ err x
      → ltb attempt rabbit_dial_attempts ≡ true
      → dial_loop amqp uri (suc (suc left)) attempt last w
        ≡ dial_loop amqp uri (suc left) (attempt + 1) (some x) (retried uri w)
  unfolding dial_loop backoff
  dial_loop-retried uri left attempt last x w e h =
      subst
        (λ o.
          catch (of_outcome o >>= set_conn amqp)
            (λ e. backoff amqp attempt >> dial_loop amqp uri (suc left) (attempt + 1) (some e))
            (tried uri w)
          ≡ dial_loop amqp uri (suc left) (attempt + 1) (some x) (retried uri w))
        (sym e)
        (subst
          (λ b.
            ((λ v. if b then (ok tt, retried uri w) else (ok tt, tried uri w))
                >> dial_loop amqp uri (suc left) (attempt + 1) (some x))
              (tried uri w)
            ≡ dial_loop amqp uri (suc left) (attempt + 1) (some x) (retried uri w))
          (sym h) refl)

  append-retried :
      (uri : GoString) (w : World (Store E S) BrokerEvent) (k : ℕ)
      → (retried uri w).trace ++ rounds uri k ≡ w.trace ++ rounds uri (suc k)
  append-retried uri w k =
      append_assoc (w.trace ++ dialled uri ∷ []) (slept rabbit_dial_backoff ∷ []) (rounds uri k)
      ∙ append_assoc w.trace (dialled uri ∷ []) (slept rabbit_dial_backoff ∷ rounds uri k)

  Run-retried :
      (uri : GoString) (left : ℕ) (w : World (Store E S) BrokerEvent)
      (p : Outcome GoError (Unit {0}) × World (Store E S) BrokerEvent) (x : GoError)
      → (amqp.dial uri w.env.outside).0 ≡ err x
      → Run amqp uri left (retried uri w) p
      → Run amqp uri (suc left) w p
  unfolding Run
  Run-retried uri left w p x lost (k, h, f, t, inl ends) =
      (suc k, omega arith, once_more x lost f, t ∙ append-retried uri w k, inl ends)
  Run-retried uri left w p x lost (k, h, f, t, inr (inl (y, d, e, l, c))) = (
    suc k,
    omega arith,
    once_more x lost f,
    t ∙ append-retried uri w k,
    inr (inl (y, d, e, ap suc l, c)),
  )
  Run-retried uri left w p x lost (k, h, f, t, inr (inr c)) =
      (suc k, omega arith, once_more x lost f, t ∙ append-retried uri w k, inr (inr c))

  dial_loop-Run :
      (uri : GoString) (left attempt : ℕ) (last : Option GoError)
      (w : World (Store E S) BrokerEvent)
      → attempt + left ≡ rabbit_dial_attempts
      → Run amqp uri left w (dial_loop amqp uri (suc left) attempt last w)
  unfolding dial_loop backoff Run dial_error
  dial_loop-Run uri zero attempt last w h = elim (Outcome-cases (amqp.dial uri w.env.outside).0) [
    | is_ok c e ↦ (0, omega arith, none_yet, ground arith, inl (c, e, ground arith, ground arith))
    | is_err x e ↦
        (0, omega arith, none_yet, ground arith, inr (inl (x, e, ground arith, refl, ground arith)))
    | is_panicked e ↦
        (0, omega arith, none_yet, ground arith, inr (inr (e, ground arith, ground arith)))
  ]
  dial_loop-Run uri (suc left) attempt last w h =
      elim (Outcome-cases (amqp.dial uri w.env.outside).0) [
        | is_ok c e ↦
            (0, omega arith, none_yet, ground arith, inl (c, e, ground arith, ground arith))
        | is_panicked e ↦
            (0, omega arith, none_yet, ground arith, inr (inr (e, ground arith, ground arith)))
        | is_err x e ↦
            subst (Run amqp uri (suc left) w)
              (sym (dial_loop-retried uri left attempt last x w e (ground arith)))
              (Run-retried uri left w
                (dial_loop amqp uri (suc left) (attempt + 1) (some x) (retried uri w)) x e
                (dial_loop-Run uri left (attempt + 1) (some x) (retried uri w) (omega arith)))
      ]

  -- A connection that is not closed dials at most five times, with a wait of rabbit_dial_backoff
  -- between two attempts and no other call of the package. All attempts before the last one made have
  -- failed. If that one succeeds, its connection is kept; if it fails, it is the fifth, and its error
  -- is returned, wrapped; if it panics, so does the run. No other field of the connection changes.
  pub reconnect_locked-Run :
      (w : World (Store E S) BrokerEvent)
      → w.env.connection.closed ≡ false
      → Run amqp (amqp.uri_string (uri_of w.env.connection.cfg)) 4 w (reconnect_locked amqp w)
  unfolding reconnect_locked
  reconnect_locked-Run w h =
      subst
        (λ b. Run amqp (amqp.uri_string (uri_of w.env.connection.cfg)) 4 w (
          elim b as (λ x. Op E S (Unit {0})) [
            | true ↦ throw connection_closed
            | false ↦
                dial_loop amqp (amqp.uri_string (uri_of w.env.connection.cfg)) rabbit_dial_attempts
                  1 none
          ]
            w))
        (sym h) (dial_loop-Run (amqp.uri_string (uri_of w.env.connection.cfg)) 4 1 none w refl)

  pub reconnect_locked-closed :
      (w : World (Store E S) BrokerEvent)
      → w.env.connection.closed ≡ true
      → reconnect_locked amqp w ≡ (err connection_closed, w)
  unfolding reconnect_locked
  reconnect_locked-closed w h = rw (h) refl
