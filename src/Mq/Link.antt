-- ===== src/Mq/Link.antt =====
-- How the calls of a channel, of the producer and of the consumer change the connection that they
-- share.
pub mod Calls
pub mod Methods
use kenshu_elaris_project_pa.Base.{
  Bool, ℕ, zero, suc, ◌+◌, ◌≡◌, ◌≢◌, refl, sym, ap, subst, ◌∙◌, ◌⊎◌, inl, inr, true, false, Option,
  none, some, [], ◌∷◌, ◌++◌, arith,
}
use kenshu_elaris_project_pa.Go.Text.{GoString}
use kenshu_elaris_project_pa.Go.Call.{
  Outcome, ok, err, panicked, World, ◌>>=◌, ◌>>◌, catch, map_err, of_outcome, Outcome-cases, is_ok,
  is_err, is_panicked,
}
use kenshu_elaris_project_pa.Errors.{GoError}
use kenshu_elaris_project_pa.Mq.Broker.{Amqp, RabbitMqConnection, Store, BrokerEvent, Op}
use kenshu_elaris_project_pa.Mq.Connection.Dialling.{
  Ends, Run, reconnect_locked-closed, reconnect_locked-Run,
}
use kenshu_elaris_project_pa.Mq.Connection.{
  set_conn, backoff, dial_loop, reconnect_locked, is_live, open_connection, rabbit_dial_attempts,
  uri_of,
}

-- The connection after a call, given the one before: `closed` and the configuration stay, a
-- connection that was there is not lost, and one that is closed stays as it is.
pub record Link (c c' : RabbitMqConnection) : Type 0 where
  pub cfg_kept : c'.cfg ≡ c.cfg
  pub closed_kept : c'.closed ≡ c.closed
  pub conn_kept : c.conn ≢ none → c'.conn ≢ none
  pub shut : c.closed ≡ true → c'.conn ≡ c.conn

pub Link-refl : (c : RabbitMqConnection) → Link c c
Link-refl c = record { cfg_kept = refl; closed_kept = refl; conn_kept = λ h. h; shut = λ h. refl }

pub Link-trans : {c c' c'' : RabbitMqConnection} → Link c c' → Link c' c'' → Link c c''
Link-trans a b = record {
  cfg_kept = b.cfg_kept ∙ a.cfg_kept;
  closed_kept = b.closed_kept ∙ a.closed_kept;
  conn_kept = λ h. b.conn_kept (a.conn_kept h);
  shut = λ h. b.shut (a.closed_kept ∙ h) ∙ a.shut h;
}

-- An operation that changes the connection only as Link says, whatever it returns.
pub record IsLinked {E S A : Type 0} (m : Op E S A) : Type 0 where
  pub link : (w : World (Store E S) BrokerEvent) → Link w.env.connection (m w).1.env.connection

module _ {E S A : Type 0} where
  -- An operation that leaves the connection alone.
  pub keeps :
      (m : Op E S A)
      → ((w : World (Store E S) BrokerEvent) → (m w).1.env.connection ≡ w.env.connection)
      → IsLinked m
  keeps m h = record {
    link = λ w. subst (Link w.env.connection) (sym (h w)) (Link-refl w.env.connection);
  }

  -- The sequel of an operation that has come to an outcome and a state.
  sequel-Link :
      {B : Type 0} (c : RabbitMqConnection) (f : A → Op E S B) (o : Outcome GoError A)
      (w : World (Store E S) BrokerEvent)
      → Link c w.env.connection
      → ((a : A) → IsLinked (f a))
      → Link c ((of_outcome o >>= f) w).1.env.connection
  sequel-Link c f (ok a) w h hf = Link-trans h ((hf a).link w)
  sequel-Link c f (err x) w h hf = h
  sequel-Link c f panicked w h hf = h

  pub bind-IsLinked :
      {B : Type 0} {m : Op E S A} {f : A → Op E S B}
      → IsLinked m
      → ((a : A) → IsLinked (f a))
      → IsLinked (m >>= f)
  bind-IsLinked {B} {m} {f} hm hf = record {
    link = λ w. sequel-Link w.env.connection f (m w).0 (m w).1 (hm.link w) hf;
  }

  handled-Link :
      (c : RabbitMqConnection) (f : GoError → Op E S A) (o : Outcome GoError A)
      (w : World (Store E S) BrokerEvent)
      → Link c w.env.connection
      → ((x : GoError) → IsLinked (f x))
      → Link c (catch (of_outcome o) f w).1.env.connection
  handled-Link c f (ok a) w h hf = h
  handled-Link c f (err x) w h hf = Link-trans h ((hf x).link w)
  handled-Link c f panicked w h hf = h

  pub catch-IsLinked :
      {m : Op E S A} {f : GoError → Op E S A}
      → IsLinked m
      → ((x : GoError) → IsLinked (f x))
      → IsLinked (catch m f)
  catch-IsLinked {m} {f} hm hf = record {
    link = λ w. handled-Link w.env.connection f (m w).0 (m w).1 (hm.link w) hf;
  }

  mapped-Link :
      (c : RabbitMqConnection) (f : GoError → GoError) (o : Outcome GoError A)
      (w : World (Store E S) BrokerEvent)
      → Link c w.env.connection
      → Link c (map_err f (of_outcome o) w).1.env.connection
  mapped-Link c f (ok a) w h = h
  mapped-Link c f (err x) w h = h
  mapped-Link c f panicked w h = h

  pub map_err-IsLinked :
      (f : GoError → GoError) {m : Op E S A} → IsLinked m → IsLinked (map_err f m)
  map_err-IsLinked f {m} hm = record {
    link = λ w. mapped-Link w.env.connection f (m w).0 (m w).1 (hm.link w);
  }

  pub Bool-IsLinked :
      (b : Bool) {m n : Op E S A}
      → IsLinked m
      → IsLinked n
      → IsLinked (elim b as (λ x. Op E S A) [ true ↦ m | false ↦ n ])
  Bool-IsLinked true hm hn = hm
  Bool-IsLinked false hm hn = hn

  pub Option-IsLinked :
      {B : Type 0} (o : Option B) {m : Op E S A} {n : B → Op E S A}
      → IsLinked m
      → ((b : B) → IsLinked (n b))
      → IsLinked (elim o as (λ x. Op E S A) [ none ↦ m | some b ↦ n b ])
  Option-IsLinked none hm hn = hm
  Option-IsLinked (some b) hm hn = hn b
