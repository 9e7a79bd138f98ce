-- ===== src/Infra/MongoDb/Failure.antt =====
-- internal/infra/db/mongo_db.go: what NewMongoDb does when the server does not answer.
use mathlib.Core.List.{append_assoc}
use kenshu_elaris_project_pa.Base.{ℕ, ◌≡◌, ap, ◌∙◌, none, some, [], ◌∷◌, ◌++◌}
use kenshu_elaris_project_pa.Go.Text.{GoString, lit}
use kenshu_elaris_project_pa.Go.Call.{World, ok, err, ◌>>=◌, Call, catch, perform, throw, pure}
use kenshu_elaris_project_pa.Errors.{GoError, error_text}
use kenshu_elaris_project_pa.Validation.{validate}
use kenshu_elaris_project_pa.Config.{MongoConfig}
use kenshu_elaris_project_pa.Infra.Outside.{
  Deadline, MongoDriver, InfraEvent, mongo_connected, mongo_pinged, mongo_disconnected,
}
use kenshu_elaris_project_pa.Infra.Duration.{seconds}
use kenshu_elaris_project_pa.Infra.MongoDb.{
  mongo_validator, mongo_uri, Db, client_options, ping_client, ping_error, disconnect_and_fail,
  new_mongo_db,
}

module _ {E : Type 0} (mongo : MongoDriver E) where
  -- The deadline of the ping of NewMongoDb.
  abbrev pub startup_deadline : MongoConfig → Deadline
  startup_deadline cfg = record {
    startup = some (seconds cfg.startup_timeout_in_seconds);
    own = some (seconds cfg.ping_timeout_in_seconds);
  }

  -- The world after a call of the driver.
  abbrev at : World E InfraEvent → E → InfraEvent → World E InfraEvent
  at w e t = record { env = e; trace = w.trace ++ t ∷ [] }

  connected :
      (cfg : MongoConfig) (w : World E InfraEvent) (c : ℕ) (e : E)
      → validate (mongo_validator cfg) ≡ none
      → mongo.connect (client_options cfg) w.env ≡ (ok c, e)
      → new_mongo_db mongo cfg w
        ≡ ping_client mongo cfg c (at w e (mongo_connected (client_options cfg)))
  unfolding new_mongo_db
  connected cfg w c e v h =
      ap
        (λ o.
          (elim o as (λ x. Call E InfraEvent GoError Db) [
            | some x ↦ throw x
            | none ↦
                perform (mongo_connected (client_options cfg)) (mongo.connect (client_options cfg))
                >>= ping_client mongo cfg
          ])
            w)
        v
      ∙ ap
          (λ p.
            ((λ u. (p.0, at w p.1 (mongo_connected (client_options cfg))))
                >>= ping_client mongo cfg)
              w)
          h

  ping_failed :
      (cfg : MongoConfig) (w : World E InfraEvent) (c : ℕ) (e : E) (x : GoError)
      → mongo.ping (startup_deadline cfg) c w.env ≡ (err x, e)
      → (mongo.disconnect c e).0 ≡ ok tt
      → ping_client mongo cfg c w ≡ (
        err (ping_error cfg x),
        at (at w e (mongo_pinged c)) (mongo.disconnect c e).1 (mongo_disconnected c),
      )
  unfolding ping_client disconnect_and_fail
  ping_failed cfg w c e x g d =
      ap
        (λ p.
          (catch (λ u. (p.0, at w p.1 (mongo_pinged c))) (disconnect_and_fail mongo cfg c)
              >>= (λ u. pure (record { client = c; database = cfg.database })))
            w)
        g
      ∙ ap
          (λ o.
            ((catch {Y = GoError}
                    (λ u. (
                      o,
                      at (at w e (mongo_pinged c)) (mongo.disconnect c e).1 (mongo_disconnected c),
                    ))
                    (λ x. pure tt)
                  >>= (λ u. throw (ping_error cfg x)))
                >>= (λ (u : Unit {0}). pure (record { client = c; database = cfg.database })))
              w)
          d

  error_text-password :
      (cfg : MongoConfig) (x : GoError)
      → (before : GoString) × (after : GoString) × (error_text (ping_error cfg x)
          ≡ before ++ cfg.password ++ after)
  unfolding ping_error mongo_uri error_text
  error_text-password cfg x = (
    lit "mongo ping failed for URI: " ++ lit "mongodb://" ++ cfg.username ++ lit ":",
    lit "@" ++ cfg.host ++ lit ", error: " ++ error_text x,
    simp (append_assoc),
  )

  -- If the configuration passes the checks, the driver gives a client and the ping of it fails, then
  -- NewMongoDb disconnects the client and, if that succeeds, returns an error
  -- whose text contains the password in the clear.
  pub new_mongo_db-ping_error :
      (cfg : MongoConfig) (w : World E InfraEvent) (c : ℕ) (e₁ e₂ : E) (x : GoError)
      → validate (mongo_validator cfg) ≡ none
      → mongo.connect (client_options cfg) w.env ≡ (ok c, e₁)
      → mongo.ping (startup_deadline cfg) c e₁ ≡ (err x, e₂)
      → (mongo.disconnect c e₂).0 ≡ ok tt
      → ((new_mongo_db mongo cfg w).0 ≡ err (ping_error cfg x))
        × ((new_mongo_db mongo cfg w).1.trace
            ≡ ((w.trace ++ mongo_connected (client_options cfg) ∷ []) ++ mongo_pinged c ∷ [])
              ++ mongo_disconnected c ∷ [])
        × (before : GoString) × (after : GoString) × (error_text (ping_error cfg x)
            ≡ before ++ cfg.password ++ after)
  new_mongo_db-ping_error cfg w c e₁ e₂ x v h g d =
      let (before, after, text) = error_text-password cfg x in
      let run =
        connected cfg w c e₁ v h
        ∙ ping_failed cfg (at w e₁ (mongo_connected (client_options cfg))) c e₂ x g d in
      (ap (λ p. p.0) run, ap (λ p. p.1.trace) run, before, after, text)
