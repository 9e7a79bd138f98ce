-- ===== src/Infra/MongoDb.antt =====
-- internal/infra/db/mongo_db.go, and the constructors of the two repositories.
pub mod Failure
use kenshu_elaris_project_pa.Base.{ℕ, true, false, Option, none, some, [], ◌∷◌, ◌++◌}
use kenshu_elaris_project_pa.Go.Text.{GoString, lit, text_eq}
use kenshu_elaris_project_pa.Go.Call.{
  Outcome, ok, err, panicked, Call, ◌>>=◌, ◌>>◌, pure, throw, perform, catch,
}
use kenshu_elaris_project_pa.Errors.{GoError, wrapped, error_text}
use kenshu_elaris_project_pa.Validation.{
  Validator, int, uint, pointer, ◌▷◌, new_validator, not_blank, not_nil, positive_value, validate,
}
use kenshu_elaris_project_pa.Config.{MongoConfig}
use kenshu_elaris_project_pa.Infra.Outside.{
  ClientOptions, Deadline, MongoDriver, InfraEvent, mongo_connected, mongo_pinged,
  mongo_disconnected,
}
use kenshu_elaris_project_pa.Infra.Duration.{seconds}

-- The client, and the name of its database.
pub record Db : Type 0 where
  pub client : ℕ
  pub database : GoString

unfoldable pub mongo_validator : MongoConfig → Validator
unfolding new_validator not_blank positive_value
mongo_validator cfg =
    new_validator
    ▷ not_blank (lit "mongo.username") cfg.username
    ▷ not_blank (lit "mongo.password") cfg.password
    ▷ not_blank (lit "mongo.host") cfg.host
    ▷ not_blank (lit "mongo.database") cfg.database
    ▷ positive_value (lit "mongo.connection_timeout_in_seconds")
        (some (int cfg.connection_timeout_in_seconds))
    ▷ positive_value (lit "mongo.server_selection_timeout_in_seconds")
        (some (int cfg.server_selection_timeout_in_seconds))
    ▷ positive_value (lit "mongo.ping_timeout_in_seconds") (some (int cfg.ping_timeout_in_seconds))
    ▷ positive_value (lit "mongo.startup_timeout_in_seconds")
        (some (int cfg.startup_timeout_in_seconds))
    ▷ positive_value (lit "mongo.max_conn_idle_time_in_seconds")
        (some (int cfg.max_conn_idle_time_in_seconds))
    ▷ positive_value (lit "mongo.max_pool_size") (some (uint cfg.max_pool_size))

-- fmt.Sprintf("mongodb://%s:%s@%s", …)
unfoldable pub mongo_uri : MongoConfig → GoString
mongo_uri cfg =
    lit "mongodb://" ++ (cfg.username ++ (lit ":" ++ (cfg.password ++ (lit "@" ++ cfg.host))))

unfoldable pub client_options : MongoConfig → ClientOptions
unfolding mongo_uri seconds text_eq
client_options cfg = record {
  uri = mongo_uri cfg;
  connect_timeout = seconds cfg.connection_timeout_in_seconds;
  server_selection_timeout = seconds cfg.server_selection_timeout_in_seconds;
  max_conn_idle_time = seconds cfg.max_conn_idle_time_in_seconds;
  max_pool_size = cfg.max_pool_size;
  min_pool_size = cfg.min_pool_size;
  retry_writes = cfg.retry_writes;
  replica_set = elim (text_eq cfg.replica_set []) [ true ↦ none | false ↦ some cfg.replica_set ];
}

unfoldable pub ping_error : MongoConfig → GoError → GoError
unfolding mongo_uri
ping_error cfg e =
    wrapped
      (lit "mongo ping failed for URI: " ++ (mongo_uri cfg ++ (lit ", error: " ++ error_text e))) e

module _ {E : Type 0} (mongo : MongoDriver E) where
  -- `_ = client.Disconnect(...)`: whatever it returns, the error of the ping is returned.
  unfoldable pub disconnect_and_fail :
      MongoConfig → ℕ → GoError → Call E InfraEvent GoError (Unit {0})
  unfolding ping_error
  disconnect_and_fail cfg client e = do
    catch {Y = GoError} (perform (mongo_disconnected client) (mongo.disconnect client))
        (λ x. pure tt)
    throw (ping_error cfg e)

  -- What NewMongoDb does with the client that Connect gives.
  unfoldable pub ping_client : MongoConfig → ℕ → Call E InfraEvent GoError Db
  unfolding disconnect_and_fail
  ping_client cfg client = do
    let deadline : Deadline = record {
      startup = some (seconds cfg.startup_timeout_in_seconds);
      own = some (seconds cfg.ping_timeout_in_seconds);
    }
    catch (perform (mongo_pinged client) (mongo.ping deadline client))
        (disconnect_and_fail cfg client)
    pure (record { client = client; database = cfg.database })

  unfoldable pub new_mongo_db : MongoConfig → Call E InfraEvent GoError Db
  unfolding client_options ping_client
  new_mongo_db cfg = elim (validate (mongo_validator cfg)) [
    | some e ↦ throw e
    | none ↦
        perform (mongo_connected (client_options cfg)) (mongo.connect (client_options cfg))
        >>= ping_client cfg
  ]

  unfoldable pub close : Db → Call E InfraEvent GoError (Unit {0})
  close d = perform (mongo_disconnected d.client) (mongo.disconnect d.client)

  -- Ping with context.Background().
  unfoldable pub ping : Db → Call E InfraEvent GoError (Unit {0})
  ping d =
      perform (mongo_pinged d.client) (mongo.ping (record { startup = none; own = none }) d.client)

-- Collection: a collection of the driver by the client, the database and its name.
unfoldable pub collection : Db → GoString → ℕ × GoString × GoString
collection d name = (d.client, d.database, name)

-- NewInvoiceRepo and NewReceiptRepo: the collection of the repository, or the error of the check.
unfoldable pub new_repo : GoString → Option Db → Outcome GoError (ℕ × GoString × GoString)
unfolding collection new_validator not_nil
new_repo name db = elim (validate (new_validator ▷ not_nil (lit "mongo_db") (pointer db))) [
  | some e ↦ err e
  | none ↦ elim db [ none ↦ panicked | some d ↦ ok (collection d name) ]
]

unfoldable pub new_invoice_repo : Option Db → Outcome GoError (ℕ × GoString × GoString)
unfolding new_repo
new_invoice_repo db = new_repo (lit "invoices") db

unfoldable pub new_receipt_repo : Option Db → Outcome GoError (ℕ × GoString × GoString)
unfolding new_repo
new_receipt_repo db = new_repo (lit "receipts") db
