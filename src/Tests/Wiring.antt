-- ===== src/Tests/Wiring.antt =====
-- The start and the end of the program on concrete drivers.
use kenshu_elaris_project_pa.Validation.{validate, positive_error, blank_error}
use kenshu_elaris_project_pa.Base.{ℕ, suc, ◌≡◌, ◌⊎◌, ◌↔◌, refl, true, false, some, [], ◌∷◌, ◌++◌}
use kenshu_elaris_project_pa.Base.Int.{pos, ltb_ℤ}
use kenshu_elaris_project_pa.Go.Text.{GoString, lit, is_blank}
use kenshu_elaris_project_pa.Go.Time.{Time}
use kenshu_elaris_project_pa.Go.Call.{World, ok, err}
use kenshu_elaris_project_pa.Go.Call.Emits.{Extends}
use kenshu_elaris_project_pa.Errors.{foreign, error_text}
use kenshu_elaris_project_pa.Validation.Laws.{NotBlank}
use kenshu_elaris_project_pa.Config.{MongoConfig, Configs}
use kenshu_elaris_project_pa.Infra.Outside.{
  MongoDriver, InfraEvent, mongo_connected, mongo_pinged, mongo_disconnected,
}
use kenshu_elaris_project_pa.Infra.MongoDb.{
  Db, client_options, ping_error, new_mongo_db, mongo_validator,
}
use kenshu_elaris_project_pa.Infra.MongoDb.Failure.{new_mongo_db-ping_error}
use kenshu_elaris_project_pa.Infra.System.{System}
use kenshu_elaris_project_pa.Infra.Init.{Drivers, Components}
use kenshu_elaris_project_pa.Transport.{HttpServer, HttpPackage, readiness_handler}
use kenshu_elaris_project_pa.Transport.Readiness.{IsOpen, IsAnswered, readiness_handler-readiness}
use kenshu_elaris_project_pa.Main.{shutdown}
use kenshu_elaris_project_pa.Main.Order.{Ends, shutdown-Extends}
use kenshu_elaris_project_pa.App.Init.{Services, Packages, InvoiceProcessor, init}
use kenshu_elaris_project_pa.App.Init.Laws.{all_ports, services_of, init_iff}
use kenshu_elaris_project_pa.Tests.Fixtures.{Env, noon, order, delivery}
use kenshu_elaris_project_pa.Tests.Fixtures
use kenshu_elaris_project_pa.Tests.Services.{invoices, payments}
use kenshu_elaris_project_pa.Tests.Broker.{amqp, config, connection, publishing, consuming}

-- A server of MongoDB that does not answer.
abbrev pub silent_mongo : MongoDriver ℕ
silent_mongo = record {
  connect = λ o n. (ok 1, suc n);
  ping = λ d c n. (err (foreign (lit "timeout")), suc n);
  disconnect = λ c n. (ok tt, suc n);
}

abbrev mongo_config : MongoConfig
mongo_config = record {
  username = lit "root";
  password = lit "secret";
  host = lit "db";
  database = lit "pay";
  replica_set = [];
  connection_timeout_in_seconds = pos 10;
  server_selection_timeout_in_seconds = pos 10;
  ping_timeout_in_seconds = pos 5;
  startup_timeout_in_seconds = pos 10;
  max_conn_idle_time_in_seconds = pos 60;
  max_pool_size = 100;
  min_pool_size = 0;
  retry_writes = true;
  collections = record { invoice_collection = lit "Invoice"; receipt_collection = lit "Receipt" };
}

abbrev pub configs : Configs
configs = record {
  app_config = record {
    service_name = lit "pay";
    version = lit "1";
    log_config = record { level = pos 0 };
    server_config = record {
      host = lit "h";
      port = pos 80;
      read_header_timeout_in_seconds = pos 5;
      read_timeout_in_seconds = pos 10;
      write_timeout_in_seconds = pos 15;
      idle_timeout_in_seconds = pos 60;
    };
  };
  services = record {
    clock_simulator_config = record { grpc_host = lit "clock"; grpc_port = pos 90 };
    payment_making_card_config = record { host = lit "http://h"; fail_chance = pos 10 };
  };
  mongo_config = mongo_config;
  rabbit_mq_config = config;
  telemetry_config = record {
    otlp_endpoint = lit "otel";
    otlp_grpc_port = pos 4317;
    otlp_health_port = pos 4318;
    otlp_insecure = true;
    shutdown_timeout_in_seconds = pos 15;
  };
}

abbrev pub drivers : Drivers ℕ Time
drivers = record {
  otel = record {
    new_resource = λ s n. (ok n, suc n);
    new_trace_exporter = λ o n. (ok n, suc n);
    new_metric_exporter = λ o n. (ok n, suc n);
    trace_provider = λ e r. e;
    meter_provider = λ e r. e;
    set_globals = λ t m n. n;
    new_instrument = λ i n. (ok tt, suc n);
    shutdown_traces = λ d t n. (err (foreign (lit "late")), suc n);
    shutdown_metrics = λ d m n. (ok tt, suc n);
  };
  mongo = silent_mongo;
  amqp = amqp;
  grpc = record {
    new_client = λ t n. (ok 2, suc n);
    now = λ c n. (ok (record { time = some noon }), suc n);
    close_client = λ c n. (ok tt, suc n);
  };
}

abbrev pub http : HttpPackage ℕ
http = record { shutdown = λ s n. (ok tt, suc n); is_server_closed = λ e. false }

abbrev mongo_db : Db
mongo_db = record { client = 1; database = lit "pay" }

abbrev components : Components
components = record {
  shutdown_telemetry = record { timeout = pos 15; trace_provider = 1; meter_provider = 2 };
  mongo_db = mongo_db;
  invoice_repo = (1, lit "pay", lit "invoices");
  receipt_repo = (1, lit "pay", lit "receipts");
  clock = record { conn = 2 };
}

abbrev server : HttpServer
server = record {
  addr = lit "h:80";
  read_header_timeout = pos 5;
  read_timeout = pos 10;
  write_timeout = pos 15;
  idle_timeout = pos 60;
}

-- The program when all is open.
abbrev pub running : World (System ℕ) InfraEvent
running = record {
  env = record {
    outside = 9;
    connection = connection (some 7) false;
    payment_producer = record {
      channel = some 3;
      own = record {
        exchange_name = lit "payments";
        exchange_kind = lit "direct";
        publish_config = publishing;
      };
    };
    guest_comm_producer = record {
      channel = some 4;
      own = record {
        exchange_name = lit "guests";
        exchange_kind = lit "direct";
        publish_config = publishing;
      };
    };
    invoice_consumer = record {
      channel = some 5;
      own = record { queue = some (lit "q"); consume_config = consuming };
    };
  };
  trace = [];
}

abbrev packages : Packages Env Time
packages = record {
  acknowledger = (invoices order).acknowledger;
  entropy = (invoices order).entropy;
  timestamps = (invoices order).timestamps;
  codec = (invoices order).codec;
}

abbrev processor : InvoiceProcessor Env Time
processor = record {
  service = invoices order;
  invoice_consumer = record { consume = λ e. (err (foreign (lit "gone")), e) };
}

readiness_handler-readiness_example :
    (IsOpen amqp silent_mongo mongo_db running
      × IsAnswered amqp silent_mongo mongo_db
          (err (foreign (lit "timeout")))
          (readiness_handler amqp silent_mongo mongo_db running).0
      × ((readiness_handler amqp silent_mongo mongo_db running).1.trace ≡ mongo_pinged 1 ∷ []))
    ⊎ (¬ IsOpen amqp silent_mongo mongo_db running
        × ((readiness_handler amqp silent_mongo mongo_db running).0
            ≡ ok (record { code = 503; body = lit "rabbitmq connection closed\n" }))
        × ((readiness_handler amqp silent_mongo mongo_db running).1.trace ≡ []))
readiness_handler-readiness_example = readiness_handler-readiness amqp silent_mongo mongo_db running

shutdown-Extends_example : Extends Ends [] (shutdown drivers http components server running).1.trace
shutdown-Extends_example = shutdown-Extends drivers http components server running

new_mongo_db-ping_error_example :
    ((new_mongo_db silent_mongo mongo_config (record { env = 0; trace = [] })).0
      ≡ err (ping_error mongo_config (foreign (lit "timeout"))))
    × ((new_mongo_db silent_mongo mongo_config (record { env = 0; trace = [] })).1.trace
        ≡ mongo_connected (client_options mongo_config)
          ∷ mongo_pinged 1
          ∷ mongo_disconnected 1
          ∷ [])
    × (before : GoString) × (after : GoString) × (error_text
          (ping_error mongo_config (foreign (lit "timeout")))
        ≡ before ++ lit "secret" ++ after)
unfolding validate mongo_validator positive_error blank_error is_blank lit
new_mongo_db-ping_error_example =
    new_mongo_db-ping_error silent_mongo mongo_config (record { env = 0; trace = [] }) 1 1 2
      (foreign (lit "timeout")) refl refl refl refl

-- The services of the test.
abbrev built : Services Env Time
built =
    services_of packages configs (payments Fixtures.bill).clock
      (payments Fixtures.bill).invoice_repo (payments Fixtures.bill).receipt_repo
      (payments Fixtures.bill).payment_producer (payments Fixtures.bill).payment_producer
      processor.invoice_consumer

init_iff_example :
    (init packages configs (
        all_ports packages
          (payments Fixtures.bill).clock
          (payments Fixtures.bill).invoice_repo
          (payments Fixtures.bill).receipt_repo
          (payments Fixtures.bill).payment_producer
          (payments Fixtures.bill).payment_producer
          processor.invoice_consumer)
      ≡ ok built)
    ↔ ((ltb_ℤ (pos 10) (pos 0) ≡ false) × NotBlank (lit "http://h") × (built ≡ built))
init_iff_example =
    init_iff packages configs (payments Fixtures.bill).clock (payments Fixtures.bill).invoice_repo
      (payments Fixtures.bill).receipt_repo (payments Fixtures.bill).payment_producer
      (payments Fixtures.bill).payment_producer processor.invoice_consumer built
