-- ===== src/Tests/Running.antt =====
-- The whole program on concrete drivers, and payments that meet a repository.
use kenshu_elaris_project_pa.Infra
use kenshu_elaris_project_pa.App
use kenshu_elaris_project_pa.Infra.Clock
use kenshu_elaris_project_pa.Db.InvoiceRepo.{
  find_by_invoice_number, number_validator, update_status, update_validator,
}
use kenshu_elaris_project_pa.Transport.Gateway.{pay_route}
use kenshu_elaris_project_pa.Mq.Connection
use kenshu_elaris_project_pa.Main.{shutdown}
use kenshu_elaris_project_pa.Transport.Gateway.Registration.{
  register_pay_handler_server, register_reissue_handler_server,
}
use kenshu_elaris_project_pa.Transport.{
  init_transport, new_http_server, http_validator, shutdown_server,
}
use kenshu_elaris_project_pa.Mq.Consumer
use kenshu_elaris_project_pa.Infra.Ports.{
  ports_of, invoice_consumer_port, clock_of, invoice_repo_of,
}
use kenshu_elaris_project_pa.App.Init.{
  new_payment_making_server, new_payment_reissue_service, new_invoice_service,
}
use kenshu_elaris_project_pa.Infra.Clock.{new_clock, clock_validator, clock_port}
use kenshu_elaris_project_pa.Mq.Consumer.{
  new_rabbitmq_consumer, declare_queue, declare_on_channel, bind_queue, bind_on_channel,
  ensure_not_nil, consume_from,
}
use kenshu_elaris_project_pa.Mq.Channel.{
  new_rabbit_mq_channel, channel_validator, open_channel, channel_on, ensure_channel, is_usable,
  with_channel, close_channel,
}
use kenshu_elaris_project_pa.Mq.Producer.{new_rabbitmq_producer, declare_exchange}
use kenshu_elaris_project_pa.Mq.Connection.{
  new_rabbit_mq_connection, connection_validator, reconnect_locked, dial_loop, open_connection,
  is_live,
}
use kenshu_elaris_project_pa.Validation.{
  validate, positive_error, blank_error, nil_error, zero_error,
}
use kenshu_elaris_project_pa.Infra.MongoDb.{
  new_mongo_db, mongo_validator, new_invoice_repo, new_receipt_repo,
}
use kenshu_elaris_project_pa.Infra.Telemetry.{
  init_telemetry, new_trace_provider, new_meter_provider, init_metrics, shutdown_telemetry,
}
use kenshu_elaris_project_pa.App.Util.{generate_human_friendly_id, suffix_from}
use kenshu_elaris_project_pa.Base.{ℕ, suc, ◌≡◌, refl, sym, ap, true, Option, none, some, [], ◌∷◌}
use kenshu_elaris_project_pa.Go.Text.{GoString, lit, equal_fold, remove_byte, is_blank}
use kenshu_elaris_project_pa.Go.Time.{Time, format_date}
use kenshu_elaris_project_pa.Go.Call.{ok}
use kenshu_elaris_project_pa.Errors.{foreign}
use kenshu_elaris_project_pa.Document.Invoice.{Invoice, status_paid, is_valid_invoice_status}
use kenshu_elaris_project_pa.Document.Receipt.{Receipt, receipt_of_response}
use kenshu_elaris_project_pa.Config.{Configs, load_configs}
use kenshu_elaris_project_pa.Db.Collection.{
  Collection, BsonM, text, time, object_id, FindResult, found, no_documents, find_failed, inserted,
  matched,
}
use kenshu_elaris_project_pa.App.PaymentMaking.{
  Answer, build_response, last_four, pay_with_card, card_validator,
}
use kenshu_elaris_project_pa.App.PaymentMaking.Once.{KeepsStatus}
use kenshu_elaris_project_pa.App.PaymentMaking.Stored.{
  IsStore, IsSeparate, stored, invoice_repo_of-KeepsStatus,
}
use kenshu_elaris_project_pa.App.PaymentMaking.Overlap.{
  IsSmooth, overlapping, pay_found_overlapping,
}
use kenshu_elaris_project_pa.Main.Run.{Job, requested_payment, Program, run}
use kenshu_elaris_project_pa.Main.Run.Checks.{IsRunnable, run-ok}
use kenshu_elaris_project_pa.Tests.Fixtures.{
  Env, noon, start, bill, payment, order, response, reissue_request,
}
use kenshu_elaris_project_pa.Tests.Services.{ledger, payments, invoices, as_time}
use kenshu_elaris_project_pa.Tests.Payments.{becomes_paid}
use kenshu_elaris_project_pa.Tests.Broker.{encoding}
use kenshu_elaris_project_pa.Tests.Wiring.{silent_mongo, configs, drivers, http, running}

abbrev pub status_in : GoString → GoString → Option GoString
status_in e n = some e

-- The value that an update of two fields sets first.
abbrev pub written : BsonM → GoString
written [] = []
written ((name, text s) ∷ fields) = s
written ((name, time t) ∷ fields) = []
written ((name, object_id i) ∷ fields) = []

abbrev status_found : FindResult Invoice × GoString → Option GoString
status_found (found i, e) = some i.status
status_found (no_documents x, e) = none
status_found (find_failed x, e) = none

-- A collection of one invoice, of which the status is the state.
abbrev pub ledger_collection : Collection GoString Invoice
ledger_collection = record {
  find_one = λ filter e. (found (record bill { status = e }), e);
  insert_one = λ i e. (inserted 9, e);
  update_one = λ filter update e. (matched 1, written update);
  err_no_documents = foreign (lit "mongo: no documents in result");
}

ledger-IsStore : IsStore status_in ledger_collection
ledger-IsStore = record {
  finds = λ n e e' i h. ap status_found h;
  sets = λ n status t e e' k h. sym (ap (λ p. some p.1) h);
}

ledger-IsSeparate : IsSeparate ledger status_in ledger_collection
ledger-IsSeparate = record {
  now = λ e. refl;
  new_random = λ e. refl;
  read = λ n e. refl;
  rand_int = λ e. refl;
  timestamp = λ e. refl;
}

invoice_repo_of-KeepsStatus_example :
    KeepsStatus (stored ledger status_in ledger_collection) status_in
invoice_repo_of-KeepsStatus_example =
    invoice_repo_of-KeepsStatus ledger status_in ledger_collection ledger-IsStore ledger-IsSeparate

payment-IsSmooth : IsSmooth (payments bill) (some payment) noon
unfolding lit build_response last_four generate_human_friendly_id suffix_from remove_byte
    format_date
payment-IsSmooth = record {
  drawn = λ e. refl;
  updated = λ e. (tt, refl);
  built = λ w. (record response { receipt_number = lit "RCPT-20260308-bcdabc" }, tt, refl);
}

pay_found_overlapping_example :
    (a : Answer Time) × (b : Answer Time) × (env : Env) × (overlapping
        (payments bill)
        (some payment)
        (some payment)
        noon
        start
      ≡ (ok (a, b), record { env = env; trace = becomes_paid ∷ becomes_paid ∷ [] }))
    × (a.post_payment ≡ some (noon, a.response))
    × (b.post_payment ≡ some (noon, b.response))
unfolding status_paid lit equal_fold
pay_found_overlapping_example =
    pay_found_overlapping (payments bill) (some payment) (some payment) noon bill bill start tt tt
      refl refl refl refl payment-IsSmooth payment-IsSmooth

-- A collection that holds one document.
abbrev collection_of : {D : Type 0} → D → Collection ℕ D
collection_of d = record {
  find_one = λ filter n. (found d, n);
  insert_one = λ i n. (inserted 9, suc n);
  update_one = λ filter update n. (matched 1, suc n);
  err_no_documents = foreign (lit "mongo: no documents in result");
}

abbrev kept_receipt : Receipt
kept_receipt = receipt_of_response as_time 9 (some response)

-- The program on drivers that count the calls.
abbrev program : Program ℕ Time ℕ
program = record {
  parse = λ n. (ok configs, suc n);
  drivers = record drivers { mongo = record silent_mongo { ping = λ d c n. (ok tt, suc n) } };
  packaging = record {
    invoices = λ name. collection_of bill;
    receipts = λ name. collection_of kept_receipt;
    encoding = encoding;
    as_time = as_time;
  };
  packages = record {
    acknowledger = record { ack = λ t m n. (ok tt, suc n); nack = λ t m r n. (ok tt, suc n) };
    entropy = record {
      new_random = λ n. (ok (lit "ab-cd"), n);
      read = λ k n. (ok (1 ∷ 2 ∷ 3 ∷ 4 ∷ 5 ∷ 6 ∷ []), n);
      rand_int = λ n. (41, n);
      new_object_id = λ n. (9, n);
    };
    timestamps = record { as_time = as_time; new = λ t. t; now = λ n. (noon, n) };
    codec = (invoices order).codec;
  };
  runtime = record {
    decode_card = λ req. (payment.card, none);
    decode_reissue = λ req. (reissue_request, none);
    string = λ val. ok val;
    annotate = λ procedure path req w. (ok tt, w);
  };
  mux_package = record { new_serve_mux = 0; handle = λ route n. suc n };
  http = http;
}

abbrev job : Job Time
job = requested_payment (record { body = lit "{}" }) (λ name. some (lit "INV-1"))

running-ended : (run program (job ∷ []) running).0 ≡ ok tt
unfolding run load_configs Infra.Init.init App.Init.init init_telemetry new_trace_provider
    new_meter_provider init_metrics new_mongo_db validate mongo_validator positive_error blank_error
    is_blank lit new_invoice_repo nil_error new_receipt_repo new_rabbit_mq_connection
    connection_validator reconnect_locked dial_loop new_rabbitmq_producer new_rabbit_mq_channel
    channel_validator open_channel open_connection is_live channel_on declare_exchange
    ensure_channel is_usable with_channel new_rabbitmq_consumer declare_queue declare_on_channel
    bind_queue bind_on_channel new_clock clock_validator new_payment_making_server ports_of
    new_payment_reissue_service new_invoice_service invoice_consumer_port Consumer.consume
    ensure_not_nil consume_from init_transport register_pay_handler_server
    register_reissue_handler_server new_http_server http_validator shutdown shutdown_telemetry
    Connection.close pay_route pay_with_card card_validator zero_error clock_of clock_port
    invoice_repo_of find_by_invoice_number number_validator equal_fold status_paid update_status
    update_validator is_valid_invoice_status build_response last_four generate_human_friendly_id
    suffix_from remove_byte close_channel shutdown_server Clock.close
running-ended = refl

run-ok_example :
    (cfg : Configs) × ((program.parse 9).0 ≡ ok cfg)
    × IsRunnable program cfg
    × ((run program (job ∷ []) running).1.env.connection.closed ≡ true)
run-ok_example =
    run-ok program (job ∷ []) running (run program (job ∷ []) running).1
      (ap (λ o. (o, (run program (job ∷ []) running).1)) running-ended)
