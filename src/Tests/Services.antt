-- ===== src/Tests/Services.antt =====
-- The services over concrete packages, all of whose calls succeed.
use kenshu_elaris_project_pa.Base.{Option, none, some, [], ◌∷◌}
use kenshu_elaris_project_pa.Base.Int.{pos}
use kenshu_elaris_project_pa.Go.Text.{GoString, lit}
use kenshu_elaris_project_pa.Go.Time.{Time}
use kenshu_elaris_project_pa.Go.Call.{ok, err}
use kenshu_elaris_project_pa.Errors.{foreign}
use kenshu_elaris_project_pa.Document.Invoice.{Invoice}
use kenshu_elaris_project_pa.Port.{
  Clock, InvoiceRepo, ReceiptRepo, MqProducer, Entropy, Timestamps, Codec,
}
use kenshu_elaris_project_pa.Db.Collection.{Collection, found, inserted, matched}
use kenshu_elaris_project_pa.App.InvoiceService.{InvoiceService}
use kenshu_elaris_project_pa.App.PaymentMaking.{PaymentMakingService}
use kenshu_elaris_project_pa.App.PaymentReissue.{PaymentReissueService}
use kenshu_elaris_project_pa.Dto.CreateInvoicePaymentRequest.{CreateInvoicePaymentRequest}
use kenshu_elaris_project_pa.Tests.Fixtures.{Env, noon, bill}

abbrev clock : Clock Env
clock = record { now = λ e. (ok noon, e) }

-- A repository that holds one invoice.
abbrev invoice_repo : Invoice → InvoiceRepo Env
invoice_repo i = record {
  find_by_invoice_number = λ n e. (ok i, e);
  find_by_booking_number_and_document_number = λ b d e. (ok i, e);
  update_status = λ n s t e. (ok tt, e);
  add = λ j e. (ok 9, e);
}

abbrev receipt_repo : ReceiptRepo Env
receipt_repo = record {
  get_by_id = λ id e. (err (foreign (lit "none")), e);
  add = λ r e. (ok 9, e);
}

abbrev producer : MqProducer Env Time
producer = record { publish = λ m k e. (ok tt, e) }

abbrev pub entropy : Entropy Env
entropy = record {
  new_random = λ e. (ok (lit "ab-cd"), e);
  read = λ n e. (ok (1 ∷ 2 ∷ 3 ∷ 4 ∷ 5 ∷ 6 ∷ []), e);
  rand_int = λ e. (41, e);
  new_object_id = λ e. (9, e);
}

abbrev pub as_time : Option Time → Time
as_time none = pos 62135596800000000000
as_time (some t) = t

abbrev timestamps : Timestamps Env Time
timestamps = record { as_time = as_time; new = λ t. t; now = λ e. (noon, e) }

-- Every body is the request given.
abbrev codec : CreateInvoicePaymentRequest Time → Codec Time
codec req = record {
  proto_unmarshal = λ body. ok req;
  protojson_unmarshal = λ body. err (foreign (lit "not json"));
  quote = λ s. s;
}

abbrev pub host : GoString
host = lit "http://h"

abbrev pub invoices : CreateInvoicePaymentRequest Time → InvoiceService Env Time
invoices req = record {
  clock = clock;
  invoice_repo = invoice_repo bill;
  payment_producer = producer;
  payment_host = host;
  acknowledger = record { ack = λ t m e. (ok tt, e); nack = λ t m r e. (ok tt, e) };
  entropy = entropy;
  timestamps = timestamps;
  codec = codec req;
}

abbrev pub payments : Invoice → PaymentMakingService Env Time
payments i = record {
  fail_chance = pos 10;
  clock = clock;
  invoice_repo = invoice_repo i;
  receipt_repo = receipt_repo;
  payment_producer = producer;
  entropy = entropy;
  timestamps = timestamps;
}

abbrev pub reissues : PaymentReissueService Env
reissues = record { invoice_repo = invoice_repo bill; payment_host = host }

-- A collection of invoices that takes every document.
abbrev pub collection : Collection Env Invoice
collection = record {
  find_one = λ f e. (found bill, e);
  insert_one = λ i e. (inserted 9, e);
  update_one = λ f u e. (matched 1, e);
  err_no_documents = foreign (lit "mongo: no documents in result");
}

-- A service whose outside is the status of the one invoice that it stores.
abbrev pub ledger : PaymentMakingService GoString Time
ledger = record {
  fail_chance = pos 10;
  clock = record { now = λ e. (ok noon, e) };
  invoice_repo = record {
    find_by_invoice_number = λ n e. (ok (record bill { status = e }), e);
    find_by_booking_number_and_document_number = λ b d e. (ok (record bill { status = e }), e);
    update_status = λ n s t e. (ok tt, s);
    add = λ j e. (ok 9, e);
  };
  receipt_repo = record {
    get_by_id = λ id e. (err (foreign (lit "none")), e);
    add = λ r e. (ok 9, e);
  };
  payment_producer = record { publish = λ m k e. (ok tt, e) };
  entropy = record {
    new_random = λ e. (ok (lit "ab-cd"), e);
    read = λ n e. (ok (1 ∷ 2 ∷ 3 ∷ 4 ∷ 5 ∷ 6 ∷ []), e);
    rand_int = λ e. (41, e);
    new_object_id = λ e. (9, e);
  };
  timestamps = record { as_time = as_time; new = λ t. t; now = λ e. (noon, e) };
}
