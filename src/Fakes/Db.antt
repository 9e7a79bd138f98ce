-- ===== src/Fakes/Db.antt =====
-- internal/infra/db/fakes and internal/infra/clock/fakes
use mathlib.Core.Option
use kenshu_elaris_project_pa.Base.{ℕ, suc, Option, none, some, []}
use kenshu_elaris_project_pa.Base.Int.{pos}
use kenshu_elaris_project_pa.Go.Text.{GoString}
use kenshu_elaris_project_pa.Go.Time.{Time}
use kenshu_elaris_project_pa.Go.Call.{ok, Act}
use kenshu_elaris_project_pa.Errors.{GoError}
use kenshu_elaris_project_pa.Document.Invoice.{ObjectId, Invoice}
use kenshu_elaris_project_pa.Document.Receipt.{Receipt}
use kenshu_elaris_project_pa.Port.{Clock, InvoiceRepo, ReceiptRepo}
use kenshu_elaris_project_pa.Fakes.{or_zero, noting}

-- document.Invoice{} and document.Receipt{}
abbrev pub zero_invoice : Invoice
zero_invoice = record {
  id = 0;
  invoice_number = [];
  status = [];
  issued_at = pos 0;
  due_at = pos 0;
  idempotency_id = [];
  booking_id = [];
  payer_id = [];
  payer = record { name = []; email = []; document_number = []; billing_address = [] };
  booking = record {
    cottage_name = [];
    nights = pos 0;
    number_of_guests = pos 0;
    value_per_night = record { amount = pos 0; currency = [] };
  };
  total = record { amount = pos 0; currency = [] };
  tax_total = record { amount = pos 0; currency = [] };
  discount_total = record { amount = pos 0; currency = [] };
  created_at = pos 0;
  updated_at = pos 0;
}

abbrev pub zero_receipt : Receipt
zero_receipt = record {
  id = 0;
  receipt_number = [];
  invoice_number = [];
  card = record { brand = []; last4 = [] };
  processed_at = pos 0;
}

-- FakeInvoiceRepo: the functions, and what it keeps of the calls.
pub record InvoiceRepoFns (S : Type 0) : Type 0 where
  pub get_fn : Option (GoString → Act S GoError Invoice)
  pub add_fn : Option (Invoice → Act S GoError ObjectId)
  pub find_fn : Option (GoString → GoString → Act S GoError Invoice)
  pub update_status_fn : Option (GoString → GoString → Time → Act S GoError (Unit {0}))

pub record InvoiceRepoCalls : Type 0 where
  pub get_call_count : ℕ
  pub add_call_count : ℕ
  pub find_call_count : ℕ
  pub update_status_call_count : ℕ
  pub last_get_invoice_number : GoString
  pub last_added_invoice : Invoice
  pub last_find_booking_number : GoString
  pub last_find_document_number : GoString
  pub last_updated_invoice : GoString
  pub last_updated_status : GoString
  pub last_updated_at : Time

module _ {S : Type 0} (fns : InvoiceRepoFns S) where
  unfoldable pub find_by_invoice_number : GoString → Act (InvoiceRepoCalls × S) GoError Invoice
  find_by_invoice_number invoice_number =
      noting
        (λ c. record c {
          get_call_count = suc c.get_call_count;
          last_get_invoice_number = invoice_number;
        })
        (or_zero (Option.map (λ f. f invoice_number) fns.get_fn) zero_invoice)

  unfoldable pub add : Invoice → Act (InvoiceRepoCalls × S) GoError ObjectId
  add invoice =
      noting (λ c. record c { add_call_count = suc c.add_call_count; last_added_invoice = invoice })
        (or_zero (Option.map (λ f. f invoice) fns.add_fn) 0)

  unfoldable pub find_by_booking_number_and_document_number :
      GoString → GoString → Act (InvoiceRepoCalls × S) GoError Invoice
  find_by_booking_number_and_document_number booking_number document_number =
      noting
        (λ c. record c {
          find_call_count = suc c.find_call_count;
          last_find_booking_number = booking_number;
          last_find_document_number = document_number;
        })
        (or_zero (Option.map (λ f. f booking_number document_number) fns.find_fn) zero_invoice)

  unfoldable pub update_status :
      GoString → GoString → Time → Act (InvoiceRepoCalls × S) GoError (Unit {0})
  update_status invoice_number status updated_at =
      noting
        (λ c. record c {
          update_status_call_count = suc c.update_status_call_count;
          last_updated_invoice = invoice_number;
          last_updated_status = status;
          last_updated_at = updated_at;
        })
        (or_zero (Option.map (λ f. f invoice_number status updated_at) fns.update_status_fn) tt)

  unfoldable pub fake_invoice_repo : InvoiceRepo (InvoiceRepoCalls × S)
  unfolding find_by_invoice_number add find_by_booking_number_and_document_number update_status
  fake_invoice_repo = record {
    find_by_invoice_number = find_by_invoice_number;
    find_by_booking_number_and_document_number = find_by_booking_number_and_document_number;
    update_status = update_status;
    add = add;
  }

-- FakeReceiptRepo
pub record ReceiptRepoFns (S : Type 0) : Type 0 where
  pub get_fn : Option (ObjectId → Act S GoError Receipt)
  pub add_fn : Option (Receipt → Act S GoError ObjectId)

pub record ReceiptRepoCalls : Type 0 where
  pub get_call_count : ℕ
  pub add_call_count : ℕ
  pub last_get_id : ObjectId
  pub last_add_receipt : Receipt

unfoldable pub fake_receipt_repo :
    {S : Type 0} → ReceiptRepoFns S → ReceiptRepo (ReceiptRepoCalls × S)
fake_receipt_repo fns = record {
  get_by_id = λ id.
      noting (λ c. record c { get_call_count = suc c.get_call_count; last_get_id = id })
        (or_zero (Option.map (λ f. f id) fns.get_fn) zero_receipt);
  add = λ receipt.
      noting (λ c. record c { add_call_count = suc c.add_call_count; last_add_receipt = receipt })
        (or_zero (Option.map (λ f. f receipt) fns.add_fn) 0);
}

-- FakeClock; `local_now` is time.Now in UTC. It counts nothing.
unfoldable pub fake_clock : {S : Type 0} → (S → Time × S) → Option (Act S GoError Time) → Clock S
fake_clock local_now none = record { now = λ s. let (t, s') = local_now s in (ok t, s') }
fake_clock local_now (some fn) = record { now = fn }
