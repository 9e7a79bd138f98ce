-- ===== src/Db/InvoiceRepo/Laws.antt =====
-- What the invoice repository lets through to the collection, and how it reports the results.
use kenshu_elaris_project_pa.Base.{◌≡◌, refl, true, false}
use kenshu_elaris_project_pa.Go.Text.{lit, is_blank}
use kenshu_elaris_project_pa.Go.Call.{Outcome, ok, err}
use kenshu_elaris_project_pa.Errors.{GoError, db_unexpected, error_as, to_db_already_exists}
use kenshu_elaris_project_pa.Validation.{instant, is_zero}
use kenshu_elaris_project_pa.Validation.Laws.{NotBlank, IsPositive}
use kenshu_elaris_project_pa.Document.Invoice.{ObjectId, Invoice, is_valid_invoice_status}
use kenshu_elaris_project_pa.Document.Invoice.Laws.{IsValid}
use kenshu_elaris_project_pa.Db.Collection.{
  Collection, InsertResult, inserted, inserted_other, duplicate_key, insert_failed,
}

-- What the repository asks of a document before it stores it.
pub record IsStorable (i : Invoice) : Type 0 where
  pub number : NotBlank i.invoice_number
  pub status : NotBlank i.status
  pub known_status : is_valid_invoice_status i.status ≡ true
  pub idempotency_id : NotBlank i.idempotency_id
  pub booking_id : NotBlank i.booking_id
  pub payer_id : NotBlank i.payer_id
  pub document_number : NotBlank i.payer.document_number
  pub amount : IsPositive i.total.amount
  pub currency : NotBlank i.total.currency
  pub issued_at : is_zero (instant i.issued_at) ≡ false
  pub due_at : is_zero (instant i.due_at) ≡ false

-- What Add reports of each answer of the driver: the identifier of a stored document; an error that
-- is known as that of an existing document exactly if the driver has reported a duplicate key; and an
-- unexpected error, which holds the driver's, if the insertion has failed otherwise.
unfoldable pub Reports : InsertResult → Outcome GoError ObjectId → Type 0
Reports (inserted id) o = o ≡ ok id
Reports (inserted_other type_name) o =
    (e : GoError) × (o ≡ err (db_unexpected (lit "unexpected inserted id type") e))
Reports (duplicate_key x) o = (e : GoError) × (o ≡ err e) × (error_as to_db_already_exists e ≡ true)
Reports (insert_failed x) o = o ≡ err (db_unexpected (lit "failed to insert invoice") x)

-- Every invoice that the program makes with a number and with times other than the zero time can
-- be stored.
pub IsStorable-of_IsValid :
    (i : Invoice)
    → IsValid i
    → NotBlank i.invoice_number
    → is_zero (instant i.issued_at) ≡ false
    → is_zero (instant i.due_at) ≡ false
    → IsStorable i
unfolding is_valid_invoice_status is_blank lit
IsStorable-of_IsValid i v number issued due = record {
  number = number;
  status = rw v.pending refl;
  known_status = rw v.pending refl;
  idempotency_id = v.idempotency_id;
  booking_id = v.booking_id;
  payer_id = v.payer_id;
  document_number = v.document_number;
  amount = v.total_amount;
  currency = v.total_currency;
  issued_at = issued;
  due_at = due;
}
