-- ===== src/Db/InvoiceRepo.antt =====
-- internal/infra/db/invoice_repository.go
pub mod Laws
pub mod Updates
use kenshu_elaris_project_pa.Base.{
  ℕ, Bool, true, false, Option, none, some, List, [], ◌∷◌, ◌++◌, ◌==◌, if◌then◌else◌,
}
use kenshu_elaris_project_pa.Go.Text.{GoString, lit}
use kenshu_elaris_project_pa.Go.Time.{Time}
use kenshu_elaris_project_pa.Go.Call.{Outcome, ok, err, Act}
use kenshu_elaris_project_pa.Errors.{
  GoError, foreign, constrain, db_unexpected, db_corrupted_data, db_already_exists,
  db_invoice_not_found,
}
use kenshu_elaris_project_pa.Validation.{
  Validator, int, instant, ◌▷◌, new_validator, not_blank, not_zero_value, positive_value, validate,
}
use kenshu_elaris_project_pa.Document.Invoice.{ObjectId, Invoice, is_valid_invoice_status}
use kenshu_elaris_project_pa.Db.Collection.{
  BsonValue, text, time, BsonM, FindResult, found, no_documents, find_failed, InsertResult,
  inserted, inserted_other, duplicate_key, insert_failed, UpdateResult, matched, update_failed,
  Collection,
}

-- The validations at the head of the methods.
unfoldable pub number_validator : GoString → Validator
unfolding new_validator not_blank
number_validator invoice_number = new_validator ▷ not_blank (lit "invoiceNumber") invoice_number

unfoldable pub booking_validator : GoString → GoString → Validator
unfolding new_validator not_blank
booking_validator booking_number document_number =
    new_validator
    ▷ not_blank (lit "bookingNumber") booking_number
    ▷ not_blank (lit "documentNumber") document_number

unfoldable pub invoice_validator : Invoice → Validator
unfolding new_validator not_blank positive_value not_zero_value
invoice_validator invoice =
    new_validator
    ▷ not_blank (lit "invoice.invoice_number") invoice.invoice_number
    ▷ not_blank (lit "invoice.status") invoice.status
    ▷ not_blank (lit "invoice.idempotency_id") invoice.idempotency_id
    ▷ not_blank (lit "invoice.booking_id") invoice.booking_id
    ▷ not_blank (lit "invoice.payer_id") invoice.payer_id
    ▷ not_blank (lit "invoice.payer.document_number") invoice.payer.document_number
    ▷ positive_value (lit "invoice.total.amount") (some (int invoice.total.amount))
    ▷ not_blank (lit "invoice.total.currency") invoice.total.currency
    ▷ not_zero_value (lit "invoice.issued_at") (instant invoice.issued_at)
    ▷ not_zero_value (lit "invoice.due_at") (instant invoice.due_at)

unfoldable pub update_validator : GoString → GoString → Time → Validator
unfolding new_validator not_blank not_zero_value
update_validator invoice_number status updated_at =
    new_validator
    ▷ not_blank (lit "invoiceNumber") invoice_number
    ▷ not_blank (lit "status") status
    ▷ not_zero_value (lit "updatedAt") (instant updated_at)

unfoldable pub number_filter : GoString → BsonM
number_filter invoice_number = (lit "invoice_number", text invoice_number) ∷ []

unfoldable pub booking_filter : GoString → GoString → BsonM
booking_filter booking_number document_number =
    (lit "booking_id", text booking_number)
    ∷ (lit "payer.document_number", text document_number)
    ∷ []

module _ {E : Type 0} (collection : Collection E Invoice) where
  -- The result of FindOne and Decode, as `find` reports it.
  unfoldable pub find_outcome : FindResult Invoice → Outcome GoError Invoice
  find_outcome (found invoice) = ok invoice
  find_outcome (no_documents e) = err (db_invoice_not_found e)
  find_outcome (find_failed e) = err (db_corrupted_data e)

  unfoldable pub find : BsonM → Act E GoError Invoice
  unfolding find_outcome
  find filter env = let (r, env') = collection.find_one filter env in (find_outcome r, env')

  unfoldable pub find_by_invoice_number : GoString → Act E GoError Invoice
  unfolding find
  find_by_invoice_number invoice_number env = elim (validate (number_validator invoice_number)) [
    | some e ↦ (err e, env)
    | none ↦ find (number_filter invoice_number) env
  ]

  unfoldable pub find_by_booking_number_and_document_number :
      GoString → GoString → Act E GoError Invoice
  unfolding find
  find_by_booking_number_and_document_number booking_number document_number env =
      elim (validate (booking_validator booking_number document_number)) [
        | some e ↦ (err e, env)
        | none ↦ find (booking_filter booking_number document_number) env
      ]

  unfoldable pub insert_outcome : InsertResult → Outcome GoError ObjectId
  insert_outcome (inserted id) = ok id
  insert_outcome (inserted_other type_name) = err (
      db_unexpected (lit "unexpected inserted id type")
        (foreign (lit "unexpected inserted id type: " ++ type_name)))
  insert_outcome (duplicate_key e) = err (db_already_exists e)
  insert_outcome (insert_failed e) = err (db_unexpected (lit "failed to insert invoice") e)

  unfoldable pub add : Invoice → Act E GoError ObjectId
  unfolding insert_outcome
  add invoice env = elim (validate (invoice_validator invoice)) [
    | some e ↦ (err e, env)
    | none ↦ elim (is_valid_invoice_status invoice.status) [
      | false ↦ (err (constrain (lit "invoice.status") (lit "must be one of pending, paid")), env)
      | true ↦ let (r, env') = collection.insert_one invoice env in (insert_outcome r, env')
    ]
  ]

  unfoldable pub update_outcome : UpdateResult → Outcome GoError (Unit {0})
  update_outcome (matched count) =
      if count == 0 then err (db_invoice_not_found collection.err_no_documents) else ok tt
  update_outcome (update_failed e) = err (db_unexpected (lit "failed to update invoice status") e)

  unfoldable pub update_status : GoString → GoString → Time → Act E GoError (Unit {0})
  unfolding update_outcome
  update_status invoice_number status updated_at env =
      elim (validate (update_validator invoice_number status updated_at)) [
        | some e ↦ (err e, env)
        | none ↦ elim (is_valid_invoice_status status) [
          | false ↦ (err (constrain (lit "status") (lit "must be one of pending, paid")), env)
          | true ↦
              let (r, env') =
                collection.update_one (number_filter invoice_number)
                  ((lit "status", text status) ∷ (lit "updated_at", time updated_at) ∷ []) env in
              (update_outcome r, env')
        ]
      ]
