-- ===== src/Db/ReceiptRepo.antt =====
-- internal/infra/db/receipt_repository.go
pub mod Laws
use kenshu_elaris_project_pa.Base.{none, some, [], ◌∷◌, ◌++◌}
use kenshu_elaris_project_pa.Go.Text.{lit}
use kenshu_elaris_project_pa.Go.Call.{Outcome, ok, err, Act}
use kenshu_elaris_project_pa.Errors.{
  GoError, foreign, db_unexpected, db_corrupted_data, db_already_exists, db_receipt_not_found,
}
use kenshu_elaris_project_pa.Validation.{
  Validator, instant, ◌▷◌, new_validator, not_blank, not_zero_value, not_nil_object_id, validate,
}
use kenshu_elaris_project_pa.Document.Invoice.{ObjectId}
use kenshu_elaris_project_pa.Document.Receipt.{Receipt}
use kenshu_elaris_project_pa.Db.Collection.{
  object_id, FindResult, found, no_documents, find_failed, InsertResult, inserted, inserted_other,
  duplicate_key, insert_failed, Collection,
}

-- The validations at the head of the methods.
unfoldable pub id_validator : ObjectId → Validator
unfolding new_validator not_nil_object_id
id_validator id = new_validator ▷ not_nil_object_id (lit "id") id

unfoldable pub receipt_validator : Receipt → Validator
unfolding new_validator not_blank not_zero_value
receipt_validator receipt =
    new_validator
    ▷ not_blank (lit "receipt.receipt_number") receipt.receipt_number
    ▷ not_blank (lit "receipt.invoice_number") receipt.invoice_number
    ▷ not_blank (lit "receipt.card.brand") receipt.card.brand
    ▷ not_blank (lit "receipt.card.last4") receipt.card.last4
    ▷ not_zero_value (lit "receipt.processed_at") (instant receipt.processed_at)

module _ {E : Type 0} (collection : Collection E Receipt) where
  find_outcome : FindResult Receipt → Outcome GoError Receipt
  find_outcome (found receipt) = ok receipt
  find_outcome (no_documents e) = err (db_receipt_not_found e)
  find_outcome (find_failed e) = err (db_corrupted_data e)

  unfoldable pub get_by_id : ObjectId → Act E GoError Receipt
  unfolding find_outcome
  get_by_id id env = elim (validate (id_validator id)) [
    | some e ↦ (err e, env)
    | none ↦
        let (r, env') = collection.find_one ((lit "_id", object_id id) ∷ []) env in
        (find_outcome r, env')
  ]

  unfoldable pub insert_outcome : InsertResult → Outcome GoError ObjectId
  insert_outcome (inserted id) = ok id
  insert_outcome (inserted_other type_name) = err (
      db_unexpected (lit "unexpected inserted id type")
        (foreign (lit "unexpected inserted id type: " ++ type_name)))
  insert_outcome (duplicate_key e) = err (db_already_exists e)
  insert_outcome (insert_failed e) = err (db_unexpected (lit "failed to insert receipt") e)

  unfoldable pub add : Receipt → Act E GoError ObjectId
  unfolding insert_outcome
  add receipt env = elim (validate (receipt_validator receipt)) [
    | some e ↦ (err e, env)
    | none ↦ let (r, env') = collection.insert_one receipt env in (insert_outcome r, env')
  ]
