-- ===== src/Document/Receipt.antt =====
-- internal/domain/document/receipt.go: the receipt document, and its construction from a response.
pub mod Laws
use kenshu_elaris_project_pa.Base.{Option, none, some}
use kenshu_elaris_project_pa.Go.Text.{GoString, lit}
use kenshu_elaris_project_pa.Go.Time.{Time}
use kenshu_elaris_project_pa.Go.Call.{ok, err, Act}
use kenshu_elaris_project_pa.Errors.{GoError}
use kenshu_elaris_project_pa.Validation.{
  Validator, pointer, ◌▷◌, new_validator, not_blank, not_nil, validate,
}
use kenshu_elaris_project_pa.Document.Invoice.{ObjectId}
use kenshu_elaris_project_pa.Dto
use kenshu_elaris_project_pa.Dto.PayWithCardResponse.{PayWithCardResponse}

pub record CardSummary : Type 0 where
  pub brand : GoString
  pub last4 : GoString

pub record Receipt : Type 0 where
  pub id : ObjectId
  pub receipt_number : GoString
  pub invoice_number : GoString
  pub card : CardSummary
  pub processed_at : Time

-- The checks of NewReceiptFromProtMessage.
unfoldable pub response_validator : {TS : Type 0} → Option (PayWithCardResponse TS) → Validator
unfolding new_validator not_blank not_nil
response_validator resp =
    let card = Dto.PayWithCardResponse.get_card resp in
    new_validator
    ▷ not_blank (lit "receiptNumber") (Dto.PayWithCardResponse.get_receipt_number resp)
    ▷ not_blank (lit "invoiceNumber") (Dto.PayWithCardResponse.get_invoice_number resp)
    ▷ not_nil (lit "cardSummary") (pointer card)
    ▷ not_blank (lit "cardSummary.brand") (Dto.CardSummary.get_brand card)
    ▷ not_blank (lit "cardSummary.last4") (Dto.CardSummary.get_last4 card)
    ▷ not_nil (lit "processedAt") (pointer (Dto.PayWithCardResponse.get_processed_at resp))

module _ {TS : Type 0} (as_time : Option TS → Time) where
  -- The document that the checks let through, under a new identifier.
  unfoldable pub receipt_of_response : ObjectId → Option (PayWithCardResponse TS) → Receipt
  receipt_of_response new_id resp =
      let card = Dto.PayWithCardResponse.get_card resp in
      record {
        id = new_id;
        receipt_number = Dto.PayWithCardResponse.get_receipt_number resp;
        invoice_number = Dto.PayWithCardResponse.get_invoice_number resp;
        card = record {
          brand = Dto.CardSummary.get_brand card;
          last4 = Dto.CardSummary.get_last4 card;
        };
        processed_at = as_time (Dto.PayWithCardResponse.get_processed_at resp);
      }

  -- NewReceiptFromProtMessage; `new_object_id` is bson.NewObjectID.
  unfoldable pub new_receipt_from_proto_message :
      {E : Type 0} → (E → ObjectId × E) → Option (PayWithCardResponse TS) → Act E GoError Receipt
  new_receipt_from_proto_message new_object_id resp env =
      elim (validate (response_validator resp)) [
        | some e ↦ (err e, env)
        | none ↦ let (id, env') = new_object_id env in (ok (receipt_of_response id resp), env')
      ]
