-- ===== src/Document/Receipt/Laws.antt =====
-- Which responses NewReceiptFromProtMessage accepts.
use kenshu_elaris_project_pa.Base.{◌&◌, ◌≡◌, ◌↔◌, Option, none, Option-cases, inl, inr}
use kenshu_elaris_project_pa.Go.Time.{Time}
use kenshu_elaris_project_pa.Go.Call.{ok}
use kenshu_elaris_project_pa.Validation.{validate}
use kenshu_elaris_project_pa.Validation.Laws.{
  NotBlank, Present, validate-none_iff, blank_error_iff, nil_error-pointer_iff,
}
use kenshu_elaris_project_pa.Dto
use kenshu_elaris_project_pa.Dto.PayWithCardResponse.{PayWithCardResponse}
use kenshu_elaris_project_pa.Document.Invoice.{ObjectId}
use kenshu_elaris_project_pa.Document.Receipt.{
  Receipt, response_validator, receipt_of_response, new_receipt_from_proto_message,
}

-- What the checks ask of a response.
pub record IsComplete {TS : Type 0} (resp : Option (PayWithCardResponse TS)) : Type 0 where
  pub receipt_number : NotBlank (Dto.PayWithCardResponse.get_receipt_number resp)
  pub invoice_number : NotBlank (Dto.PayWithCardResponse.get_invoice_number resp)
  pub card : Present (Dto.PayWithCardResponse.get_card resp)
  pub brand : NotBlank (Dto.CardSummary.get_brand (Dto.PayWithCardResponse.get_card resp))
  pub last4 : NotBlank (Dto.CardSummary.get_last4 (Dto.PayWithCardResponse.get_card resp))
  pub processed_at : Present (Dto.PayWithCardResponse.get_processed_at resp)

pub response_validator_iff :
    {TS : Type 0} (resp : Option (PayWithCardResponse TS))
    → (validate (response_validator resp) ≡ none) ↔ IsComplete resp
unfolding response_validator
response_validator_iff resp = (
  λ e.
      let all = (validate-none_iff (response_validator resp)).0 e in
      record {
        receipt_number = (blank_error_iff _ _).0 all.0;
        invoice_number = (blank_error_iff _ _).0 all.1.0;
        card = (nil_error-pointer_iff _ _).0 all.1.1.0;
        brand = (blank_error_iff _ _).0 all.1.1.1.0;
        last4 = (blank_error_iff _ _).0 all.1.1.1.1.0;
        processed_at = (nil_error-pointer_iff _ _).0 all.1.1.1.1.1.0;
      },
  λ c. (validate-none_iff (response_validator resp)).1 (
      (blank_error_iff _ _).1 c.receipt_number
      & (blank_error_iff _ _).1 c.invoice_number
      & (nil_error-pointer_iff _ _).1 c.card
      & (blank_error_iff _ _).1 c.brand
      & (blank_error_iff _ _).1 c.last4
      & (nil_error-pointer_iff _ _).1 c.processed_at
      & tt),
)

-- The constructor succeeds exactly on the complete responses, with the response's data.
pub new_receipt_iff :
    {E TS : Type 0} (as_time : Option TS → Time) (new_object_id : E → ObjectId × E)
    (resp : Option (PayWithCardResponse TS)) (env : E) (r : Receipt)
    → ((new_receipt_from_proto_message as_time new_object_id resp env).0 ≡ ok r)
      ↔ (IsComplete resp × (receipt_of_response as_time (new_object_id env).0 resp ≡ r))
unfolding new_receipt_from_proto_message
new_receipt_iff as_time new_object_id resp env r =
    elim (Option-cases (validate (response_validator resp))) [
      | inl e ↦
          rw (e, new_receipt_from_proto_message)
            (λ h. ((response_validator_iff resp).0 e, cc), λ h. cc (h.1))
      | inr (x, e) ↦
          rw (e, new_receipt_from_proto_message)
            (λ h. cc, λ h. cc (e, (response_validator_iff resp).1 h.0))
    ]
