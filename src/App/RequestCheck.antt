-- ===== src/App/RequestCheck.antt =====
-- internal/app/invoice_service.go: validatePaymentRequest.
pub mod Laws
use kenshu_elaris_project_pa.Base.{ℕ, suc, Option, none, some, List, [], ◌∷◌, ◌++◌, length}
use kenshu_elaris_project_pa.Base.Int.{pos}
use kenshu_elaris_project_pa.Go.Text.{GoString, lit, show_nat}
use kenshu_elaris_project_pa.Go.Time.{Time}
use kenshu_elaris_project_pa.Validation.{
  Validator, int, pointer, ◌▷◌, new_validator, not_blank, not_nil, positive_value, valid_precedence,
}
use kenshu_elaris_project_pa.Dto
use kenshu_elaris_project_pa.Dto.PaymentRequest.{PaymentRequest}
use kenshu_elaris_project_pa.Dto.PaymentOption.{PaymentOption}

-- fmt.Sprintf("options[%d]", idx)
option_field : ℕ → GoString
option_field idx = lit "options[" ++ (show_nat idx ++ lit "]")

-- The loop over the options of a payment request, from index `idx` on.
unfoldable pub option_steps : ℕ → List (Option PaymentOption) → Validator → Validator
unfolding option_field
option_steps idx [] v = v
option_steps idx (option ∷ options) v = option_steps (suc idx) options (
    v
    ▷ not_nil (option_field idx) (pointer option)
    ▷ positive_value (option_field idx ++ lit ".method")
        (some (int (Dto.PaymentOption.get_method option)))
    ▷ not_blank (option_field idx ++ lit ".payment_url") (Dto.PaymentOption.get_payment_url option)
    ▷ not_blank (option_field idx ++ lit ".instructions")
        (Dto.PaymentOption.get_instructions option))

module _ {TS : Type 0} (as_time : Option TS → Time) where
  -- The check of the two times, made where neither is nil.
  unfoldable pub expiry_step : Option TS → Option TS → Validator → Validator
  expiry_step none expires_at v = v
  expiry_step (some issued_at) none v = v
  expiry_step (some issued_at) (some expires_at) v =
      v ▷ valid_precedence (as_time (some issued_at)) (as_time (some expires_at))

  -- The checks of validatePaymentRequest.
  unfoldable pub payment_request_validator : Option (PaymentRequest TS) → Validator
  unfolding new_validator not_nil not_blank positive_value valid_precedence option_steps expiry_step
  payment_request_validator req =
      let issued_at = Dto.PaymentRequest.get_issued_at req in
      let expires_at = Dto.PaymentRequest.get_expires_at req in
      let booking = Dto.PaymentRequest.get_booking req in
      let payer = Dto.PaymentRequest.get_payer req in
      let total = Dto.PaymentRequest.get_total req in
      let options = Dto.PaymentRequest.get_options req in
      new_validator
      ▷ not_nil (lit "paymentRequest") (pointer req)
      ▷ not_blank (lit "invoice_number") (Dto.PaymentRequest.get_invoice_number req)
      ▷ not_nil (lit "total") (pointer total)
      ▷ positive_value (lit "total.amount") (some (int (Dto.Money.get_amount total)))
      ▷ not_blank (lit "total.currency") (Dto.Money.get_currency total)
      ▷ not_nil (lit "issued_at") (pointer issued_at)
      ▷ not_nil (lit "expires_at") (pointer expires_at)
      ▷ not_nil (lit "booking") (pointer booking)
      ▷ not_blank (lit "booking.cottage_name") (Dto.BookingSummary.get_cottage_name booking)
      ▷ positive_value (lit "booking.nights") (some (int (Dto.BookingSummary.get_nights booking)))
      ▷ positive_value (lit "booking.number_of_guests")
          (some (int (Dto.BookingSummary.get_number_of_guests booking)))
      ▷ not_nil (lit "payer") (pointer payer)
      ▷ not_blank (lit "payer.name") (Dto.PayerSummary.get_name payer)
      ▷ not_blank (lit "payer.email") (Dto.PayerSummary.get_email payer)
      ▷ positive_value (lit "options") (some (int (pos (length options))))
      ▷ option_steps 0 options
      ▷ expiry_step issued_at expires_at
