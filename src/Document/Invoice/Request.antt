-- ===== src/Document/Invoice/Request.antt =====
-- What the checks of NewInvoiceFromProtoMessage ask of a request.
use kenshu_elaris_project_pa.Base.{◌&◌, ◌≡◌, ◌↔◌, true, Option, none}
use kenshu_elaris_project_pa.Base.Int.{ltb_ℤ}
use kenshu_elaris_project_pa.Go.Time.{Time}
use kenshu_elaris_project_pa.Validation.{validate}
use kenshu_elaris_project_pa.Validation.Laws.{
  NotBlank, IsPositive, Present, validate-none_iff, blank_error_iff, positive_error_int_iff,
  nil_error-pointer_iff, precedence_error_iff,
}
use kenshu_elaris_project_pa.Dto
use kenshu_elaris_project_pa.Dto.CreateInvoicePaymentRequest.{CreateInvoicePaymentRequest}
use kenshu_elaris_project_pa.Document.Invoice.{request_validator}

module _ {TS : Type 0} (as_time : Option TS → Time) where
  -- What the checks ask of a request.
  pub record IsWellFormed (req : Option (CreateInvoicePaymentRequest TS)) : Type 0 where
    pub idempotency_key : NotBlank (Dto.CreateInvoicePaymentRequest.get_idempotency_key req)
    pub booking_id : NotBlank (Dto.CreateInvoicePaymentRequest.get_booking_id req)
    pub payer_id : NotBlank (Dto.CreateInvoicePaymentRequest.get_payer_id req)
    pub issued_at : Present (Dto.CreateInvoicePaymentRequest.get_issued_at req)
    pub due_at : Present (Dto.CreateInvoicePaymentRequest.get_due_at req)
    pub payer : Present (Dto.CreateInvoicePaymentRequest.get_payer req)
    pub booking : Present (Dto.CreateInvoicePaymentRequest.get_booking req)
    pub total : Present (Dto.CreateInvoicePaymentRequest.get_total req)
    pub tax_total : Present (Dto.CreateInvoicePaymentRequest.get_tax_total req)
    pub discount_total : Present (Dto.CreateInvoicePaymentRequest.get_discount_total req)
    pub value_per_night :
        Present (
          Dto.BookingSnapshot.get_value_per_night (Dto.CreateInvoicePaymentRequest.get_booking req))
    pub payer_name : NotBlank (Dto.Payer.get_name (Dto.CreateInvoicePaymentRequest.get_payer req))
    pub payer_email : NotBlank (Dto.Payer.get_email (Dto.CreateInvoicePaymentRequest.get_payer req))
    pub document_number :
        NotBlank (Dto.Payer.get_document_number (Dto.CreateInvoicePaymentRequest.get_payer req))
    pub billing_address :
        NotBlank (Dto.Payer.get_billing_address (Dto.CreateInvoicePaymentRequest.get_payer req))
    pub cottage_name :
        NotBlank
          (Dto.BookingSnapshot.get_cottage_name (Dto.CreateInvoicePaymentRequest.get_booking req))
    pub nights :
        IsPositive
          (Dto.BookingSnapshot.get_nights (Dto.CreateInvoicePaymentRequest.get_booking req))
    pub number_of_guests :
        IsPositive (
          Dto.BookingSnapshot.get_number_of_guests
            (Dto.CreateInvoicePaymentRequest.get_booking req))
    pub value_amount : IsPositive (
        Dto.Money.get_amount (
          Dto.BookingSnapshot.get_value_per_night
            (Dto.CreateInvoicePaymentRequest.get_booking req)))
    pub value_currency : NotBlank (
        Dto.Money.get_currency (
          Dto.BookingSnapshot.get_value_per_night
            (Dto.CreateInvoicePaymentRequest.get_booking req)))
    pub total_amount :
        IsPositive (Dto.Money.get_amount (Dto.CreateInvoicePaymentRequest.get_total req))
    pub total_currency :
        NotBlank (Dto.Money.get_currency (Dto.CreateInvoicePaymentRequest.get_total req))
    pub tax_currency :
        NotBlank (Dto.Money.get_currency (Dto.CreateInvoicePaymentRequest.get_tax_total req))
    pub discount_currency :
        NotBlank (Dto.Money.get_currency (Dto.CreateInvoicePaymentRequest.get_discount_total req))
    pub due_after_issue :
        ltb_ℤ
          (as_time (Dto.CreateInvoicePaymentRequest.get_issued_at req))
          (as_time (Dto.CreateInvoicePaymentRequest.get_due_at req))
        ≡ true

  pub request_validator_iff :
      (req : Option (CreateInvoicePaymentRequest TS))
      → (validate (request_validator as_time req) ≡ none) ↔ IsWellFormed req
  unfolding request_validator
  request_validator_iff req = (
    λ e.
        let all = (validate-none_iff (request_validator as_time req)).0 e in
        record {
          idempotency_key = (blank_error_iff _ _).0 all.0;
          booking_id = (blank_error_iff _ _).0 all.1.0;
          payer_id = (blank_error_iff _ _).0 all.1.1.0;
          issued_at = (nil_error-pointer_iff _ _).0 all.1.1.1.0;
          due_at = (nil_error-pointer_iff _ _).0 all.1.1.1.1.0;
          payer = (nil_error-pointer_iff _ _).0 all.1.1.1.1.1.0;
          booking = (nil_error-pointer_iff _ _).0 all.1.1.1.1.1.1.0;
          total = (nil_error-pointer_iff _ _).0 all.1.1.1.1.1.1.1.0;
          tax_total = (nil_error-pointer_iff _ _).0 all.1.1.1.1.1.1.1.1.0;
          discount_total = (nil_error-pointer_iff _ _).0 all.1.1.1.1.1.1.1.1.1.0;
          value_per_night = (nil_error-pointer_iff _ _).0 all.1.1.1.1.1.1.1.1.1.1.0;
          payer_name = (blank_error_iff _ _).0 all.1.1.1.1.1.1.1.1.1.1.1.0;
          payer_email = (blank_error_iff _ _).0 all.1.1.1.1.1.1.1.1.1.1.1.1.0;
          document_number = (blank_error_iff _ _).0 all.1.1.1.1.1.1.1.1.1.1.1.1.1.0;
          billing_address = (blank_error_iff _ _).0 all.1.1.1.1.1.1.1.1.1.1.1.1.1.1.0;
          cottage_name = (blank_error_iff _ _).0 all.1.1.1.1.1.1.1.1.1.1.1.1.1.1.1.0;
          nights = (positive_error_int_iff _ _).0 all.1.1.1.1.1.1.1.1.1.1.1.1.1.1.1.1.0;
          number_of_guests = (positive_error_int_iff _ _).0 all.1.1.1.1.1.1.1.1.1.1.1.1.1.1.1.1.1.0;
          value_amount = (positive_error_int_iff _ _).0 all.1.1.1.1.1.1.1.1.1.1.1.1.1.1.1.1.1.1.0;
          value_currency = (blank_error_iff _ _).0 all.1.1.1.1.1.1.1.1.1.1.1.1.1.1.1.1.1.1.1.0;
          total_amount =
              (positive_error_int_iff _ _).0 all.1.1.1.1.1.1.1.1.1.1.1.1.1.1.1.1.1.1.1.1.0;
          total_currency = (blank_error_iff _ _).0 all.1.1.1.1.1.1.1.1.1.1.1.1.1.1.1.1.1.1.1.1.1.0;
          tax_currency = (blank_error_iff _ _).0 all.1.1.1.1.1.1.1.1.1.1.1.1.1.1.1.1.1.1.1.1.1.1.0;
          discount_currency =
              (blank_error_iff _ _).0 all.1.1.1.1.1.1.1.1.1.1.1.1.1.1.1.1.1.1.1.1.1.1.1.0;
          due_after_issue =
              (precedence_error_iff _ _).0 all.1.1.1.1.1.1.1.1.1.1.1.1.1.1.1.1.1.1.1.1.1.1.1.1.0;
        },
    λ w. (validate-none_iff (request_validator as_time req)).1 (
        (blank_error_iff _ _).1 w.idempotency_key
        & (blank_error_iff _ _).1 w.booking_id
        & (blank_error_iff _ _).1 w.payer_id
        & (nil_error-pointer_iff _ _).1 w.issued_at
        & (nil_error-pointer_iff _ _).1 w.due_at
        & (nil_error-pointer_iff _ _).1 w.payer
        & (nil_error-pointer_iff _ _).1 w.booking
        & (nil_error-pointer_iff _ _).1 w.total
        & (nil_error-pointer_iff _ _).1 w.tax_total
        & (nil_error-pointer_iff _ _).1 w.discount_total
        & (nil_error-pointer_iff _ _).1 w.value_per_night
        & (blank_error_iff _ _).1 w.payer_name
        & (blank_error_iff _ _).1 w.payer_email
        & (blank_error_iff _ _).1 w.document_number
        & (blank_error_iff _ _).1 w.billing_address
        & (blank_error_iff _ _).1 w.cottage_name
        & (positive_error_int_iff _ _).1 w.nights
        & (positive_error_int_iff _ _).1 w.number_of_guests
        & (positive_error_int_iff _ _).1 w.value_amount
        & (blank_error_iff _ _).1 w.value_currency
        & (positive_error_int_iff _ _).1 w.total_amount
        & (blank_error_iff _ _).1 w.total_currency
        & (blank_error_iff _ _).1 w.tax_currency
        & (blank_error_iff _ _).1 w.discount_currency
        & (precedence_error_iff _ _).1 w.due_after_issue
        & tt),
  )
