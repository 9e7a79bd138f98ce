-- ===== src/Document/Invoice/Laws.antt =====
-- Which requests NewInvoiceFromProtoMessage accepts, and what the invoice then satisfies.
use kenshu_elaris_project_pa.Base.{
  ◌≡◌, ◌⊎◌, arith, refl, ◌↔◌, true, Option, none, Option-cases, inl, inr,
}
use kenshu_elaris_project_pa.Base.Int.{ltb_ℤ}
use kenshu_elaris_project_pa.Go.Text.{GoString, lit}
use kenshu_elaris_project_pa.Go.Time.{Time}
use kenshu_elaris_project_pa.Go.Call.{ok, err}
use kenshu_elaris_project_pa.Errors.{GoError}
use kenshu_elaris_project_pa.Dto
use kenshu_elaris_project_pa.Validation.{◌▷◌, new_validator, not_nil, pointer, validate}
use kenshu_elaris_project_pa.Validation.Laws.{
  NotBlank, IsPositive, Present, validate-none_iff, nil_error-pointer_iff,
}
use kenshu_elaris_project_pa.Document.Invoice.Request.{IsWellFormed, request_validator_iff}
use kenshu_elaris_project_pa.Dto.CreateInvoicePaymentRequest.{
  CreateInvoicePaymentRequest, get_issued_at, get_due_at, get_idempotency_key, get_booking_id,
  get_payer_id, get_payer, get_booking, get_total, get_tax_total, get_discount_total,
}
use kenshu_elaris_project_pa.Document.Invoice.{
  Money, Invoice, status_pending, request_validator, invoice_of_request,
  new_invoice_from_proto_message,
}

-- What the rest of the program relies on of an invoice.
pub record IsValid (i : Invoice) : Type 0 where
  pub pending : i.status ≡ status_pending
  pub idempotency_id : NotBlank i.idempotency_id
  pub booking_id : NotBlank i.booking_id
  pub payer_id : NotBlank i.payer_id
  pub payer_name : NotBlank i.payer.name
  pub payer_email : NotBlank i.payer.email
  pub document_number : NotBlank i.payer.document_number
  pub billing_address : NotBlank i.payer.billing_address
  pub cottage_name : NotBlank i.booking.cottage_name
  pub nights : IsPositive i.booking.nights
  pub number_of_guests : IsPositive i.booking.number_of_guests
  pub value_amount : IsPositive i.booking.value_per_night.amount
  pub value_currency : NotBlank i.booking.value_per_night.currency
  pub total_amount : IsPositive i.total.amount
  pub total_currency : NotBlank i.total.currency
  pub tax_currency : NotBlank i.tax_total.currency
  pub discount_currency : NotBlank i.discount_total.currency
  pub due_after_issue : ltb_ℤ i.issued_at i.due_at ≡ true

-- An amount in a currency, as a message has it.
abbrev pub IsMoney : Money → Option Dto.Money.Money → Type 0
IsMoney m sent = (m.amount ≡ Dto.Money.get_amount sent) × (m.currency ≡ Dto.Money.get_currency sent)

-- The invoice that a request asks for, field by field.
pub record IsInvoiceOf {TS : Type 0} (as_time : Option TS → Time)
    (req : Option (CreateInvoicePaymentRequest TS)) (number : GoString) (now : Time) (i : Invoice)
    : Type 0 where
  pub invoice_number : i.invoice_number ≡ number
  pub status : i.status ≡ lit "pending"
  pub issued_at : i.issued_at ≡ as_time (get_issued_at req)
  pub due_at : i.due_at ≡ as_time (get_due_at req)
  pub idempotency_id : i.idempotency_id ≡ get_idempotency_key req
  pub booking_id : i.booking_id ≡ get_booking_id req
  pub payer_id : i.payer_id ≡ get_payer_id req
  pub payer_name : i.payer.name ≡ Dto.Payer.get_name (get_payer req)
  pub payer_email : i.payer.email ≡ Dto.Payer.get_email (get_payer req)
  pub document_number : i.payer.document_number ≡ Dto.Payer.get_document_number (get_payer req)
  pub billing_address : i.payer.billing_address ≡ Dto.Payer.get_billing_address (get_payer req)
  pub cottage_name : i.booking.cottage_name ≡ Dto.BookingSnapshot.get_cottage_name (get_booking req)
  pub nights : i.booking.nights ≡ Dto.BookingSnapshot.get_nights (get_booking req)
  pub number_of_guests :
      i.booking.number_of_guests ≡ Dto.BookingSnapshot.get_number_of_guests (get_booking req)
  pub value_per_night :
      IsMoney i.booking.value_per_night (Dto.BookingSnapshot.get_value_per_night (get_booking req))
  pub total : IsMoney i.total (get_total req)
  pub tax_total : IsMoney i.tax_total (get_tax_total req)
  pub discount_total : IsMoney i.discount_total (get_discount_total req)
  pub created_at : i.created_at ≡ now
  pub updated_at : i.updated_at ≡ now

module _ {TS : Type 0} (as_time : Option TS → Time) where
  request-Present :
      (req : Option (CreateInvoicePaymentRequest TS))
      → (validate (new_validator ▷ not_nil (lit "invoiceProto") (pointer req)) ≡ none) ↔ Present req
  unfolding not_nil new_validator
  request-Present req =
      let v = new_validator ▷ not_nil (lit "invoiceProto") (pointer req) in
      (
        λ e. (nil_error-pointer_iff _ req).0 ((validate-none_iff v).0 e).0,
        λ h. (validate-none_iff v).1 ((nil_error-pointer_iff _ req).1 h, tt),
      )

  module _ (req : Option (CreateInvoicePaymentRequest TS)) (number : GoString) (now : Time) where
    -- A request that passes gives a valid pending invoice.
    pub invoice_of_request-IsValid :
        IsWellFormed as_time req → IsValid (invoice_of_request as_time req number now)
    unfolding invoice_of_request
    invoice_of_request-IsValid w = record {
      pending = refl;
      idempotency_id = w.idempotency_key;
      booking_id = w.booking_id;
      payer_id = w.payer_id;
      payer_name = w.payer_name;
      payer_email = w.payer_email;
      document_number = w.document_number;
      billing_address = w.billing_address;
      cottage_name = w.cottage_name;
      nights = w.nights;
      number_of_guests = w.number_of_guests;
      value_amount = w.value_amount;
      value_currency = w.value_currency;
      total_amount = w.total_amount;
      total_currency = w.total_currency;
      tax_currency = w.tax_currency;
      discount_currency = w.discount_currency;
      due_after_issue = w.due_after_issue;
    }

    pub invoice_of_request-IsInvoiceOf :
        IsInvoiceOf as_time req number now (invoice_of_request as_time req number now)
    unfolding invoice_of_request status_pending
    invoice_of_request-IsInvoiceOf = record {
      invoice_number = refl;
      status = refl;
      issued_at = refl;
      due_at = refl;
      idempotency_id = refl;
      booking_id = refl;
      payer_id = refl;
      payer_name = refl;
      payer_email = refl;
      document_number = refl;
      billing_address = refl;
      cottage_name = refl;
      nights = refl;
      number_of_guests = refl;
      value_per_night = (refl, refl);
      total = (refl, refl);
      tax_total = (refl, refl);
      discount_total = (refl, refl);
      created_at = refl;
      updated_at = refl;
    }

    pub new_invoice_iff :
        (i : Invoice)
        → (new_invoice_from_proto_message as_time req number now ≡ ok i) ↔ (
            Present req
            × IsWellFormed as_time req
            × (invoice_of_request as_time req number now ≡ i))
    unfolding new_invoice_from_proto_message
    new_invoice_iff i =
        elim (Option-cases
          (validate (new_validator ▷ not_nil (lit "invoiceProto") (pointer req)))) [
            | inl e ↦ elim (Option-cases (validate (request_validator as_time req))) [
              | inl e' ↦
                  rw (e, e', new_invoice_from_proto_message)
                    (
                      λ h.
                          ((request-Present req).0 e, (request_validator_iff as_time req).0 e', cc),
                      λ h. cc (h.2),
                    )
              | inr (x, e') ↦
                  rw (e, e', new_invoice_from_proto_message)
                    (λ h. cc, λ h. cc (e', (request_validator_iff as_time req).1 h.1))
            ]
            | inr (x, e) ↦
                rw (e, new_invoice_from_proto_message)
                  (λ h. cc, λ h. cc (e, (request-Present req).1 h.0))
          ]

    -- A request that is there and passes every check gives an invoice, which has each field from the
    -- request, under the given number and time and with the status pending; any other request is
    -- refused with an error.
    pub new_invoice-IsInvoiceOf :
        (Present req
          × IsWellFormed as_time req
          × ((i : Invoice) × (new_invoice_from_proto_message as_time req number now ≡ ok i)
              × IsInvoiceOf as_time req number now i))
        ⊎ (¬ (Present req × IsWellFormed as_time req)
            × ((e : GoError) × (new_invoice_from_proto_message as_time req number now ≡ err e)))
    unfolding new_invoice_from_proto_message
    new_invoice-IsInvoiceOf =
        let i : Invoice = invoice_of_request as_time req number now in
        elim (Option-cases
          (validate (new_validator ▷ not_nil (lit "invoiceProto") (pointer req)))) [
            | inr (x, e) ↦
                inr
                  (λ good. absurd (cc (e, (request-Present req).1 good.0)), (x, ground (arith, e)))
            | inl e ↦ elim (Option-cases (validate (request_validator as_time req))) [
              | inr (x, e') ↦ inr (
                λ good. absurd (cc (e', (request_validator_iff as_time req).1 good.1)),
                (x, ground (arith, e, e')),
              )
              | inl e' ↦ inl (
                (request-Present req).0 e,
                (request_validator_iff as_time req).0 e',
                (i, ground (arith, e, e'), invoice_of_request-IsInvoiceOf),
              )
            ]
          ]
