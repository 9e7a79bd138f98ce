-- ===== src/Tests/Deliveries.antt =====
-- Deliveries of invoice requests, and payment requests issued again.
use kenshu_elaris_project_pa.App.Init.{InvoiceProcessor, start_invoice_processing, process_consumed}
use kenshu_elaris_project_pa.App.Init.Laws.{start_invoice_processing-answered}
use kenshu_elaris_project_pa.App.InvoiceService.Stream.{process_deliveries-answered, answered}
use kenshu_elaris_project_pa.App.Util.{generate_human_friendly_id, suffix_from, pick}
use kenshu_elaris_project_pa.Base.{
  ◌≡◌, ◌⊎◌, refl, sym, ap, subst, false, Option, none, some, List, [], ◌∷◌, ◌++◌,
}
use kenshu_elaris_project_pa.Go.Text.{
  GoString, lit, is_blank, text_eq, to_lower, trim_space, remove_byte, show_nat,
}
use kenshu_elaris_project_pa.Go.Time.{Time, format_date}
use kenshu_elaris_project_pa.Go.Call.{Outcome, ok, err, panicked}
use kenshu_elaris_project_pa.Errors.{GoError}
use kenshu_elaris_project_pa.Validation.{
  validate, not_nil, new_validator, nil_error, precedence_error, blank_error, positive_error,
  not_blank, positive_value, valid_precedence,
}
use kenshu_elaris_project_pa.Document.Invoice.{
  Invoice, status_pending, new_invoice_from_proto_message, request_validator, invoice_of_request,
}
use kenshu_elaris_project_pa.Port.{Event, added_invoice, acked}
use kenshu_elaris_project_pa.App.Grpc.{status_error, invalid_argument}
use kenshu_elaris_project_pa.App.Mapper.{build_payment_request, payment_url}
use kenshu_elaris_project_pa.App.RequestCheck.{payment_request_validator, expiry_step, option_steps}
use kenshu_elaris_project_pa.App.InvoiceService.{
  process_invoice_delivery, publish_payment_request, or_nack, generate_invoice_doc, acknowledge,
  generate_and_settle, guest_key, nack, publish_and_settle, save_and_settle, save_error,
  save_invoice, process_deliveries,
}
use kenshu_elaris_project_pa.App.InvoiceService.Steps.{request_of}
use kenshu_elaris_project_pa.App.InvoiceService.Settlement.{
  Settled, process_invoice_delivery-Settled,
}
use kenshu_elaris_project_pa.App.InvoiceService.Success.{IsProcessed, process_invoice_delivery-ok}
use kenshu_elaris_project_pa.App.InvoiceService.Rejection.{
  IsDropped, process_invoice_delivery-IsDropped, publish_payment_request_valid,
}
use kenshu_elaris_project_pa.App.PaymentReissue.{reissue}
use kenshu_elaris_project_pa.App.PaymentReissue.Laws.{
  IsAddressed, Answers, looked_up, reissue-answer,
}
use kenshu_elaris_project_pa.Validation.Laws.{Present}
use kenshu_elaris_project_pa.Dto
use kenshu_elaris_project_pa.Dto.CreateInvoicePaymentRequest.{CreateInvoicePaymentRequest}
use kenshu_elaris_project_pa.App.Unmarshal.{unmarshal_request, Delivery}
use kenshu_elaris_project_pa.Tests.Fixtures.{
  Env, bill-IsValid, start, bill, order, anonymous_order, delivery, reissue_request,
}
use kenshu_elaris_project_pa.Tests.Services.{invoices, reissues}

-- The invoice of the order.
abbrev issued : Invoice
issued = record bill { invoice_number = lit "INV-20260308-bcdabc" }

abbrev processed : List (Event Time)
processed = added_invoice issued ∷ request_of (invoices order) issued ∷ acked 7 false ∷ []

process_invoice_delivery-ok_example :
    IsProcessed (invoices order) delivery [] (record { env = tt; trace = processed })
unfolding process_invoice_delivery lit unmarshal_request validate publish_payment_request
    build_payment_request payment_request_validator or_nack generate_invoice_doc acknowledge
    generate_and_settle guest_key nack publish_and_settle save_and_settle save_error save_invoice
    text_eq to_lower trim_space remove_byte is_blank show_nat generate_human_friendly_id suffix_from
    pick new_invoice_from_proto_message request_validator invoice_of_request status_pending not_nil
    new_validator nil_error precedence_error blank_error positive_error not_blank positive_value
    valid_precedence payment_url expiry_step option_steps format_date
process_invoice_delivery-ok_example =
    process_invoice_delivery-ok (invoices order) delivery start
      (record { env = tt; trace = processed }) refl

process_invoice_delivery-Settled_example :
    Settled (invoices order) delivery [] (process_invoice_delivery (invoices order) delivery start)
process_invoice_delivery-Settled_example =
    process_invoice_delivery-Settled (invoices order) delivery start

-- The payer of a decoded request.
abbrev payer_of : Outcome GoError (CreateInvoicePaymentRequest Time) → Option Dto.Payer.Payer
payer_of (ok req) = req.payer
payer_of (err e) = none
payer_of panicked = none

process_invoice_delivery-IsDropped_example :
    IsDropped
      (invoices anonymous_order)
      delivery
      []
      (process_invoice_delivery (invoices anonymous_order) delivery start)
unfolding lit unmarshal_request text_eq to_lower trim_space
process_invoice_delivery-IsDropped_example =
    process_invoice_delivery-IsDropped (invoices anonymous_order) delivery start
      (λ req e formed. subst Present (sym (ap payer_of e)) formed.payer)

publish_payment_request_valid_example :
    (publish_payment_request (invoices order) bill start).1.trace
    ≡ request_of (invoices order) bill ∷ []
unfolding lit is_blank
publish_payment_request_valid_example =
    publish_payment_request_valid (invoices order) (λ t. refl) bill start bill-IsValid refl

reissue-answer_example :
    (¬ IsAddressed (some reissue_request)
      × ((message : GoString) × (reissue (λ t. t) reissues (some reissue_request) start
            ≡ (err (status_error invalid_argument message), start))))
    ⊎ (IsAddressed (some reissue_request)
        × Answers
            (λ t. t)
            reissues
            (looked_up (λ t. t) reissues (some reissue_request) tt)
            (reissue (λ t. t) reissues (some reissue_request) start).0)
reissue-answer_example = reissue-answer (λ t. t) reissues (some reissue_request) start

-- Two deliveries of the same order.
abbrev two : List Delivery
two = delivery ∷ record delivery { delivery_tag = 8 } ∷ []

abbrev both_processed : List (Event Time)
both_processed =
    processed ++ added_invoice issued ∷ request_of (invoices order) issued ∷ acked 8 false ∷ []

process_deliveries-answered_example : answered both_processed ≡ 7 ∷ 8 ∷ []
unfolding process_deliveries process_invoice_delivery lit unmarshal_request validate
    publish_payment_request build_payment_request payment_request_validator or_nack
    generate_invoice_doc acknowledge generate_and_settle guest_key nack publish_and_settle
    save_and_settle save_error save_invoice text_eq to_lower trim_space remove_byte is_blank
    show_nat generate_human_friendly_id suffix_from pick new_invoice_from_proto_message
    request_validator invoice_of_request status_pending not_nil new_validator nil_error
    precedence_error blank_error positive_error not_blank positive_value valid_precedence
    payment_url expiry_step option_steps format_date
process_deliveries-answered_example =
    process_deliveries-answered (invoices order) two start
      (record { env = tt; trace = both_processed }) refl

-- The order's service, over a channel with two deliveries.
abbrev processor : InvoiceProcessor Env Time
processor = record {
  service = invoices order;
  invoice_consumer = record { consume = λ e. (ok two, e) };
}

start_invoice_processing-answered_example : answered both_processed ≡ 7 ∷ 8 ∷ []
unfolding process_deliveries process_invoice_delivery lit unmarshal_request validate
    publish_payment_request build_payment_request payment_request_validator or_nack
    generate_invoice_doc acknowledge generate_and_settle guest_key nack publish_and_settle
    save_and_settle save_error save_invoice text_eq to_lower trim_space remove_byte is_blank
    show_nat generate_human_friendly_id suffix_from pick new_invoice_from_proto_message
    request_validator invoice_of_request status_pending not_nil new_validator nil_error
    precedence_error blank_error positive_error not_blank positive_value valid_precedence
    payment_url expiry_step option_steps format_date start_invoice_processing process_consumed
start_invoice_processing-answered_example =
    start_invoice_processing-answered processor start (record { env = tt; trace = both_processed })
      refl
