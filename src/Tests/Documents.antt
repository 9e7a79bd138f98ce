-- ===== src/Tests/Documents.antt =====
-- Documents made from messages and stored, and the checks they pass.
use kenshu_elaris_project_pa.Base.{◌≡◌, ◌⊎◌, refl, none, some, false}
use kenshu_elaris_project_pa.Go.Text.{lit, is_blank}
use kenshu_elaris_project_pa.Go.Text.Laws.{not_blank_of_has_solid, has_solid}
use kenshu_elaris_project_pa.Go.Time.{format_date}
use kenshu_elaris_project_pa.Go.Call.{ok, err}
use kenshu_elaris_project_pa.Errors.{GoError}
use kenshu_elaris_project_pa.Validation.{Validator, validate}
use kenshu_elaris_project_pa.Validation.Laws.{Present, reported, reports, reported-validate}
use kenshu_elaris_project_pa.Document.Invoice.{Invoice, new_invoice_from_proto_message}
use kenshu_elaris_project_pa.Document.Invoice.Request.{IsWellFormed}
use kenshu_elaris_project_pa.Document.Invoice.Laws.{IsInvoiceOf, new_invoice-IsInvoiceOf}
use kenshu_elaris_project_pa.App.PaymentMaking.{card_validator}
use kenshu_elaris_project_pa.Tests.Fixtures.{noon, order, payment}
use kenshu_elaris_project_pa.Tests.Services.{as_time}

-- The date of an identifier.
date_test : format_date noon ≡ lit "20260308"
unfolding format_date lit
date_test = refl

not_blank_of_has_solid_example : is_blank (lit " x ") ≡ false
unfolding lit has_solid
not_blank_of_has_solid_example = not_blank_of_has_solid (lit " x ") refl

abbrev checks : Validator
checks = card_validator (some payment)

-- A request that lacks everything.
reported-validate_example :
    reported (validate (card_validator none)) ≡ reports (card_validator none).steps
reported-validate_example = reported-validate (card_validator none)

pub order-IsWellFormed : IsWellFormed as_time (some order)
unfolding lit is_blank
order-IsWellFormed = record {
  idempotency_key = refl;
  booking_id = refl;
  payer_id = refl;
  issued_at = tt;
  due_at = tt;
  payer = tt;
  booking = tt;
  total = tt;
  tax_total = tt;
  discount_total = tt;
  value_per_night = tt;
  payer_name = refl;
  payer_email = refl;
  document_number = refl;
  billing_address = refl;
  cottage_name = refl;
  nights = refl;
  number_of_guests = refl;
  value_amount = refl;
  value_currency = refl;
  total_amount = refl;
  total_currency = refl;
  tax_currency = refl;
  discount_currency = refl;
  due_after_issue = refl;
}

new_invoice-IsInvoiceOf_example :
    (Present (some order)
      × IsWellFormed as_time (some order)
      × ((i : Invoice) × (new_invoice_from_proto_message as_time (some order) (lit "INV-1") noon
            ≡ ok i)
          × IsInvoiceOf as_time (some order) (lit "INV-1") noon i))
    ⊎ (¬ (Present (some order) × IsWellFormed as_time (some order))
        × ((e : GoError) × (new_invoice_from_proto_message as_time (some order) (lit "INV-1") noon
              ≡ err e)))
new_invoice-IsInvoiceOf_example = new_invoice-IsInvoiceOf as_time (some order) (lit "INV-1") noon
