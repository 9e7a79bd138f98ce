-- ===== src/Document/Invoice.antt =====
-- internal/domain/document/invoice.go: the invoice document, and its construction from a request.
pub mod Request
pub mod Laws
use kenshu_elaris_project_pa.Base.{
  ℕ, Bool, true, false, ◌||◌, Option, none, some, List, [], ◌∷◌, if◌then◌else◌,
}
use kenshu_elaris_project_pa.Base.Int.{ℤ}
use kenshu_elaris_project_pa.Go.Text.{GoString, lit, text_eq}
use kenshu_elaris_project_pa.Go.Time.{Time}
use kenshu_elaris_project_pa.Go.Call.{Outcome, ok, err}
use kenshu_elaris_project_pa.Errors.{GoError}
use kenshu_elaris_project_pa.Validation.{
  Validator, int, pointer, ◌▷◌, new_validator, not_blank, not_nil, positive_value, valid_precedence,
  validate,
}
use kenshu_elaris_project_pa.Dto
use kenshu_elaris_project_pa.Dto.CreateInvoicePaymentRequest.{CreateInvoicePaymentRequest}

-- bson.ObjectID: its twelve bytes as a number.
abbrev pub ObjectId : Type 0
ObjectId = ℕ

unfoldable pub status_pending : GoString
unfolding lit
status_pending = lit "pending"

unfoldable pub status_paid : GoString
unfolding lit
status_paid = lit "paid"

pub record Money : Type 0 where
  pub amount : ℤ
  pub currency : GoString

pub record Payer : Type 0 where
  pub name : GoString
  pub email : GoString
  pub document_number : GoString
  pub billing_address : GoString

pub record BookingSnapshot : Type 0 where
  pub cottage_name : GoString
  pub nights : ℤ
  pub number_of_guests : ℤ
  pub value_per_night : Money

pub record Invoice : Type 0 where
  pub id : ObjectId
  pub invoice_number : GoString
  pub status : GoString
  pub issued_at : Time
  pub due_at : Time
  pub idempotency_id : GoString
  pub booking_id : GoString
  pub payer_id : GoString
  pub payer : Payer
  pub booking : BookingSnapshot
  pub total : Money
  pub tax_total : Money
  pub discount_total : Money
  pub created_at : Time
  pub updated_at : Time

unfoldable pub is_valid_invoice_status : GoString → Bool
unfolding text_eq status_pending status_paid
is_valid_invoice_status status = text_eq status status_pending || text_eq status status_paid

module _ {TS : Type 0} (as_time : Option TS → Time) where
  -- The checks of NewInvoiceFromProtoMessage on a request that is not nil.
  unfoldable pub request_validator : Option (CreateInvoicePaymentRequest TS) → Validator
  unfolding new_validator not_blank not_nil positive_value valid_precedence
  request_validator req =
      let payer = Dto.CreateInvoicePaymentRequest.get_payer req in
      let booking = Dto.CreateInvoicePaymentRequest.get_booking req in
      let total = Dto.CreateInvoicePaymentRequest.get_total req in
      let tax_total = Dto.CreateInvoicePaymentRequest.get_tax_total req in
      let discount_total = Dto.CreateInvoicePaymentRequest.get_discount_total req in
      let issued_at = Dto.CreateInvoicePaymentRequest.get_issued_at req in
      let due_at = Dto.CreateInvoicePaymentRequest.get_due_at req in
      let value_per_night = Dto.BookingSnapshot.get_value_per_night booking in
      new_validator
      ▷ not_blank (lit "invoiceProto.idempotency_key")
          (Dto.CreateInvoicePaymentRequest.get_idempotency_key req)
      ▷ not_blank (lit "invoiceProto.booking_id")
          (Dto.CreateInvoicePaymentRequest.get_booking_id req)
      ▷ not_blank (lit "invoiceProto.payer_id") (Dto.CreateInvoicePaymentRequest.get_payer_id req)
      ▷ not_nil (lit "invoiceProto.issuedAt") (pointer issued_at)
      ▷ not_nil (lit "invoiceProto.dueAt") (pointer due_at)
      ▷ not_nil (lit "invoiceProto.payer") (pointer payer)
      ▷ not_nil (lit "invoiceProto.booking") (pointer booking)
      ▷ not_nil (lit "invoiceProto.total") (pointer total)
      ▷ not_nil (lit "invoiceProto.tax_total") (pointer tax_total)
      ▷ not_nil (lit "invoiceProto.discount_total") (pointer discount_total)
      ▷ not_nil (lit "invoiceProto.booking.value_per_night") (pointer value_per_night)
      ▷ not_blank (lit "invoiceProto.payer.name") (Dto.Payer.get_name payer)
      ▷ not_blank (lit "invoiceProto.payer.email") (Dto.Payer.get_email payer)
      ▷ not_blank (lit "invoiceProto.payer.document_number") (Dto.Payer.get_document_number payer)
      ▷ not_blank (lit "invoiceProto.payer.billing_address") (Dto.Payer.get_billing_address payer)
      ▷ not_blank (lit "invoiceProto.booking.cottage_name")
          (Dto.BookingSnapshot.get_cottage_name booking)
      ▷ positive_value (lit "invoiceProto.booking.nights")
          (some (int (Dto.BookingSnapshot.get_nights booking)))
      ▷ positive_value (lit "invoiceProto.booking.number_of_guests")
          (some (int (Dto.BookingSnapshot.get_number_of_guests booking)))
      ▷ positive_value (lit "invoiceProto.booking.value_per_night.amount")
          (some (int (Dto.Money.get_amount value_per_night)))
      ▷ not_blank (lit "invoiceProto.booking.value_per_night.currency")
          (Dto.Money.get_currency value_per_night)
      ▷ positive_value (lit "invoiceProto.total.amount") (some (int (Dto.Money.get_amount total)))
      ▷ not_blank (lit "invoiceProto.total.currency") (Dto.Money.get_currency total)
      ▷ not_blank (lit "invoiceProto.tax_total.currency") (Dto.Money.get_currency tax_total)
      ▷ not_blank (lit "invoiceProto.discount_total.currency")
          (Dto.Money.get_currency discount_total)
      ▷ valid_precedence (as_time issued_at) (as_time due_at)

  -- The document that the checks let through.
  unfoldable pub invoice_of_request :
      Option (CreateInvoicePaymentRequest TS) → GoString → Time → Invoice
  invoice_of_request req invoice_number now =
      let payer = Dto.CreateInvoicePaymentRequest.get_payer req in
      let booking = Dto.CreateInvoicePaymentRequest.get_booking req in
      let total = Dto.CreateInvoicePaymentRequest.get_total req in
      let tax_total = Dto.CreateInvoicePaymentRequest.get_tax_total req in
      let discount_total = Dto.CreateInvoicePaymentRequest.get_discount_total req in
      let value_per_night = Dto.BookingSnapshot.get_value_per_night booking in
      record {
        id = 0;
        invoice_number = invoice_number;
        status = status_pending;
        issued_at = as_time (Dto.CreateInvoicePaymentRequest.get_issued_at req);
        due_at = as_time (Dto.CreateInvoicePaymentRequest.get_due_at req);
        idempotency_id = Dto.CreateInvoicePaymentRequest.get_idempotency_key req;
        booking_id = Dto.CreateInvoicePaymentRequest.get_booking_id req;
        payer_id = Dto.CreateInvoicePaymentRequest.get_payer_id req;
        payer = record {
          name = Dto.Payer.get_name payer;
          email = Dto.Payer.get_email payer;
          document_number = Dto.Payer.get_document_number payer;
          billing_address = Dto.Payer.get_billing_address payer;
        };
        booking = record {
          cottage_name = Dto.BookingSnapshot.get_cottage_name booking;
          nights = Dto.BookingSnapshot.get_nights booking;
          number_of_guests = Dto.BookingSnapshot.get_number_of_guests booking;
          value_per_night = record {
            amount = Dto.Money.get_amount value_per_night;
            currency = Dto.Money.get_currency value_per_night;
          };
        };
        total = record {
          amount = Dto.Money.get_amount total;
          currency = Dto.Money.get_currency total;
        };
        tax_total = record {
          amount = Dto.Money.get_amount tax_total;
          currency = Dto.Money.get_currency tax_total;
        };
        discount_total = record {
          amount = Dto.Money.get_amount discount_total;
          currency = Dto.Money.get_currency discount_total;
        };
        created_at = now;
        updated_at = now;
      }

  -- NewInvoiceFromProtoMessage
  unfoldable pub new_invoice_from_proto_message :
      Option (CreateInvoicePaymentRequest TS) → GoString → Time → Outcome GoError Invoice
  new_invoice_from_proto_message req invoice_number now =
      elim (validate (new_validator ▷ not_nil (lit "invoiceProto") (pointer req))) [
        | some e ↦ err e
        | none ↦ elim (validate (request_validator req)) [
          | some e ↦ err e
          | none ↦ ok (invoice_of_request req invoice_number now)
        ]
      ]
