-- ===== src/Dto/CreateInvoicePaymentRequest.antt =====
-- The message CreateInvoicePaymentRequest of internal/domain/dto/createInvoice.pb.go,
-- and its getters, which take a nil pointer.
-- `TS` is the type of google.protobuf.Timestamp.
use kenshu_elaris_project_pa.Base.{Option, none, some, []}
use kenshu_elaris_project_pa.Go.Text.{GoString}
use kenshu_elaris_project_pa.Dto.Payer.{Payer}
use kenshu_elaris_project_pa.Dto.BookingSnapshot.{BookingSnapshot}
use kenshu_elaris_project_pa.Dto.Money.{Money}

pub record CreateInvoicePaymentRequest (TS : Type 0) : Type 0 where
  pub idempotency_key : GoString
  pub booking_id : GoString
  pub payer_id : GoString
  pub issued_at : Option TS
  pub due_at : Option TS
  pub payer : Option Payer
  pub booking : Option BookingSnapshot
  pub total : Option Money
  pub tax_total : Option Money
  pub discount_total : Option Money

abbrev pub get_idempotency_key : {TS : Type 0} → Option (CreateInvoicePaymentRequest TS) → GoString
get_idempotency_key none = []
get_idempotency_key (some x) = x.idempotency_key

abbrev pub get_booking_id : {TS : Type 0} → Option (CreateInvoicePaymentRequest TS) → GoString
get_booking_id none = []
get_booking_id (some x) = x.booking_id

abbrev pub get_payer_id : {TS : Type 0} → Option (CreateInvoicePaymentRequest TS) → GoString
get_payer_id none = []
get_payer_id (some x) = x.payer_id

abbrev pub get_issued_at : {TS : Type 0} → Option (CreateInvoicePaymentRequest TS) → Option TS
get_issued_at none = none
get_issued_at (some x) = x.issued_at

abbrev pub get_due_at : {TS : Type 0} → Option (CreateInvoicePaymentRequest TS) → Option TS
get_due_at none = none
get_due_at (some x) = x.due_at

abbrev pub get_payer : {TS : Type 0} → Option (CreateInvoicePaymentRequest TS) → Option Payer
get_payer none = none
get_payer (some x) = x.payer

abbrev pub get_booking :
    {TS : Type 0} → Option (CreateInvoicePaymentRequest TS) → Option BookingSnapshot
get_booking none = none
get_booking (some x) = x.booking

abbrev pub get_total : {TS : Type 0} → Option (CreateInvoicePaymentRequest TS) → Option Money
get_total none = none
get_total (some x) = x.total

abbrev pub get_tax_total : {TS : Type 0} → Option (CreateInvoicePaymentRequest TS) → Option Money
get_tax_total none = none
get_tax_total (some x) = x.tax_total

abbrev pub get_discount_total :
    {TS : Type 0} → Option (CreateInvoicePaymentRequest TS) → Option Money
get_discount_total none = none
get_discount_total (some x) = x.discount_total
