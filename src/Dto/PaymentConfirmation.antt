-- ===== src/Dto/PaymentConfirmation.antt =====
-- The message PaymentConfirmation of internal/domain/dto/paymentConfirmation.pb.go,
-- and its getters, which take a nil pointer.
-- `TS` is the type of google.protobuf.Timestamp.
use kenshu_elaris_project_pa.Base.{Option, none, some, []}
use kenshu_elaris_project_pa.Go.Text.{GoString}

pub record PaymentConfirmation (TS : Type 0) : Type 0 where
  pub id : GoString
  pub booking_id : GoString
  pub payer_id : GoString
  pub invoice_number : GoString
  pub receipt_number : GoString
  pub confirmed_at : Option TS

abbrev pub get_id : {TS : Type 0} → Option (PaymentConfirmation TS) → GoString
get_id none = []
get_id (some x) = x.id

abbrev pub get_booking_id : {TS : Type 0} → Option (PaymentConfirmation TS) → GoString
get_booking_id none = []
get_booking_id (some x) = x.booking_id

abbrev pub get_payer_id : {TS : Type 0} → Option (PaymentConfirmation TS) → GoString
get_payer_id none = []
get_payer_id (some x) = x.payer_id

abbrev pub get_invoice_number : {TS : Type 0} → Option (PaymentConfirmation TS) → GoString
get_invoice_number none = []
get_invoice_number (some x) = x.invoice_number

abbrev pub get_receipt_number : {TS : Type 0} → Option (PaymentConfirmation TS) → GoString
get_receipt_number none = []
get_receipt_number (some x) = x.receipt_number

abbrev pub get_confirmed_at : {TS : Type 0} → Option (PaymentConfirmation TS) → Option TS
get_confirmed_at none = none
get_confirmed_at (some x) = x.confirmed_at
