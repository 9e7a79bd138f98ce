-- ===== src/Dto/PaymentRequest.antt =====
-- The message PaymentRequest of internal/domain/dto/paymentRequest.pb.go,
-- and its getters, which take a nil pointer.
-- `TS` is the type of google.protobuf.Timestamp.
use kenshu_elaris_project_pa.Base.{Option, none, some, List, []}
use kenshu_elaris_project_pa.Go.Text.{GoString}
use kenshu_elaris_project_pa.Dto.Money.{Money}
use kenshu_elaris_project_pa.Dto.BookingSummary.{BookingSummary}
use kenshu_elaris_project_pa.Dto.PayerSummary.{PayerSummary}
use kenshu_elaris_project_pa.Dto.PaymentOption.{PaymentOption}

pub record PaymentRequest (TS : Type 0) : Type 0 where
  pub invoice_number : GoString
  pub description : GoString
  pub total : Option Money
  pub issued_at : Option TS
  pub expires_at : Option TS
  pub booking : Option BookingSummary
  pub payer : Option PayerSummary
  pub options : List (Option PaymentOption)

abbrev pub get_invoice_number : {TS : Type 0} → Option (PaymentRequest TS) → GoString
get_invoice_number none = []
get_invoice_number (some x) = x.invoice_number

abbrev pub get_description : {TS : Type 0} → Option (PaymentRequest TS) → GoString
get_description none = []
get_description (some x) = x.description

abbrev pub get_total : {TS : Type 0} → Option (PaymentRequest TS) → Option Money
get_total none = none
get_total (some x) = x.total

abbrev pub get_issued_at : {TS : Type 0} → Option (PaymentRequest TS) → Option TS
get_issued_at none = none
get_issued_at (some x) = x.issued_at

abbrev pub get_expires_at : {TS : Type 0} → Option (PaymentRequest TS) → Option TS
get_expires_at none = none
get_expires_at (some x) = x.expires_at

abbrev pub get_booking : {TS : Type 0} → Option (PaymentRequest TS) → Option BookingSummary
get_booking none = none
get_booking (some x) = x.booking

abbrev pub get_payer : {TS : Type 0} → Option (PaymentRequest TS) → Option PayerSummary
get_payer none = none
get_payer (some x) = x.payer

abbrev pub get_options : {TS : Type 0} → Option (PaymentRequest TS) → List (Option PaymentOption)
get_options none = []
get_options (some x) = x.options
