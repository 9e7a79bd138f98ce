-- ===== src/Dto/PayWithCardResponse.antt =====
-- The message PayWithCardResponse of internal/domain/dto/payWithCard.pb.go,
-- and its getters, which take a nil pointer.
-- `TS` is the type of google.protobuf.Timestamp.
use kenshu_elaris_project_pa.Base.{Option, none, some, []}
use kenshu_elaris_project_pa.Go.Text.{GoString}
use kenshu_elaris_project_pa.Dto.Enums.{PaymentStatus, status_unspecified}
use kenshu_elaris_project_pa.Dto.CardSummary.{CardSummary}

pub record PayWithCardResponse (TS : Type 0) : Type 0 where
  pub receipt_number : GoString
  pub invoice_number : GoString
  pub status : PaymentStatus
  pub card : Option CardSummary
  pub processed_at : Option TS

abbrev pub get_receipt_number : {TS : Type 0} → Option (PayWithCardResponse TS) → GoString
get_receipt_number none = []
get_receipt_number (some x) = x.receipt_number

abbrev pub get_invoice_number : {TS : Type 0} → Option (PayWithCardResponse TS) → GoString
get_invoice_number none = []
get_invoice_number (some x) = x.invoice_number

abbrev pub get_status : {TS : Type 0} → Option (PayWithCardResponse TS) → PaymentStatus
get_status none = status_unspecified
get_status (some x) = x.status

abbrev pub get_card : {TS : Type 0} → Option (PayWithCardResponse TS) → Option CardSummary
get_card none = none
get_card (some x) = x.card

abbrev pub get_processed_at : {TS : Type 0} → Option (PayWithCardResponse TS) → Option TS
get_processed_at none = none
get_processed_at (some x) = x.processed_at
