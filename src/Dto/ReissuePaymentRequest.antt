-- ===== src/Dto/ReissuePaymentRequest.antt =====
-- The message ReissuePaymentRequest of internal/domain/dto/reissuePaymentRequest.pb.go,
-- and its getters, which take a nil pointer.
use kenshu_elaris_project_pa.Base.{Option, none, some, []}
use kenshu_elaris_project_pa.Go.Text.{GoString}

pub record ReissuePaymentRequest : Type 0 where
  pub booking_number : GoString
  pub document_number : GoString

abbrev pub get_booking_number : Option ReissuePaymentRequest → GoString
get_booking_number none = []
get_booking_number (some x) = x.booking_number

abbrev pub get_document_number : Option ReissuePaymentRequest → GoString
get_document_number none = []
get_document_number (some x) = x.document_number
