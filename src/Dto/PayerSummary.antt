-- ===== src/Dto/PayerSummary.antt =====
-- The message PayerSummary of internal/domain/dto/paymentRequest.pb.go,
-- and its getters, which take a nil pointer.
use kenshu_elaris_project_pa.Base.{Option, none, some, []}
use kenshu_elaris_project_pa.Go.Text.{GoString}

pub record PayerSummary : Type 0 where
  pub name : GoString
  pub email : GoString

abbrev pub get_name : Option PayerSummary → GoString
get_name none = []
get_name (some x) = x.name

abbrev pub get_email : Option PayerSummary → GoString
get_email none = []
get_email (some x) = x.email
