-- ===== src/Dto/PaymentOption.antt =====
-- The message PaymentOption of internal/domain/dto/paymentRequest.pb.go,
-- and its getters, which take a nil pointer.
use kenshu_elaris_project_pa.Base.{Option, none, some, []}
use kenshu_elaris_project_pa.Go.Text.{GoString}
use kenshu_elaris_project_pa.Dto.Enums.{PaymentMethod, method_unspecified}

pub record PaymentOption : Type 0 where
  pub method : PaymentMethod
  pub payment_url : GoString
  pub instructions : GoString

abbrev pub get_method : Option PaymentOption → PaymentMethod
get_method none = method_unspecified
get_method (some x) = x.method

abbrev pub get_payment_url : Option PaymentOption → GoString
get_payment_url none = []
get_payment_url (some x) = x.payment_url

abbrev pub get_instructions : Option PaymentOption → GoString
get_instructions none = []
get_instructions (some x) = x.instructions
