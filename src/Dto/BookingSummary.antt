-- ===== src/Dto/BookingSummary.antt =====
-- The message BookingSummary of internal/domain/dto/paymentRequest.pb.go,
-- and its getters, which take a nil pointer.
use kenshu_elaris_project_pa.Base.{Option, none, some, []}
use kenshu_elaris_project_pa.Base.Int.{ℤ, pos}
use kenshu_elaris_project_pa.Go.Text.{GoString}

pub record BookingSummary : Type 0 where
  pub cottage_name : GoString
  pub nights : ℤ
  pub number_of_guests : ℤ

abbrev pub get_cottage_name : Option BookingSummary → GoString
get_cottage_name none = []
get_cottage_name (some x) = x.cottage_name

abbrev pub get_nights : Option BookingSummary → ℤ
get_nights none = pos 0
get_nights (some x) = x.nights

abbrev pub get_number_of_guests : Option BookingSummary → ℤ
get_number_of_guests none = pos 0
get_number_of_guests (some x) = x.number_of_guests
