-- ===== src/Dto/BookingSnapshot.antt =====
-- The message BookingSnapshot of internal/domain/dto/createInvoice.pb.go,
-- and its getters, which take a nil pointer.
use kenshu_elaris_project_pa.Base.{Option, none, some, []}
use kenshu_elaris_project_pa.Base.Int.{ℤ, pos}
use kenshu_elaris_project_pa.Go.Text.{GoString}
use kenshu_elaris_project_pa.Dto.Money.{Money}

pub record BookingSnapshot : Type 0 where
  pub cottage_name : GoString
  pub nights : ℤ
  pub number_of_guests : ℤ
  pub value_per_night : Option Money

abbrev pub get_cottage_name : Option BookingSnapshot → GoString
get_cottage_name none = []
get_cottage_name (some x) = x.cottage_name

abbrev pub get_nights : Option BookingSnapshot → ℤ
get_nights none = pos 0
get_nights (some x) = x.nights

abbrev pub get_number_of_guests : Option BookingSnapshot → ℤ
get_number_of_guests none = pos 0
get_number_of_guests (some x) = x.number_of_guests

abbrev pub get_value_per_night : Option BookingSnapshot → Option Money
get_value_per_night none = none
get_value_per_night (some x) = x.value_per_night
