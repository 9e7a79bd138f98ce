-- ===== src/Dto/Money.antt =====
-- The message Money of internal/domain/dto/money.pb.go,
-- and its getters, which take a nil pointer.
use kenshu_elaris_project_pa.Base.{Option, none, some, []}
use kenshu_elaris_project_pa.Base.Int.{ℤ, pos}
use kenshu_elaris_project_pa.Go.Text.{GoString}

pub record Money : Type 0 where
  pub amount : ℤ
  pub currency : GoString

abbrev pub get_amount : Option Money → ℤ
get_amount none = pos 0
get_amount (some x) = x.amount

abbrev pub get_currency : Option Money → GoString
get_currency none = []
get_currency (some x) = x.currency
