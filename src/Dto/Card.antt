-- ===== src/Dto/Card.antt =====
-- The message Card of internal/domain/dto/payWithCard.pb.go,
-- and its getters, which take a nil pointer.
use kenshu_elaris_project_pa.Base.{Option, none, some, ℕ, []}
use kenshu_elaris_project_pa.Go.Text.{GoString}

pub record Card : Type 0 where
  pub brand : GoString
  pub number : GoString
  pub exp_month : ℕ
  pub exp_year : ℕ
  pub cvv : GoString
  pub holder_name : GoString

abbrev pub get_brand : Option Card → GoString
get_brand none = []
get_brand (some x) = x.brand

abbrev pub get_number : Option Card → GoString
get_number none = []
get_number (some x) = x.number

abbrev pub get_exp_month : Option Card → ℕ
get_exp_month none = 0
get_exp_month (some x) = x.exp_month

abbrev pub get_exp_year : Option Card → ℕ
get_exp_year none = 0
get_exp_year (some x) = x.exp_year

abbrev pub get_cvv : Option Card → GoString
get_cvv none = []
get_cvv (some x) = x.cvv

abbrev pub get_holder_name : Option Card → GoString
get_holder_name none = []
get_holder_name (some x) = x.holder_name
