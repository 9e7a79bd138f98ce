-- ===== src/Dto/CardSummary.antt =====
-- The message CardSummary of internal/domain/dto/cardSummary.pb.go,
-- and its getters, which take a nil pointer.
use kenshu_elaris_project_pa.Base.{Option, none, some, []}
use kenshu_elaris_project_pa.Go.Text.{GoString}

pub record CardSummary : Type 0 where
  pub brand : GoString
  pub last4 : GoString

abbrev pub get_brand : Option CardSummary → GoString
get_brand none = []
get_brand (some x) = x.brand

abbrev pub get_last4 : Option CardSummary → GoString
get_last4 none = []
get_last4 (some x) = x.last4
