-- ===== src/Dto/PayWithCardRequest.antt =====
-- The message PayWithCardRequest of internal/domain/dto/payWithCard.pb.go,
-- and its getters, which take a nil pointer.
use kenshu_elaris_project_pa.Base.{Option, none, some, []}
use kenshu_elaris_project_pa.Go.Text.{GoString}
use kenshu_elaris_project_pa.Dto.Card.{Card}

pub record PayWithCardRequest : Type 0 where
  pub card : Option Card
  pub invoice_number : GoString

abbrev pub get_card : Option PayWithCardRequest → Option Card
get_card none = none
get_card (some x) = x.card

abbrev pub get_invoice_number : Option PayWithCardRequest → GoString
get_invoice_number none = []
get_invoice_number (some x) = x.invoice_number
