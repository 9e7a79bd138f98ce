-- ===== src/Dto/Payer.antt =====
-- The message Payer of internal/domain/dto/createInvoice.pb.go,
-- and its getters, which take a nil pointer.
use kenshu_elaris_project_pa.Base.{Option, none, some, []}
use kenshu_elaris_project_pa.Go.Text.{GoString}

pub record Payer : Type 0 where
  pub name : GoString
  pub email : GoString
  pub document_number : GoString
  pub billing_address : GoString

abbrev pub get_name : Option Payer → GoString
get_name none = []
get_name (some x) = x.name

abbrev pub get_email : Option Payer → GoString
get_email none = []
get_email (some x) = x.email

abbrev pub get_document_number : Option Payer → GoString
get_document_number none = []
get_document_number (some x) = x.document_number

abbrev pub get_billing_address : Option Payer → GoString
get_billing_address none = []
get_billing_address (some x) = x.billing_address
