-- ===== src/App/Grpc.antt =====
-- The gRPC status errors that the services answer with, and the error mapping they share.
use kenshu_elaris_project_pa.Base.{true, false}
use kenshu_elaris_project_pa.Go.Text.{GoString, lit}
use kenshu_elaris_project_pa.Errors.{
  GoError, error_text, error_as, to_db_invoice_not_found, to_db_corrupted_data,
}

-- The codes of google.golang.org/grpc/codes in use.
pub data Code : Type 0 where
  invalid_argument not_found failed_precondition internal : Code

-- status.Error
pub record Status : Type 0 where
  pub code : Code
  pub message : GoString

abbrev pub status_error : Code → GoString → Status
status_error code message = record { code = code; message = message }

-- paymentMakingService.mapError, and the same three cases in Reissue.
unfoldable pub map_error : GoError → Status
map_error e = elim (error_as to_db_invoice_not_found e) [
  | true ↦ status_error not_found (error_text e)
  | false ↦ elim (error_as to_db_corrupted_data e) [
    | true ↦ status_error internal (lit "database returned corrupted invoice data")
    | false ↦ status_error internal (error_text e)
  ]
]

abbrev pub already_paid : Status
already_paid = status_error failed_precondition (lit "invoice is already paid")

-- An error that a handler returns: a status, or an error of the program left as it is, which gRPC
-- takes for a status of code Unknown.
pub data Refusal : Type 0 where
  refused : Status → Refusal
  bare : GoError → Refusal
