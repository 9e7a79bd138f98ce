-- ===== src/App/Unmarshal.antt =====
-- internal/app/invoice_service.go: unmarshalRequest.
use kenshu_elaris_project_pa.Base.{ℕ, [], ◌++◌, if◌then◌else◌}
use kenshu_elaris_project_pa.Go.Text.{GoString, lit, text_eq, trim_space, to_lower}
use kenshu_elaris_project_pa.Go.Call.{Outcome, ok, err, panicked}
use kenshu_elaris_project_pa.Errors.{GoError, foreign, app_corrupted_data}
use kenshu_elaris_project_pa.Port.{Codec}
use kenshu_elaris_project_pa.Dto.CreateInvoicePaymentRequest.{CreateInvoicePaymentRequest}

-- What the service reads of an amqp.Delivery.
pub record Delivery : Type 0 where
  pub delivery_tag : ℕ
  pub content_type : GoString
  pub body : GoString

module _ {TS : Type 0} (codec : Codec TS) where
  -- An error of a decoder as the error that unmarshalRequest reports.
  corrupted :
      GoString
      → Outcome GoError (CreateInvoicePaymentRequest TS)
      → Outcome GoError (CreateInvoicePaymentRequest TS)
  corrupted message (ok req) = ok req
  corrupted message (err e) = err (app_corrupted_data message e)
  corrupted message panicked = panicked

  -- `first`, or the second attempt where the first one fails.
  or_else : {A : Type 0} → Outcome GoError A → Outcome GoError A → Outcome GoError A
  or_else (ok a) second = ok a
  or_else (err e) second = second
  or_else panicked second = panicked

  -- The two attempts after the switch.
  try_both : Delivery → Outcome GoError (CreateInvoicePaymentRequest TS)
  unfolding or_else
  try_both delivery = or_else (codec.proto_unmarshal delivery.body) (
      or_else (codec.protojson_unmarshal delivery.body) (
        err (
          app_corrupted_data
            (lit
                "could not unmarshal message to dto.CreateInvoicePaymentRequest; unsupported content_type="
              ++ codec.quote delivery.content_type)
            (foreign (lit "message body is neither valid protobuf nor valid protobuf json")))))

  unfoldable pub unmarshal_request : Delivery → Outcome GoError (CreateInvoicePaymentRequest TS)
  unfolding corrupted or_else try_both
  unmarshal_request delivery =
      let content_type = to_lower (trim_space delivery.content_type) in
      if text_eq content_type []
      then or_else (codec.proto_unmarshal delivery.body) (try_both delivery)
      else if text_eq content_type (lit "application/protobuf")
      then corrupted (lit "could not unmarshal protobuf message to dto.CreateInvoicePaymentRequest")
          (codec.proto_unmarshal delivery.body)
      else if text_eq content_type (lit "application/json")
      then corrupted (lit "could not unmarshal json message to dto.CreateInvoicePaymentRequest")
          (codec.protojson_unmarshal delivery.body)
      else try_both delivery
