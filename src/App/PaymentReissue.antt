-- ===== src/App/PaymentReissue.antt =====
-- internal/app/payment_reissue_service.go
pub mod Laws
use kenshu_elaris_project_pa.Base.{true, false, Option, none, some}
use kenshu_elaris_project_pa.Go.Text.{GoString, lit, equal_fold}
use kenshu_elaris_project_pa.Go.Time.{Time}
use kenshu_elaris_project_pa.Go.Call.{Call, ◌>>=◌, pure, throw, query, map_err}
use kenshu_elaris_project_pa.Errors.{error_text}
use kenshu_elaris_project_pa.Validation.{Validator, ◌▷◌, new_validator, not_blank, validate}
use kenshu_elaris_project_pa.Document.Invoice.{Invoice, status_paid}
use kenshu_elaris_project_pa.Port.{InvoiceRepo, Event}
use kenshu_elaris_project_pa.App.Grpc.{
  Status, status_error, invalid_argument, map_error, already_paid,
}
use kenshu_elaris_project_pa.App.Mapper.{build_payment_request}
use kenshu_elaris_project_pa.Dto
use kenshu_elaris_project_pa.Dto.PaymentRequest.{PaymentRequest}
use kenshu_elaris_project_pa.Dto.ReissuePaymentRequest.{ReissuePaymentRequest}

pub record PaymentReissueService (E : Type 0) : Type 0 where
  pub invoice_repo : InvoiceRepo E
  pub payment_host : GoString

unfoldable pub reissue_validator : Option ReissuePaymentRequest → Validator
unfolding new_validator not_blank
reissue_validator r =
    new_validator
    ▷ not_blank (lit "booking_number") (Dto.ReissuePaymentRequest.get_booking_number r)
    ▷ not_blank (lit "document_number") (Dto.ReissuePaymentRequest.get_document_number r)

module _ {E TS : Type 0} (new_timestamp : Time → TS) (p : PaymentReissueService E) where
  -- What Reissue does with the invoice it has found.
  reissue_found : Invoice → Call E (Event TS) Status (PaymentRequest TS)
  reissue_found invoice = elim (equal_fold invoice.status status_paid) [
    | true ↦ throw already_paid
    | false ↦ pure (build_payment_request new_timestamp invoice p.payment_host)
  ]

  unfoldable pub reissue :
      Option ReissuePaymentRequest → Call E (Event TS) Status (PaymentRequest TS)
  unfolding reissue_found
  reissue r = elim (validate (reissue_validator r)) [
    | some e ↦ throw (status_error invalid_argument (error_text e))
    | none ↦
        map_err map_error (
          query (
            p.invoice_repo.find_by_booking_number_and_document_number
              (Dto.ReissuePaymentRequest.get_booking_number r)
              (Dto.ReissuePaymentRequest.get_document_number r)))
        >>= reissue_found
  ]
