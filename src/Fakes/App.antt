-- ===== src/Fakes/App.antt =====
-- internal/app/fakes
use mathlib.Core.Option
use kenshu_elaris_project_pa.Base.{ℕ, suc, Option, none, []}
use kenshu_elaris_project_pa.Go.Call.{Act}
use kenshu_elaris_project_pa.Fakes.{or_zero, noting}
use kenshu_elaris_project_pa.App.Grpc.{Refusal}
use kenshu_elaris_project_pa.Dto.Enums.{status_unspecified}
use kenshu_elaris_project_pa.Dto.PaymentRequest.{PaymentRequest}
use kenshu_elaris_project_pa.Dto.PayWithCardRequest.{PayWithCardRequest}
use kenshu_elaris_project_pa.Dto.PayWithCardResponse.{PayWithCardResponse}
use kenshu_elaris_project_pa.Dto.ReissuePaymentRequest.{ReissuePaymentRequest}

-- What a fake of a server keeps: the number of the calls and the last request.
pub record ServerCalls (R : Type 0) : Type 0 where
  pub call_count : ℕ
  pub last_req : Option R

abbrev pub note : {R : Type 0} → Option R → ServerCalls R → ServerCalls R
note req c = record { call_count = suc c.call_count; last_req = req }

-- dto.PayWithCardResponse{} and dto.PaymentRequest{}
abbrev pub zero_response : {TS : Type 0} → PayWithCardResponse TS
zero_response = record {
  receipt_number = [];
  invoice_number = [];
  status = status_unspecified;
  card = none;
  processed_at = none;
}

abbrev pub zero_payment_request : {TS : Type 0} → PaymentRequest TS
zero_payment_request = record {
  invoice_number = [];
  description = [];
  total = none;
  issued_at = none;
  expires_at = none;
  booking = none;
  payer = none;
  options = [];
}

-- FakePaymentMakingService
unfoldable pub pay_with_card :
    {S TS : Type 0}
    → Option (Option PayWithCardRequest → Act S Refusal (PayWithCardResponse TS))
    → Option PayWithCardRequest
    → Act (ServerCalls PayWithCardRequest × S) Refusal (PayWithCardResponse TS)
pay_with_card pay_with_card_fn req =
    noting (note req) (or_zero (Option.map (λ f. f req) pay_with_card_fn) zero_response)

-- FakePaymentReissueService
unfoldable pub reissue :
    {S TS : Type 0}
    → Option (Option ReissuePaymentRequest → Act S Refusal (PaymentRequest TS))
    → Option ReissuePaymentRequest
    → Act (ServerCalls ReissuePaymentRequest × S) Refusal (PaymentRequest TS)
reissue reissue_fn req =
    noting (note req) (or_zero (Option.map (λ f. f req) reissue_fn) zero_payment_request)

-- FakeInvoiceService, with the number of its calls.
unfoldable pub start_invoice_processing :
    {S X : Type 0} → Option (Act S X (Unit {0})) → Act (ℕ × S) X (Unit {0})
start_invoice_processing start_invoice_processing_fn =
    noting (λ n. suc n) (or_zero start_invoice_processing_fn tt)
