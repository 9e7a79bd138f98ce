-- ===== src/Transport/Gateway.antt =====
-- internal/transport/grpc/payment/paymentMakingService.pb.gw.go and
-- internal/transport/grpc/payment/paymentRequestReissueService.pb.gw.go
pub mod Handling
pub mod Link
pub mod Payment
pub mod Registration
pub mod Reissue
use kenshu_elaris_project_pa.Base.{ℕ, Option, none, some, List, [], ◌∷◌, ◌++◌}
use kenshu_elaris_project_pa.Go.Text.{GoString, lit}
use kenshu_elaris_project_pa.Go.Time.{Time}
use kenshu_elaris_project_pa.Go.Call.{
  Outcome, Act, Call, ◌>>=◌, ◌>>◌, pure, throw, of_outcome, query, map_err, catch,
}
use kenshu_elaris_project_pa.Errors.{GoError, error_text}
use kenshu_elaris_project_pa.Port.{Event}
use kenshu_elaris_project_pa.App.Grpc.{Refusal, refused, status_error, invalid_argument}
use kenshu_elaris_project_pa.App.PaymentMaking.{PaymentMakingService, Answer, pay_with_card}
use kenshu_elaris_project_pa.App.PaymentReissue.{PaymentReissueService, reissue}
use kenshu_elaris_project_pa.Dto.Card.{Card}
use kenshu_elaris_project_pa.Dto.PaymentRequest.{PaymentRequest}
use kenshu_elaris_project_pa.Dto.PayWithCardRequest.{PayWithCardRequest}
use kenshu_elaris_project_pa.Dto.ReissuePaymentRequest.{ReissuePaymentRequest}

-- An http.Request, as far as the handlers read it, and what the pattern of a route has captured.
pub record Request : Type 0 where
  pub body : GoString

abbrev pub PathParams : Type 0
PathParams = GoString → Option GoString

-- An error of Decode: one for which errors.Is(err, io.EOF) holds, or another one.
pub data DecodeError : Type 0 where
  end_of_file : DecodeError
  malformed : GoError → DecodeError

-- Package runtime of grpc-gateway: Decode of the marshaler of a request into a new message, with
-- what it leaves there; runtime.String; and AnnotateIncomingContext, or AnnotateContext, by the
-- name of the procedure and the pattern of the path.
pub record Runtime (E : Type 0) : Type 0 where
  pub decode_card : Request → Option Card × Option DecodeError
  pub decode_reissue : Request → ReissuePaymentRequest × Option DecodeError
  pub string : GoString → Outcome GoError GoString
  pub annotate : GoString → GoString → Request → Act E Refusal (Unit {0})

-- What a handler has the runtime write: HTTPError of an error, or ForwardResponseMessage of a message.
pub data Reply (A : Type 0) : Type 0 where
  http_error : Refusal → Reply A
  forwarded : A → Reply A

-- The arguments of runtime.NewPattern: the codes of the operations, and the pool of the texts.
pub record Pattern : Type 0 where
  pub codes : List ℕ
  pub pool : List GoString

abbrev pub Handler : Type 0 → Type 0 → Type 0 → Type 0
Handler E T A = Request → PathParams → Call E T ⊥ (Reply A)

-- The arguments of mux.Handle.
pub record Route (E T A : Type 0) : Type 0 where
  pub method : GoString
  pub pattern : Pattern
  pub handler : Handler E T A

abbrev pub pay_procedure : GoString
pay_procedure = lit "/paymentSimulator.payment.v1.PaymentMakingService/PayWithCard"

abbrev pub pay_path : GoString
pay_path = lit "/v1/payments/invoice/{invoice_number}"

abbrev pub reissue_procedure : GoString
reissue_procedure = lit "/paymentSimulator.payment.v1.PaymentReissueService/Reissue"

abbrev pub reissue_path : GoString
reissue_path = lit "/v1/payments/payment_request/reissue"

abbrev pub pay_pattern : Pattern
pay_pattern = record {
  codes = 2 ∷ 0 ∷ 2 ∷ 1 ∷ 2 ∷ 2 ∷ 1 ∷ 0 ∷ 4 ∷ 1 ∷ 5 ∷ 3 ∷ [];
  pool = lit "v1" ∷ lit "payments" ∷ lit "invoice" ∷ lit "invoice_number" ∷ [];
}

abbrev pub reissue_pattern : Pattern
reissue_pattern = record {
  codes = 2 ∷ 0 ∷ 2 ∷ 1 ∷ 2 ∷ 2 ∷ 2 ∷ 3 ∷ [];
  pool = lit "v1" ∷ lit "payments" ∷ lit "payment_request" ∷ lit "reissue" ∷ [];
}

-- `if err := ….Decode(…); err != nil && !errors.Is(err, io.EOF) { return … }`
unfoldable pub decoded : {E T A : Type 0} → A × Option DecodeError → Call E T Refusal A
decoded (a, none) = pure a
decoded (a, some end_of_file) = pure a
decoded (a, some (malformed e)) = throw (refused (status_error invalid_argument (error_text e)))

-- `val, ok := pathParams["invoice_number"]`
unfoldable pub path_param : {E T : Type 0} → PathParams → Call E T Refusal GoString
path_param params = elim (params (lit "invoice_number")) [
  | none ↦ throw (refused (status_error invalid_argument (lit "missing parameter invoice_number")))
  | some val ↦ pure val
]

unfoldable pub type_mismatch : GoError → Refusal
type_mismatch e = refused (
    status_error invalid_argument
      (lit "type mismatch, parameter: invoice_number, error: " ++ error_text e))

module _ {E T A : Type 0} (runtime : Runtime E) where
  -- request_PaymentMakingService_PayWithCard_0 and local_request_PaymentMakingService_PayWithCard_0,
  -- on the method PayWithCard of the client or the server. What is left of the body, which the
  -- former reads to its end, is used no more.
  unfoldable pub request_pay :
      (Option PayWithCardRequest → Call E T Refusal A) → Request → PathParams → Call E T Refusal A
  unfolding decoded path_param type_mismatch
  request_pay pay req params = do
    card ← decoded (runtime.decode_card req)
    val ← path_param params
    number ← map_err type_mismatch (of_outcome (runtime.string val))
    pay (some (record { card = card; invoice_number = number }))

  -- request_PaymentReissueService_Reissue_0 and local_request_PaymentReissueService_Reissue_0.
  unfoldable pub request_reissue :
      (Option ReissuePaymentRequest → Call E T Refusal A)
      → Request
      → PathParams
      → Call E T Refusal A
  unfolding decoded
  request_reissue call req params = do
    message ← decoded (runtime.decode_reissue req)
    call (some message)

  -- The body of the handlers, by the procedure, the path and what is requested.
  unfoldable pub handle :
      GoString → GoString → (Request → PathParams → Call E T Refusal A) → Handler E T A
  handle procedure path request req params =
      catch {Y = ⊥}
        (do
          query (runtime.annotate procedure path req)
          msg ← request req params
          pure (forwarded msg))
        (λ e. pure (http_error e))

  -- The routes that the two services have, by the method of the client or the server.
  unfoldable pub pay_route : (Option PayWithCardRequest → Call E T Refusal A) → Route E T A
  unfolding handle request_pay
  pay_route pay = record {
    method = lit "POST";
    pattern = pay_pattern;
    handler = handle pay_procedure pay_path (request_pay pay);
  }

  unfoldable pub reissue_route : (Option ReissuePaymentRequest → Call E T Refusal A) → Route E T A
  unfolding handle request_reissue
  reissue_route call = record {
    method = lit "POST";
    pattern = reissue_pattern;
    handler = handle reissue_procedure reissue_path (request_reissue call);
  }

-- A message that a service answers with: the one of PayWithCard with the work that it starts, or the
-- one of Reissue.
pub data Served (TS : Type 0) : Type 0 where
  payment : Answer TS → Served TS
  payment_request : PaymentRequest TS → Served TS

module _ {E TS : Type 0} where
  -- The methods of the two servers, as the handlers call them.
  abbrev pub pay_server :
      PaymentMakingService E TS → Option PayWithCardRequest → Call E (Event TS) Refusal (Served TS)
  pay_server s req = pay_with_card s req >>= λ a. pure (payment a)

  abbrev pub reissue_server :
      (Time → TS)
      → PaymentReissueService E
      → Option ReissuePaymentRequest
      → Call E (Event TS) Refusal (Served TS)
  reissue_server new_timestamp s req =
      map_err refused (reissue new_timestamp s req) >>= λ m. pure (payment_request m)
