-- ===== src/Transport/Gateway/Payment.antt =====
-- The HTTP handler of PayWithCard: what it changes, and what it refuses.
use kenshu_elaris_project_pa.Base.{
  ◌≡◌, ◌⊎◌, inl, inr, refl, sym, ap, ◌∙◌, Option-cases, Option, some, [], ◌∷◌, ◌++◌, arith,
}
use kenshu_elaris_project_pa.Go.Text.{GoString, lit}
use kenshu_elaris_project_pa.Go.Time.{Time}
use kenshu_elaris_project_pa.Go.Call.{
  Outcome, Call, ok, err, panicked, World, ◌>>=◌, pure, bind-eq-ok, of_outcome, map_err,
  bind-pure_world, Outcome-cases, is_ok, is_err, is_panicked,
}
use kenshu_elaris_project_pa.Errors.{error_text}
use kenshu_elaris_project_pa.Document.Invoice.{status_paid}
use kenshu_elaris_project_pa.Port.{Event, updated_status}
use kenshu_elaris_project_pa.App.Grpc.{Refusal, refused, status_error, invalid_argument}
use kenshu_elaris_project_pa.App.PaymentMaking.{PaymentMakingService, Answer, pay_with_card}
use kenshu_elaris_project_pa.App.PaymentMaking.Payment.{pay_with_card-trace}
use kenshu_elaris_project_pa.Dto.PayWithCardRequest.{PayWithCardRequest}
use kenshu_elaris_project_pa.Transport.Gateway.Handling.{annotated, handle-world, handle-forwarded}
use kenshu_elaris_project_pa.Transport.Gateway.{
  Request, PathParams, end_of_file, malformed, Runtime, forwarded, decoded, pay_procedure, pay_path,
  path_param, type_mismatch, request_pay, pay_route, Served, payment, pay_server,
}

-- The number by which a path names an invoice.
pub record Names {E : Type 0} (runtime : Runtime E) (params : PathParams) (number : GoString)
    : Type 0 where
  pub val : GoString
  pub captured : params (lit "invoice_number") ≡ some val
  pub converted : runtime.string val ≡ ok number

module _ {E T A : Type 0} (runtime : Runtime E) (req : Request) (params : PathParams)
    (pay : Option PayWithCardRequest → Call E T Refusal A) where
  -- A request to pay is refused as an invalid argument, fails with a panic of runtime.String, or
  -- becomes one call, for the invoice that the path names and with the card of the body.
  pub data Requested (w : World E T) : Type 0 where
    invalid :
        (reason : GoString)
        → request_pay runtime pay req params w
          ≡ (err (refused (status_error invalid_argument reason)), w)
        → Requested w
    broken : request_pay runtime pay req params w ≡ (panicked, w) → Requested w
    called :
        (message : PayWithCardRequest)
        → Names runtime params message.invoice_number
        → message.card ≡ (runtime.decode_card req).0
        → request_pay runtime pay req params w ≡ pay (some message) w
        → Requested w

  -- What follows the decoding of the body.
  named-Requested :
      (w : World E T)
      → request_pay runtime pay req params w
        ≡ (path_param params >>= λ val.
              map_err type_mismatch (of_outcome (runtime.string val)) >>= λ number.
              pay (some (record { card = (runtime.decode_card req).0; invoice_number = number })))
            w
      → Requested w
  unfolding path_param type_mismatch
  named-Requested w h = elim (Option-cases (params (lit "invoice_number"))) [
    | inl e ↦ invalid (lit "missing parameter invoice_number") (ground (arith, h, e))
    | inr (val, e) ↦ elim (Outcome-cases (runtime.string val)) [
      | is_err x f ↦
          invalid (lit "type mismatch, parameter: invoice_number, error: " ++ error_text x)
            (ground (arith, h, e, f))
      | is_panicked f ↦ broken (ground (arith, h, e, f))
      | is_ok number f ↦
          called (record { card = (runtime.decode_card req).0; invoice_number = number })
            (record { val = val; captured = e; converted = f }) refl (ground (arith, h, e, f))
    ]
  ]

  pub request_pay-Requested : (w : World E T) → Requested w
  unfolding request_pay decoded
  request_pay-Requested w = elim (Option-cases (runtime.decode_card req).1) [
    | inl h ↦ named-Requested w (ground (arith, h))
    | inr (end_of_file, h) ↦ named-Requested w (ground (arith, h))
    | inr (malformed e, h) ↦ invalid (error_text e) (ground (arith, h))
  ]

module _ {E TS : Type 0} (runtime : Runtime E) (s : PaymentMakingService E TS) (req : Request)
    (params : PathParams) where
  -- What the payment of an invoice that the path names may leave.
  abbrev Leaves : World E (Event TS) → World E (Event TS) → Type 0
  Leaves w w' =
      (w'.trace ≡ w.trace)
      ⊎ ((number : GoString) × (now : Time) × Names runtime params number
          × (w'.trace ≡ w.trace ++ updated_status number status_paid now ∷ []))

  request_pay-Leaves :
      (w : World E (Event TS)) → Leaves w (request_pay runtime (pay_server s) req params w).1
  request_pay-Leaves w = elim (request_pay-Requested runtime req params (pay_server s) w) [
    | invalid reason e ↦ inl (ap (λ p. p.1.trace) e)
    | broken e ↦ inl (ap (λ p. p.1.trace) e)
    | called message names card e ↦
        let kept =
          ap (λ p. p.1.trace) e
          ∙ ap (λ v. v.trace) (bind-pure_world (pay_with_card s (some message)) payment w) in
        elim (pay_with_card-trace s (some message) w) [
          | inl same ↦ inl (kept ∙ same)
          | inr (now, more) ↦ inr (message.invoice_number, now, names, kept ∙ more)
        ]
  ]

  -- However the HTTP handler of a payment ends, and whatever the body of the request holds, it has at
  -- most asked once for one invoice to become paid, and this is the invoice that the path names.
  pub pay_route-trace :
      (w : World E (Event TS))
      → ((((pay_route runtime (pay_server s)).handler req params w).1.trace ≡ w.trace)
          ⊎ ((number : GoString) × (now : Time) × Names runtime params number
              × (((pay_route runtime (pay_server s)).handler req params w).1.trace
                  ≡ w.trace ++ updated_status number status_paid now ∷ [])))
  unfolding pay_route
  pay_route-trace w =
      elim (handle-world runtime pay_procedure pay_path (request_pay runtime (pay_server s)) req
        params w) [
          | inl e ↦ inl (ap (λ v. v.trace) e)
          | inr e ↦ elim (request_pay-Leaves (annotated runtime pay_procedure pay_path req w)) [
            | inl same ↦ inl (ap (λ v. v.trace) e ∙ same)
            | inr (number, now, names, more) ↦ inr (number, now, names, ap (λ v. v.trace) e ∙ more)
          ]
        ]

  forwarded-answered :
      (w w' : World E (Event TS)) (m : Served TS)
      → request_pay runtime (pay_server s) req params w ≡ (ok m, w')
      → (a : Answer TS) × (message : PayWithCardRequest) × Names runtime params
          message.invoice_number
        × (message.card ≡ (runtime.decode_card req).0)
        × (m ≡ payment a)
        × (pay_with_card s (some message) w ≡ (ok a, w'))
  forwarded-answered w w' m h = elim (request_pay-Requested runtime req params (pay_server s) w) [
    | invalid reason e ↦ absurd (cc (h, e))
    | broken e ↦ absurd (cc (h, e))
    | called message names card e ↦
        let (a, v, run, last) =
          bind-eq-ok (pay_with_card s (some message)) (λ a. pure (payment a)) w (sym e ∙ h) in
        let same : ◌≡◌ {A = Outcome Refusal (Served TS) × World E (Event TS)} (ok (payment a), v)
            (ok m, w') =
          last in
        (a, message, names, card, cc same, run ∙ ap (λ p. (ok a, p.1)) same)
  ]

  -- A message that the HTTP handler of a payment forwards is an answer of PayWithCard to the card of
  -- the body, for the invoice that the path names; and PayWithCard has given it in the state in which
  -- the handler has left the world.
  pub pay_route-forwarded :
      (w w' : World E (Event TS)) (m : Served TS)
      → (pay_route runtime (pay_server s)).handler req params w ≡ (ok (forwarded m), w')
      → (a : Answer TS) × (message : PayWithCardRequest) × Names runtime params
          message.invoice_number
        × (message.card ≡ (runtime.decode_card req).0)
        × (m ≡ payment a)
        × (pay_with_card s (some message) (annotated runtime pay_procedure pay_path req w)
            ≡ (ok a, w'))
  unfolding pay_route
  pay_route-forwarded w w' m h =
      forwarded-answered (annotated runtime pay_procedure pay_path req w) w' m (
        handle-forwarded runtime pay_procedure pay_path (request_pay runtime (pay_server s)) req
          params w w' m h)
