-- ===== src/App/PaymentMaking/Overlap.antt =====
-- internal/app/payment_making_service.go: two payments of one invoice at the same time. The look-up
-- and the update are two calls, and the calls of the other payment may come between them.
use kenshu_elaris_project_pa.Base.{◌≡◌, refl, false, Option, some, [], ◌∷◌, ◌++◌, arith}
use kenshu_elaris_project_pa.Base.Int.{pos, ltb_ℤ}
use kenshu_elaris_project_pa.Go.Text.{equal_fold}
use kenshu_elaris_project_pa.Go.Time.{Time}
use kenshu_elaris_project_pa.Go.Call.{ok, World, Call, ◌>>=◌, pure, query, map_err}
use kenshu_elaris_project_pa.Document.Invoice.{Invoice, status_paid}
use kenshu_elaris_project_pa.Port.{Event}
use kenshu_elaris_project_pa.App.Grpc.{Refusal, refused, map_error}
use kenshu_elaris_project_pa.App.PaymentMaking.{
  PaymentMakingService, Answer, build_response, pay_drawn, pay_found,
}
use kenshu_elaris_project_pa.App.PaymentMaking.Payment.{number_of, paid_at}
use kenshu_elaris_project_pa.Dto.Enums.{status_succeeded}
use kenshu_elaris_project_pa.Dto.PayWithCardRequest.{PayWithCardRequest}
use kenshu_elaris_project_pa.Dto.PayWithCardResponse.{PayWithCardResponse}

module _ {E TS : Type 0} (s : PaymentMakingService E TS) where
  -- Nothing but the test for a paid invoice stands in the way of a payment: the draw does not fail
  -- it, the update finds the invoice, and a response can be built.
  pub record IsSmooth (req : Option PayWithCardRequest) (now : Time) : Type 0 where
    pub drawn : (env : E) → ltb_ℤ (pos (s.entropy.rand_int env).0) s.fail_chance ≡ false
    pub updated :
        (env : E)
        → (env' : E) × (s.invoice_repo.update_status (number_of s req) status_paid now env
            ≡ (ok tt, env'))
    pub built :
        (w : World E (Event TS))
        → (resp : PayWithCardResponse TS) × (env : E) × (build_response s req status_succeeded now w
            ≡ (ok resp, record w { env = env }))

  pay_drawn_smooth :
      (req : Option PayWithCardRequest) (now : Time) (w : World E (Event TS)) (e : E)
      → IsSmooth req now
      → (a : Answer TS) × (env : E) × (pay_drawn s req now (s.entropy.rand_int e).0 w
          ≡ (ok a, record { env = env; trace = w.trace ++ paid_at s req now ∷ [] }))
        × (a.post_payment ≡ some (now, a.response))
  unfolding pay_drawn
  pay_drawn_smooth req now w e smooth =
      let (e₁, updated) = smooth.updated w.env in
      let w₁ : World E (Event TS) = record {
        env = e₁;
        trace = w.trace ++ paid_at s req now ∷ [];
      } in
      let (resp, e₂, built) = smooth.built w₁ in
      (
        record { response = resp; post_payment = some (now, resp) },
        e₂,
        ground (arith, smooth.drawn e, updated, built),
        refl,
      )

  pay_found_smooth :
      (req : Option PayWithCardRequest) (now : Time) (invoice : Invoice) (w : World E (Event TS))
      → IsSmooth req now
      → equal_fold invoice.status status_paid ≡ false
      → (a : Answer TS) × (env : E) × (pay_found s req now invoice w
          ≡ (ok a, record { env = env; trace = w.trace ++ paid_at s req now ∷ [] }))
        × (a.post_payment ≡ some (now, a.response))
  unfolding pay_found
  pay_found_smooth req now invoice w smooth unpaid =
      let (a, env, paid, started) =
        pay_drawn_smooth req now (record w { env = (s.entropy.rand_int w.env).1 }) w.env smooth in
      (a, env, ground (arith, unpaid, paid), started)

  -- Two payments that have both passed their checks, where both look the invoice up before either
  -- updates it.
  abbrev pub looked_up : Option PayWithCardRequest → Call E (Event TS) Refusal Invoice
  looked_up req =
      map_err (λ e. refused (map_error e))
        (query (s.invoice_repo.find_by_invoice_number (number_of s req)))

  abbrev pub overlapping :
      Option PayWithCardRequest
      → Option PayWithCardRequest
      → Time
      → Call E (Event TS) Refusal (Answer TS × Answer TS)
  overlapping first second now = do
    i ← looked_up first
    j ← looked_up second
    a ← pay_found s first now i
    b ← pay_found s second now j
    pure (a, b)

  -- If both payments look the invoice up before either updates it, both find it unpaid, and nothing
  -- else stands in their way, then both succeed: the invoice is updated twice, and the work after a
  -- payment, which stores a receipt and publishes a confirmation, is started twice.
  pub pay_found_overlapping :
      (first second : Option PayWithCardRequest) (now : Time) (i j : Invoice)
      (w : World E (Event TS)) (e₁ e₂ : E)
      → s.invoice_repo.find_by_invoice_number (number_of s first) w.env ≡ (ok i, e₁)
      → s.invoice_repo.find_by_invoice_number (number_of s second) e₁ ≡ (ok j, e₂)
      → equal_fold i.status status_paid ≡ false
      → equal_fold j.status status_paid ≡ false
      → IsSmooth first now
      → IsSmooth second now
      → (a b : Answer TS) × (env : E) × (overlapping first second now w ≡ (
        ok (a, b),
        record {
          env = env;
          trace = (w.trace ++ paid_at s first now ∷ []) ++ paid_at s second now ∷ [];
        },
      ))
        × (a.post_payment ≡ some (now, a.response))
        × (b.post_payment ≡ some (now, b.response))
  pay_found_overlapping first second now i j w e₁ e₂ f₁ f₂ u₁ u₂ smooth₁ smooth₂ =
      let (a, e₃, paid₁, started₁) =
        pay_found_smooth first now i (record w { env = e₂ }) smooth₁ u₁ in
      let w₃ : World E (Event TS) = record {
        env = e₃;
        trace = w.trace ++ paid_at s first now ∷ [];
      } in
      let (b, e₄, paid₂, started₂) = pay_found_smooth second now j w₃ smooth₂ u₂ in
      (a, b, e₄, ground (arith, f₁, f₂, paid₁, paid₂), started₁, started₂)
