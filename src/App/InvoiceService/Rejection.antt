-- ===== src/App/InvoiceService/Rejection.antt =====
-- What happens to a delivery from which no invoice can be made, and that the payment request of an
-- invoice that was made is never held back.
use kenshu_elaris_project_pa.Base.{◌≡◌, refl, ap, ◌⊎◌, inl, false, some, List, [], ◌∷◌, ◌++◌, arith}
use kenshu_elaris_project_pa.Go.Time.{Time}
use kenshu_elaris_project_pa.Go.Call.{
  Outcome, ok, err, panicked, World, Call, Outcome-cases, is_ok, is_err, is_panicked, ◌>>=◌,
}
use kenshu_elaris_project_pa.Errors.{GoError}
use kenshu_elaris_project_pa.Validation.Laws.{NotBlank}
use kenshu_elaris_project_pa.Document.Invoice.{Invoice}
use kenshu_elaris_project_pa.Document.Invoice.Request.{IsWellFormed}
use kenshu_elaris_project_pa.Document.Invoice.Laws.{IsValid, new_invoice_iff}
use kenshu_elaris_project_pa.Port.{Event, nacked}
use kenshu_elaris_project_pa.App.Unmarshal.{Delivery, unmarshal_request}
use kenshu_elaris_project_pa.App.RequestCheck.Laws.{payment_request_validator_passes}
use kenshu_elaris_project_pa.App.InvoiceService.{
  InvoiceService, generate_invoice_doc, nack, or_nack, publish_payment_request, save_and_settle,
  generate_and_settle, process_invoice_delivery,
}
use kenshu_elaris_project_pa.App.InvoiceService.Steps.{
  request_of, generate_invoice_doc-trace, nack-trace,
}
use kenshu_elaris_project_pa.App.InvoiceService.Success.{generate_invoice_doc-ok}
use kenshu_elaris_project_pa.Dto.CreateInvoicePaymentRequest.{CreateInvoicePaymentRequest}

module _ {E TS : Type 0} (s : InvoiceService E TS) where
  -- The payment request of a valid invoice with a number always reaches the broker's producer, if
  -- AsTime gives back the time that New was given: the checks before it never hold it back.
  pub publish_payment_request_valid :
      ((t : Time) → s.timestamps.as_time (some (s.timestamps.new t)) ≡ t)
      → (i : Invoice) (w : World E (Event TS)) → IsValid i
      → NotBlank i.invoice_number
      → (publish_payment_request s i w).1.trace ≡ w.trace ++ request_of s i ∷ []
  unfolding publish_payment_request
  publish_payment_request_valid as_time-new i w v numbered = ground (
    arith,
    payment_request_validator_passes s.timestamps.as_time s.timestamps.new as_time-new i
        s.payment_host v numbered,
  )

module _ {E TS : Type 0} (s : InvoiceService E TS) (d : Delivery) where
  -- A run that has refused the delivery for good and done nothing else, or has panicked before it
  -- did anything.
  abbrev pub IsDropped :
      {A : Type 0} → List (Event TS) → Outcome GoError A × World E (Event TS) → Type 0
  IsDropped before (ok a, w) = ⊥
  IsDropped before (err e, w) = w.trace ≡ before ++ nacked d.delivery_tag false false ∷ []
  IsDropped before (panicked, w) =
      (w.trace ≡ before) ⊎ (w.trace ≡ before ++ nacked d.delivery_tag false false ∷ [])

  -- A step that ended in `p` without a value.
  IsDropped-step :
      {A B : Type 0} (before : List (Event TS)) (p : Outcome GoError A × World E (Event TS))
      (k : A → Call E (Event TS) GoError B) (w : World E (Event TS))
      → p.1.trace ≡ before
      → ((a : A) → ¬ (p.0 ≡ ok a))
      → IsDropped before ((or_nack s d (λ e. false) (λ v. p) >>= k) w)
  unfolding or_nack nack
  IsDropped-step before (ok a, w₁) k w quiet none_made = absurd (none_made a refl)
  IsDropped-step before (panicked, w₁) k w quiet none_made = inl quiet
  IsDropped-step before (err x, w₁) k w quiet none_made =
      ground (arith, nack-trace s d false false w₁)

  generate_and_settle-IsDropped :
      (req : CreateInvoicePaymentRequest TS) (w : World E (Event TS))
      → ¬ IsWellFormed s.timestamps.as_time (some req)
      → IsDropped w.trace (generate_and_settle s d req w)
  unfolding generate_and_settle or_nack
  generate_and_settle-IsDropped req w malformed =
      IsDropped-step w.trace (generate_invoice_doc s req w) (save_and_settle s d) w
        (generate_invoice_doc-trace s req w)
        (λ i made.
          let (number, now, e) =
            generate_invoice_doc-ok s d req w
              (ap (λ o. (o, (generate_invoice_doc s req w).1)) made) in
          malformed ((new_invoice_iff s.timestamps.as_time (some req) number now i).0 e).1)

  -- A delivery whose body does not decode is refused without being queued again, and so is one
  -- whose request fails a check of the invoice; nothing is stored, published or acknowledged. A run
  -- that panics has done no more than that refusal.
  pub process_invoice_delivery-IsDropped :
      (w : World E (Event TS))
      → ((req : CreateInvoicePaymentRequest TS)
          → unmarshal_request s.codec d ≡ ok req
          → ¬ IsWellFormed s.timestamps.as_time (some req))
      → IsDropped w.trace (process_invoice_delivery s d w)
  unfolding process_invoice_delivery or_nack
  process_invoice_delivery-IsDropped w malformed =
      elim (Outcome-cases (unmarshal_request s.codec d)) [
        | is_err x e ↦
            IsDropped-step w.trace (unmarshal_request s.codec d, w) (generate_and_settle s d) w refl
              (λ req e'. cc (e, e'))
        | is_panicked e ↦
            IsDropped-step w.trace (unmarshal_request s.codec d, w) (generate_and_settle s d) w refl
              (λ req e'. cc (e, e'))
        | is_ok req e ↦
            rw (e, process_invoice_delivery) (generate_and_settle-IsDropped req w (malformed req e))
      ]
