-- ===== src/App/InvoiceService/Settlement.antt =====
-- Every delivery is settled once: acknowledged or refused.
use kenshu_elaris_project_pa.Base.{
  ◌≡◌, refl, ap, ◌∙◌, ◌⊎◌, inr, Bool, false, not, List, [], ◌∷◌, ◌++◌, arith,
}
use mathlib.Core.List.{append-nil}
use kenshu_elaris_project_pa.Go.Call.{Outcome, ok, err, panicked, World, Call, throw, ◌>>=◌, ◌>>◌}
use kenshu_elaris_project_pa.Errors.{GoError, error_as, to_app_already_exists, to_constrain}
use kenshu_elaris_project_pa.Dto.CreateInvoicePaymentRequest.{CreateInvoicePaymentRequest}
use kenshu_elaris_project_pa.Document.Invoice.{Invoice}
use kenshu_elaris_project_pa.Port.{
  Event, added_invoice, updated_status, added_receipt, published, acked, nacked,
}
use kenshu_elaris_project_pa.App.Unmarshal.{Delivery, unmarshal_request}
use kenshu_elaris_project_pa.App.InvoiceService.{
  InvoiceService, nack, generate_invoice_doc, save_invoice, publish_payment_request, or_nack,
  acknowledge, publish_and_settle, save_and_settle, generate_and_settle, process_invoice_delivery,
}
use kenshu_elaris_project_pa.App.InvoiceService.Steps.{
  request_of, generate_invoice_doc-trace, save_invoice-trace, publish_payment_request-trace,
  nack-trace,
}

-- The answers to the broker among the events.
abbrev pub settlements : {TS : Type 0} → List (Event TS) → List (Event TS)
settlements [] = []
settlements (acked tag multiple ∷ t) = acked tag multiple ∷ settlements t
settlements (nacked tag multiple requeue ∷ t) = nacked tag multiple requeue ∷ settlements t
settlements (added_invoice i ∷ t) = settlements t
settlements (updated_status n st at ∷ t) = settlements t
settlements (added_receipt r ∷ t) = settlements t
settlements (published m k ∷ t) = settlements t

module _ {TS : Type 0} where
  settlements-append :
      (a b : List (Event TS)) → settlements (a ++ b) ≡ settlements a ++ settlements b
  settlements-append [] b = refl
  settlements-append (added_invoice i ∷ a) b = settlements-append a b
  settlements-append (e ∷ a) b = ground (arith, settlements-append a b)

module _ {E TS : Type 0} (s : InvoiceService E TS) (d : Delivery) where
  -- How a run that began at a world with the answers `before` has answered the delivery: by an
  -- acknowledgement, or by a refusal where it returns an error. A panic leaves the run undecided.
  abbrev pub Settled :
      {A : Type 0} → List (Event TS) → Outcome GoError A × World E (Event TS) → Type 0
  Settled before (ok a, w) = settlements w.trace ≡ before ++ acked d.delivery_tag false ∷ []
  Settled before (err e, w) =
      (settlements w.trace ≡ before ++ acked d.delivery_tag false ∷ [])
      ⊎ ((requeue : Bool) × (settlements w.trace
            ≡ before ++ nacked d.delivery_tag false requeue ∷ []))
  Settled before (panicked, w) = Unit

  -- A refusal that ended in `p`, after which the error is returned.
  Settled-refusal :
      {A B : Type 0} (before : List (Event TS)) (requeue : Bool) (e : GoError)
      (p : Outcome GoError (Unit {0}) × World E (Event TS)) (k : A → Call E (Event TS) GoError B)
      (w : World E (Event TS))
      → settlements p.1.trace ≡ before ++ nacked d.delivery_tag false requeue ∷ []
      → Settled before ((((λ v. p) >> throw e) >>= k) w)
  Settled-refusal before requeue e (ok u, w₁) k w h = inr (requeue, h)
  Settled-refusal before requeue e (err y, w₁) k w h = inr (requeue, h)
  Settled-refusal before requeue e (panicked, w₁) k w h = tt

  -- A step that ended in `p` and answered nothing, followed by a continuation that settles.
  Settled-step :
      {A B : Type 0} (before : List (Event TS)) (requeue : GoError → Bool)
      (p : Outcome GoError A × World E (Event TS)) (k : A → Call E (Event TS) GoError B)
      (w : World E (Event TS))
      → settlements p.1.trace ≡ before
      → ((a : A) → p.0 ≡ ok a → Settled before (k a p.1))
      → Settled before ((or_nack s d requeue (λ v. p) >>= k) w)
  unfolding or_nack
  Settled-step before requeue (ok a, w₁) k w quiet rest = rest a refl
  Settled-step before requeue (panicked, w₁) k w quiet rest = tt
  Settled-step before requeue (err x, w₁) k w quiet rest =
      Settled-refusal before (requeue x) x (nack s d false (requeue x) w₁) k w₁ (
        ap settlements (nack-trace s d false (requeue x) w₁)
        ∙ settlements-append w₁.trace _
        ∙ ap (λ t. t ++ nacked d.delivery_tag false (requeue x) ∷ []) quiet)

  -- The steps that answer nothing.
  module _ {before : List (Event TS)} (invoice : Invoice) (w : World E (Event TS))
      (quiet : settlements w.trace ≡ before) where
    quiet_save : settlements (save_invoice s invoice w).1.trace ≡ before
    quiet_save = ground (
      arith,
      save_invoice-trace s invoice w,
      settlements-append w.trace (added_invoice invoice ∷ []),
      append-nil (settlements w.trace),
    )

    quiet_publish : settlements (publish_payment_request s invoice w).1.trace ≡ before
    quiet_publish = ground (
      arith,
      publish_payment_request-trace s invoice w,
      settlements-append w.trace (request_of s invoice ∷ []),
      append-nil (settlements w.trace),
    )

  acknowledge-Settled :
      {before : List (Event TS)} (w : World E (Event TS))
      → settlements w.trace ≡ before
      → Settled before (acknowledge s d w)
  unfolding acknowledge
  acknowledge-Settled w quiet =
      ground (arith, settlements-append w.trace (acked d.delivery_tag false ∷ []))

  module _ {before : List (Event TS)} (invoice : Invoice) (w : World E (Event TS))
      (quiet : settlements w.trace ≡ before) where
    publish_and_settle-Settled : Settled before (publish_and_settle s d invoice w)
    unfolding publish_and_settle or_nack
    publish_and_settle-Settled =
        Settled-step before (λ e. not (error_as to_constrain e))
          (publish_payment_request s invoice w) (λ u. acknowledge s d) w
          (quiet_publish invoice w quiet)
          (λ u e. acknowledge-Settled _ (quiet_publish invoice w quiet))

  module _ {before : List (Event TS)} (invoice : Invoice) (w : World E (Event TS))
      (quiet : settlements w.trace ≡ before) where
    save_and_settle-Settled : Settled before (save_and_settle s d invoice w)
    unfolding save_and_settle or_nack
    save_and_settle-Settled =
        Settled-step before (λ e. not (error_as to_app_already_exists e)) (save_invoice s invoice w)
          (λ u. publish_and_settle s d invoice) w (quiet_save invoice w quiet)
          (λ u e. publish_and_settle-Settled invoice _ (quiet_save invoice w quiet))

  generate_and_settle-Settled :
      (req : CreateInvoicePaymentRequest TS) (w : World E (Event TS))
      → Settled (settlements w.trace) (generate_and_settle s d req w)
  unfolding generate_and_settle or_nack
  generate_and_settle-Settled req w =
      let quiet = ap settlements (generate_invoice_doc-trace s req w) in
      Settled-step (settlements w.trace) (λ e. false) (generate_invoice_doc s req w)
        (save_and_settle s d) w quiet (λ invoice e. save_and_settle-Settled invoice _ quiet)

  -- Whatever a delivery holds and whatever the calls outside return: a run that returns nil has
  -- asked once to acknowledge the delivery and never to refuse it; a run that returns an error has
  -- either asked once to refuse it, or asked once to acknowledge it. Of a run that panics nothing
  -- is said.
  pub process_invoice_delivery-Settled :
      (w : World E (Event TS)) → Settled (settlements w.trace) (process_invoice_delivery s d w)
  unfolding process_invoice_delivery or_nack
  process_invoice_delivery-Settled w =
      Settled-step (settlements w.trace) (λ e. false) (unmarshal_request s.codec d, w)
        (generate_and_settle s d) w refl (λ req e. generate_and_settle-Settled req w)
