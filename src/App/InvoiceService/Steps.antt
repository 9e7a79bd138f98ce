-- ===== src/App/InvoiceService/Steps.antt =====
-- What each step of processing a delivery leaves in the trace.
use kenshu_elaris_project_pa.Base.{◌≡◌, ◌⊎◌, Bool, [], ◌∷◌, ◌++◌, arith}
use kenshu_elaris_project_pa.Go.Call.{ok, World, Outcome-cases, is_ok, is_err, is_panicked}
use kenshu_elaris_project_pa.Document.Invoice.{ObjectId, Invoice}
use kenshu_elaris_project_pa.Port.{Event, added_invoice, published, nacked, payment_request}
use kenshu_elaris_project_pa.App.Util.{generate_human_friendly_id-trace}
use kenshu_elaris_project_pa.App.Mapper.{build_payment_request}
use kenshu_elaris_project_pa.App.Unmarshal.{Delivery}
use kenshu_elaris_project_pa.App.InvoiceService.{
  InvoiceService, generate_invoice_doc, save_invoice, guest_key, publish_payment_request, nack,
}
use kenshu_elaris_project_pa.Dto.CreateInvoicePaymentRequest.{CreateInvoicePaymentRequest}

module _ {E TS : Type 0} (s : InvoiceService E TS) where
  abbrev pub request_of : Invoice → Event TS
  request_of i =
      published (payment_request (build_payment_request s.timestamps.new i s.payment_host))
        (guest_key s i.payer_id)

  pub generate_invoice_doc-trace :
      (req : CreateInvoicePaymentRequest TS) (w : World E (Event TS))
      → (generate_invoice_doc s req w).1.trace ≡ w.trace
  unfolding generate_invoice_doc
  generate_invoice_doc-trace req w = grind (arith, generate_human_friendly_id-trace)

  pub save_invoice-trace :
      (i : Invoice) (w : World E (Event TS))
      → (save_invoice s i w).1.trace ≡ w.trace ++ added_invoice i ∷ []
  unfolding save_invoice
  save_invoice-trace i w = ground arith

  pub publish_payment_request-trace :
      (i : Invoice) (w : World E (Event TS))
      → ((publish_payment_request s i w).1.trace ≡ w.trace)
        ⊎ ((publish_payment_request s i w).1.trace ≡ w.trace ++ request_of i ∷ [])
  unfolding publish_payment_request
  publish_payment_request-trace i w = ground arith

  -- A request that was published was checked before.
  pub publish_payment_request-ok :
      (i : Invoice) (w w' : World E (Event TS))
      → publish_payment_request s i w ≡ (ok tt, w')
      → w'.trace ≡ w.trace ++ request_of i ∷ []
  unfolding publish_payment_request
  publish_payment_request-ok i w w' h = ground arith

  -- The producer has taken it.
  pub publish_payment_request_sent :
      (i : Invoice) (w w' : World E (Event TS))
      → publish_payment_request s i w ≡ (ok tt, w')
      → s.payment_producer.publish
          (payment_request (build_payment_request s.timestamps.new i s.payment_host))
          (guest_key s i.payer_id)
          w.env
        ≡ (ok tt, w'.env)
  unfolding publish_payment_request
  publish_payment_request_sent i w w' h =
      let message = payment_request (build_payment_request s.timestamps.new i s.payment_host) in
      let (o, e) = s.payment_producer.publish message (guest_key s i.payer_id) w.env in
      elim (Outcome-cases o) [
        | is_ok u sent ↦ ground arith
        | is_err x unsent ↦ absurd (ground arith)
        | is_panicked unsent ↦ absurd (ground arith)
      ]

  -- A run of the storing that ends with no error has stored the invoice.
  pub save_invoice-ok :
      (i : Invoice) (id : ObjectId) (w w' : World E (Event TS))
      → save_invoice s i w ≡ (ok id, w')
      → s.invoice_repo.add i w.env ≡ (ok id, w'.env)
  unfolding save_invoice
  save_invoice-ok i id w w' h =
      let (o, e) = s.invoice_repo.add i w.env in
      elim (Outcome-cases o) [
        | is_ok id' added ↦ ground arith
        | is_err x lost ↦ absurd (ground arith)
        | is_panicked lost ↦ absurd (ground arith)
      ]

  pub nack-trace :
      (d : Delivery) (multiple requeue : Bool) (w : World E (Event TS))
      → (nack s d multiple requeue w).1.trace
        ≡ w.trace ++ nacked d.delivery_tag multiple requeue ∷ []
  unfolding nack
  nack-trace d multiple requeue w = ground arith
