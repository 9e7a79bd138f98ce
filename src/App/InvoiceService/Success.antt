-- ===== src/App/InvoiceService/Success.antt =====
-- What has happened when a delivery is acknowledged.
use mathlib.Core.List.{append_assoc}
use kenshu_elaris_project_pa.Base.{
  ◌≡◌, ap, subst, ◌∙◌, Bool, false, not, some, List, [], ◌∷◌, ◌++◌, arith,
}
use kenshu_elaris_project_pa.Go.Text.{GoString, lit}
use kenshu_elaris_project_pa.Go.Time.{Time}
use kenshu_elaris_project_pa.Go.Call.{
  ok, World, Call, of_outcome, bind-eq-ok, Outcome-cases, is_ok, is_err, is_panicked,
}
use kenshu_elaris_project_pa.Errors.{GoError, error_as, to_app_already_exists, to_constrain}
use kenshu_elaris_project_pa.Document.Invoice.{ObjectId, Invoice, new_invoice_from_proto_message}
use kenshu_elaris_project_pa.Document.Invoice.Request.{IsWellFormed}
use kenshu_elaris_project_pa.Document.Invoice.Laws.{
  IsInvoiceOf, new_invoice_iff, invoice_of_request-IsInvoiceOf,
}
use kenshu_elaris_project_pa.Port.{Event, added_invoice, acked, payment_request}
use kenshu_elaris_project_pa.App.Mapper.{build_payment_request}
use kenshu_elaris_project_pa.App.Util.{generate_human_friendly_id}
use kenshu_elaris_project_pa.App.Unmarshal.{Delivery, unmarshal_request}
use kenshu_elaris_project_pa.App.InvoiceService.{
  InvoiceService, guest_key, nack, or_nack, generate_invoice_doc, save_invoice,
  publish_payment_request, acknowledge, publish_and_settle, save_and_settle, generate_and_settle,
  process_invoice_delivery,
}
use kenshu_elaris_project_pa.App.InvoiceService.Steps.{
  request_of, generate_invoice_doc-trace, save_invoice-trace, publish_payment_request-ok,
  publish_payment_request_sent, save_invoice-ok,
}
use kenshu_elaris_project_pa.Dto.CreateInvoicePaymentRequest.{CreateInvoicePaymentRequest}

module _ {E TS : Type 0} (s : InvoiceService E TS) (d : Delivery) where
  -- A step that returned a value under the error handler returned it by itself.
  or_nack-eq-ok :
      {A : Type 0} (requeue : GoError → Bool) (m : Call E (Event TS) GoError A)
      (w : World E (Event TS)) {a : A} {w' : World E (Event TS)}
      → or_nack s d requeue m w ≡ (ok a, w')
      → m w ≡ (ok a, w')
  unfolding or_nack nack
  or_nack-eq-ok requeue m w h = ground arith

  -- The document of a run that made one.
  pub generate_invoice_doc-ok :
      (req : CreateInvoicePaymentRequest TS) (w : World E (Event TS)) {i : Invoice}
      {w' : World E (Event TS)}
      → generate_invoice_doc s req w ≡ (ok i, w')
      → (number : GoString) × (now : Time) × (new_invoice_from_proto_message s.timestamps.as_time
            (some req)
            number
            now
          ≡ ok i)
  unfolding generate_invoice_doc
  generate_invoice_doc-ok req w h = elim (Outcome-cases (s.clock.now w.env).0) [
    | is_ok now e ↦
        let made =
          generate_human_friendly_id s.entropy (lit "INV") now
            (record w { env = (s.clock.now w.env).1 }) in
        elim (Outcome-cases made.0) [
          | is_ok number e' ↦ (number, now, ground arith)
          | is_err x e' ↦ absurd (ground arith)
          | is_panicked e' ↦ absurd (ground arith)
        ]
    | is_err x e ↦ absurd (ground arith)
    | is_panicked e ↦ absurd (ground arith)
  ]

  acknowledge-ok :
      (w w' : World E (Event TS))
      → acknowledge s d w ≡ (ok tt, w')
      → (w'.trace ≡ w.trace ++ acked d.delivery_tag false ∷ [])
        × (s.acknowledger.ack d.delivery_tag false w.env ≡ (ok tt, w'.env))
  unfolding acknowledge
  acknowledge-ok w w' h =
      let (o, e) = s.acknowledger.ack d.delivery_tag false w.env in
      elim (Outcome-cases o) [
        | is_ok u taken ↦ (ground arith, ground arith)
        | is_err x lost ↦ absurd (ground arith)
        | is_panicked lost ↦ absurd (ground arith)
      ]

  -- The calls that settle a delivery have all succeeded, from the state `env` to the state `env'`.
  pub record IsSettledWith (i : Invoice) (env env' : E) : Type 0 where
    pub id : ObjectId
    pub env₁ : E
    pub env₂ : E
    pub stored : s.invoice_repo.add i env ≡ (ok id, env₁)
    pub sent :
        s.payment_producer.publish
          (payment_request (build_payment_request s.timestamps.new i s.payment_host))
          (guest_key s i.payer_id)
          env₁
        ≡ (ok tt, env₂)
    pub acknowledged : s.acknowledger.ack d.delivery_tag false env₂ ≡ (ok tt, env')

  publish_and_settle-ok :
      (i : Invoice) (w w' : World E (Event TS))
      → publish_and_settle s d i w ≡ (ok tt, w')
      → (w'.trace ≡ w.trace ++ request_of s i ∷ acked d.delivery_tag false ∷ [])
        × ((e : E) × (s.payment_producer.publish
                (payment_request (build_payment_request s.timestamps.new i s.payment_host))
                (guest_key s i.payer_id)
                w.env
              ≡ (ok tt, e))
            × (s.acknowledger.ack d.delivery_tag false e ≡ (ok tt, w'.env)))
  unfolding publish_and_settle
  publish_and_settle-ok i w w' h =
      let m = or_nack s d (λ e. not (error_as to_constrain e)) (publish_payment_request s i) in
      let (u, w₁, e, h₁) = bind-eq-ok m (λ u. acknowledge s d) w h in
      let e₁ = or_nack-eq-ok _ (publish_payment_request s i) w e in
      let (last, taken) = acknowledge-ok w₁ w' h₁ in
      (
        last
            ∙ ap (λ t. t ++ acked d.delivery_tag false ∷ [])
                (publish_payment_request-ok s i w w₁ e₁)
            ∙ append_assoc w.trace _ _,
        (w₁.env, publish_payment_request_sent s i w w₁ e₁, taken),
      )

  save_and_settle-ok :
      (i : Invoice) (w w' : World E (Event TS))
      → save_and_settle s d i w ≡ (ok tt, w')
      → (w'.trace ≡ w.trace ++ added_invoice i ∷ request_of s i ∷ acked d.delivery_tag false ∷ [])
        × IsSettledWith i w.env w'.env
  unfolding save_and_settle
  save_and_settle-ok i w w' h =
      let m = or_nack s d (λ e. not (error_as to_app_already_exists e)) (save_invoice s i) in
      let (id, w₁, e, h₁) = bind-eq-ok m (λ id. publish_and_settle s d i) w h in
      let e₁ = or_nack-eq-ok _ (save_invoice s i) w e in
      let stored : w₁.trace ≡ w.trace ++ added_invoice i ∷ [] = cc (e₁, save_invoice-trace s i w) in
      let (more, (env₂, sent, taken)) = publish_and_settle-ok i w₁ w' h₁ in
      (
        more
            ∙ ap (λ t. t ++ request_of s i ∷ acked d.delivery_tag false ∷ []) stored
            ∙ append_assoc w.trace _ _,
        record {
          id = id;
          env₁ = w₁.env;
          env₂ = env₂;
          stored = save_invoice-ok s i id w w₁ e₁;
          sent = sent;
          acknowledged = taken;
        },
      )

  -- What an acknowledged delivery has led to.
  pub record IsProcessed (before : List (Event TS)) (after : World E (Event TS)) : Type 0 where
    pub request : CreateInvoicePaymentRequest TS
    pub decoded : unmarshal_request s.codec d ≡ ok request
    pub well_formed : IsWellFormed s.timestamps.as_time (some request)
    pub number : GoString
    pub now : Time
    pub invoice : Invoice
    pub contents : IsInvoiceOf s.timestamps.as_time (some request) number now invoice
    pub env : E
    pub settled : IsSettledWith invoice env after.env
    pub trace :
        after.trace
        ≡ before ++ added_invoice invoice ∷ request_of s invoice ∷ acked d.delivery_tag false ∷ []

  generate_and_settle-ok :
      (req : CreateInvoicePaymentRequest TS) (w w' : World E (Event TS))
      → unmarshal_request s.codec d ≡ ok req
      → generate_and_settle s d req w ≡ (ok tt, w')
      → IsProcessed w.trace w'
  unfolding generate_and_settle
  generate_and_settle-ok req w w' decoded h =
      let m = or_nack s d (λ e. false) (generate_invoice_doc s req) in
      let (invoice, w₁, e, h₁) = bind-eq-ok m (save_and_settle s d) w h in
      let e₁ = or_nack-eq-ok _ (generate_invoice_doc s req) w e in
      let (number, now, made) = generate_invoice_doc-ok req w e₁ in
      let (more, settled) = save_and_settle-ok invoice w₁ w' h₁ in
      let checked = (new_invoice_iff s.timestamps.as_time (some req) number now invoice).0 made in
      record {
        request = req;
        decoded = decoded;
        well_formed = checked.1;
        number = number;
        now = now;
        invoice = invoice;
        contents =
            subst (IsInvoiceOf s.timestamps.as_time (some req) number now) checked.2
              (invoice_of_request-IsInvoiceOf s.timestamps.as_time (some req) number now);
        env = w₁.env;
        settled = settled;
        trace = more ∙ cc (e₁, generate_invoice_doc-trace s req w);
      }

  -- A delivery is processed with no error only if the repository has taken its invoice, then the
  -- producer the payment request for that invoice, to the guest, and then the broker the
  -- acknowledgement, in this order and with no other effect; the invoice has each field from the
  -- request that the delivery's body decodes to, which passes all checks.
  pub process_invoice_delivery-ok :
      (w w' : World E (Event TS))
      → process_invoice_delivery s d w ≡ (ok tt, w')
      → IsProcessed w.trace w'
  unfolding process_invoice_delivery
  process_invoice_delivery-ok w w' h =
      let m = or_nack s d (λ e. false) (of_outcome (unmarshal_request s.codec d)) in
      let (req, w₁, e, h₁) = bind-eq-ok m (generate_and_settle s d) w h in
      let e₁ = or_nack-eq-ok _ (of_outcome (unmarshal_request s.codec d)) w e in
      let done = generate_and_settle-ok req w₁ w' (ap (λ p. p.0) e₁) h₁ in
      rw (ap (λ p. p.1) e₁) done
