-- ===== src/App/InvoiceService/Liveness.antt =====
-- The handling of a delivery on packages and ports that do their work: every request that can become
-- an invoice does.
use kenshu_elaris_project_pa.Base.{
  ℕ, ◌<◌, ◌≤◌, ◌≡◌, refl, ap, false, some, [], ◌∷◌, ◌++◌, length, arith,
}
use kenshu_elaris_project_pa.Go.Text.{GoString, lit, remove_byte}
use kenshu_elaris_project_pa.Go.Text.Laws.{has_solid, not_blank_of_has_solid}
use kenshu_elaris_project_pa.Go.Time.{Time, format_date}
use kenshu_elaris_project_pa.Go.Call.{ok, World}
use kenshu_elaris_project_pa.Validation.{is_zero, instant}
use kenshu_elaris_project_pa.Db.InvoiceRepo.Laws.{IsStorable, IsStorable-of_IsValid}
use kenshu_elaris_project_pa.Validation.Laws.{NotBlank}
use kenshu_elaris_project_pa.Document.Invoice.{
  ObjectId, Invoice, invoice_of_request, new_invoice_from_proto_message,
}
use kenshu_elaris_project_pa.Document.Invoice.Request.{IsWellFormed}
use kenshu_elaris_project_pa.Document.Invoice.Laws.{
  IsValid, new_invoice_iff, invoice_of_request-IsValid,
}
use kenshu_elaris_project_pa.Port.{Message, Event, added_invoice, payment_request}
use kenshu_elaris_project_pa.App.Mapper.{build_payment_request}
use kenshu_elaris_project_pa.App.Util.{invoice_number_suffix_length}
use kenshu_elaris_project_pa.App.Util.Laws.{generate_human_friendly_id-ok}
use kenshu_elaris_project_pa.App.Unmarshal.{Delivery, unmarshal_request}
use kenshu_elaris_project_pa.App.RequestCheck.Laws.{payment_request_validator_passes}
use kenshu_elaris_project_pa.App.InvoiceService.{
  InvoiceService, guest_key, generate_invoice_doc, save_invoice, publish_payment_request, or_nack,
  acknowledge, publish_and_settle, save_and_settle, generate_and_settle, process_invoice_delivery,
}
use kenshu_elaris_project_pa.App.InvoiceService.Success.{IsProcessed, process_invoice_delivery-ok}
use kenshu_elaris_project_pa.Dto.CreateInvoicePaymentRequest.{CreateInvoicePaymentRequest}

module _ {E TS : Type 0} (s : InvoiceService E TS) where
  -- The clock, the random sources and the timestamps give values, the repository takes every invoice
  -- that passes its checks, the producer takes every message, and an acknowledgement is taken.
  pub record IsServed : Type 0 where
    pub timed : (env : E) → (now : Time) × (env' : E) × (s.clock.now env ≡ (ok now, env'))
    pub drawn :
        (env : E)
        → (id : GoString) × (env' : E) × (s.entropy.new_random env ≡ (ok id, env'))
          × (0 < length (remove_byte b'-' id))
    pub filled :
        (env : E)
        → (random : GoString) × (env' : E) × (s.entropy.read invoice_number_suffix_length env
            ≡ (ok random, env'))
          × (invoice_number_suffix_length ≤ length random)
    pub added :
        (i : Invoice) (env : E)
        → IsStorable i
        → (id : ObjectId) × (env' : E) × (s.invoice_repo.add i env ≡ (ok id, env'))
    pub published :
        (m : Message TS) (key : GoString) (env : E)
        → (env' : E) × (s.payment_producer.publish m key env ≡ (ok tt, env'))
    pub acked :
        (tag : ℕ) (env : E) → (env' : E) × (s.acknowledger.ack tag false env ≡ (ok tt, env'))
    pub same_time : (t : Time) → s.timestamps.as_time (some (s.timestamps.new t)) ≡ t

  -- The request names times that are not the zero time.
  pub record IsTimed (req : CreateInvoicePaymentRequest TS) : Type 0 where
    pub issued : is_zero (instant (s.timestamps.as_time req.issued_at)) ≡ false
    pub due : is_zero (instant (s.timestamps.as_time req.due_at)) ≡ false

  -- An invoice that is made of such a request.
  abbrev IsNumbered : Invoice → Type 0
  IsNumbered i = IsValid i × NotBlank i.invoice_number × IsStorable i

  number_not_blank : (t : GoString) → NotBlank (lit "INV" ++ t)
  unfolding has_solid lit
  number_not_blank t = not_blank_of_has_solid (lit "INV" ++ t) refl

  module _ (served : IsServed) where
    generate_invoice_doc_served :
        (req : CreateInvoicePaymentRequest TS) (w : World E (Event TS))
        → IsWellFormed s.timestamps.as_time (some req)
        → IsTimed req
        → (i : Invoice) × ((generate_invoice_doc s req w).0 ≡ ok i) × IsNumbered i
    unfolding generate_invoice_doc invoice_of_request
    generate_invoice_doc_served req w well_formed timed =
        let as_time = s.timestamps.as_time in
        let (now, e₁, clocked) = served.timed w.env in
        let (id, e₂, drawn, some_left) = served.drawn e₁ in
        let (random, e₃, filled, enough) = served.filled e₂ in
        let w₁ : World E (Event TS) = record w { env = e₁ } in
        let (suffix, made, _, _) =
          generate_human_friendly_id-ok s.entropy (lit "INV") now w₁ drawn filled some_left
            enough in
        let number : GoString =
          lit "INV" ++ (lit "-" ++ (format_date now ++ (lit "-" ++ suffix))) in
        let i : Invoice = invoice_of_request as_time (some req) number now in
        let built : new_invoice_from_proto_message as_time (some req) number now ≡ ok i =
          (new_invoice_iff as_time (some req) number now i).1 (tt, well_formed, refl) in
        let valid = invoice_of_request-IsValid as_time (some req) number now well_formed in
        let numbered = number_not_blank (lit "-" ++ (format_date now ++ (lit "-" ++ suffix))) in
        (
          i,
          ground (arith, clocked, made, built),
          (valid, numbered, IsStorable-of_IsValid i valid numbered timed.issued timed.due),
        )

    publish_and_settle_served :
        (d : Delivery) (i : Invoice) (w : World E (Event TS))
        → IsNumbered i
        → (publish_and_settle s d i w).0 ≡ ok tt
    unfolding publish_and_settle publish_payment_request or_nack acknowledge
    publish_and_settle_served d i w (valid, numbered, storable) =
        let passes =
          payment_request_validator_passes s.timestamps.as_time s.timestamps.new served.same_time i
            s.payment_host valid numbered in
        let req = build_payment_request s.timestamps.new i s.payment_host in
        let (e, sent) = served.published (payment_request req) (guest_key s i.payer_id) w.env in
        let (e', acked) = served.acked d.delivery_tag e in ground (arith, passes, sent, acked)

    save_and_settle_served :
        (d : Delivery) (i : Invoice) (w : World E (Event TS))
        → IsNumbered i
        → (save_and_settle s d i w).0 ≡ ok tt
    unfolding save_and_settle save_invoice or_nack
    save_and_settle_served d i w numbered =
        let (id, e, saved) = served.added i w.env numbered.2 in
        let w₁ : World E (Event TS) = record { env = e; trace = w.trace ++ added_invoice i ∷ [] } in
        ground (arith, saved, publish_and_settle_served d i w₁ numbered)

    generate_and_settle_served :
        (d : Delivery) (req : CreateInvoicePaymentRequest TS) (w : World E (Event TS))
        → IsWellFormed s.timestamps.as_time (some req)
        → IsTimed req
        → (generate_and_settle s d req w).0 ≡ ok tt
    unfolding generate_and_settle or_nack
    generate_and_settle_served d req w well_formed timed =
        let (i, made, numbered) = generate_invoice_doc_served req w well_formed timed in
        ground (arith, made, save_and_settle_served d i (generate_invoice_doc s req w).1 numbered)

    -- If the clock, the random sources and the timestamps give values, the repository takes every
    -- invoice that passes its checks, and messages and acknowledgements are taken, then every
    -- delivery whose body decodes to a request that passes the checks of the invoice, with times other
    -- than the zero time, is processed: its invoice is stored, the guest is sent the payment request,
    -- and the delivery is acknowledged, in this order and with no other effect.
    pub process_invoice_delivery_served :
        (d : Delivery) (req : CreateInvoicePaymentRequest TS) (w : World E (Event TS))
        → unmarshal_request s.codec d ≡ ok req
        → IsWellFormed s.timestamps.as_time (some req)
        → IsTimed req
        → ((process_invoice_delivery s d w).0 ≡ ok tt)
          × IsProcessed s d w.trace (process_invoice_delivery s d w).1
    unfolding process_invoice_delivery or_nack
    process_invoice_delivery_served d req w decoded well_formed timed =
        let settled : (process_invoice_delivery s d w).0 ≡ ok tt =
          ground (arith, decoded, generate_and_settle_served d req w well_formed timed) in
        (
          settled,
          process_invoice_delivery-ok s d w (process_invoice_delivery s d w).1
              (ap (λ o. (o, (process_invoice_delivery s d w).1)) settled),
        )
