-- ===== src/App/PaymentMaking/AfterPayment.antt =====
-- The work after a payment: the receipt, then the confirmation.
use mathlib.Core.List.{append_assoc}
use kenshu_elaris_project_pa.Base.{
  ◌≡◌, inl, inr, refl, ap, ◌∙◌, true, Option, some, [], ◌∷◌, ◌++◌, arith, Option-cases,
}
use kenshu_elaris_project_pa.Go.Text.{lit, is_blank}
use kenshu_elaris_project_pa.Go.Time.{Time}
use kenshu_elaris_project_pa.Go.Call.{
  ok, err, World, bind-eq-ok, Outcome-cases, is_ok, is_err, is_panicked,
}
use kenshu_elaris_project_pa.Errors.{GoError}
use kenshu_elaris_project_pa.Validation.{validate}
use kenshu_elaris_project_pa.Document.Invoice.{ObjectId, Invoice}
use kenshu_elaris_project_pa.Document.Receipt.{
  Receipt, response_validator, receipt_of_response, new_receipt_from_proto_message,
}
use kenshu_elaris_project_pa.Document.Receipt.Laws.{IsComplete, response_validator_iff}
use kenshu_elaris_project_pa.Port.{Event, added_receipt, published, payment_confirmation}
use kenshu_elaris_project_pa.App.PaymentMaking.Payment.{pay_with_card-Answered}
use kenshu_elaris_project_pa.App.PaymentMaking.{
  Answer, pay_with_card, PaymentMakingService, save_receipt, confirmation_key,
  send_confirmation_message, post_payment_work,
}
use kenshu_elaris_project_pa.Dto
use kenshu_elaris_project_pa.Dto.PaymentConfirmation.{PaymentConfirmation}
use kenshu_elaris_project_pa.Dto.PayWithCardRequest.{PayWithCardRequest}
use kenshu_elaris_project_pa.Dto.PayWithCardResponse.{PayWithCardResponse}

module _ {E TS : Type 0} (s : PaymentMakingService E TS) (resp : PayWithCardResponse TS) where
  -- A saved receipt has the response's data.
  save_receipt-ok :
      (w w' : World E (Event TS)) (r : Receipt)
      → save_receipt s resp w ≡ (ok r, w')
      → IsComplete (some resp)
        × (r
            ≡ receipt_of_response s.timestamps.as_time
                (s.entropy.new_object_id w.env).0
                (some resp))
        × (w'.trace ≡ w.trace ++ added_receipt r ∷ [])
        × ((id : ObjectId) × (s.receipt_repo.add r (s.entropy.new_object_id w.env).1
              ≡ (ok id, w'.env)))
  unfolding save_receipt new_receipt_from_proto_message
  save_receipt-ok w w' r h = elim (Option-cases (validate (response_validator (some resp)))) [
    | inr (x, bad) ↦ absurd (ground arith)
    | inl checked ↦
        let (id, e) = s.entropy.new_object_id w.env in
        let made = receipt_of_response s.timestamps.as_time id (some resp) in
        let added = s.receipt_repo.add made e in
        elim (Outcome-cases added.0) [
          | is_err x lost ↦ absurd (ground arith)
          | is_panicked lost ↦ absurd (ground arith)
          | is_ok stored there ↦ (
            (response_validator_iff (some resp)).0 checked,
            ground arith,
            ground arith,
            (stored, ground arith),
          )
        ]
  ]

  -- A response that makes no receipt, because it lacks the card's brand for one, ends the work
  -- with no effect at all: no receipt is stored and no confirmation is sent.
  pub post_payment_work_incomplete :
      (now : Time) (w : World E (Event TS))
      → ¬ IsComplete (some resp)
      → (e : GoError) × (post_payment_work s now resp w ≡ (err e, w))
  unfolding post_payment_work save_receipt new_receipt_from_proto_message
  post_payment_work_incomplete now w missing =
      elim (Option-cases (validate (response_validator (some resp)))) [
        | inr (x, bad) ↦ (x, ground arith)
        | inl checked ↦ absurd (missing ((response_validator_iff (some resp)).0 checked))
      ]

  -- The confirmation of a stored invoice.
  pub record Confirms (invoice : Invoice) (now : Time) (c : PaymentConfirmation TS) : Type 0 where
    pub booking_id : c.booking_id ≡ invoice.booking_id
    pub payer_id : c.payer_id ≡ invoice.payer_id
    pub invoice_number : c.invoice_number ≡ invoice.invoice_number
    pub receipt_number : c.receipt_number ≡ resp.receipt_number
    pub confirmed_at : c.confirmed_at ≡ some (s.timestamps.new now)

  send_confirmation_message-ok :
      (now : Time) (w w' : World E (Event TS))
      → send_confirmation_message s now resp w ≡ (ok tt, w')
      → (invoice : Invoice) × (c : PaymentConfirmation TS) × ((s.invoice_repo.find_by_invoice_number
            resp.invoice_number w.env).0
          ≡ ok invoice)
        × Confirms invoice now c
        × ((e : E) × (s.payment_producer.publish
                (payment_confirmation c)
                (confirmation_key s invoice.booking_id)
                e
              ≡ (ok tt, w'.env)))
        × (w'.trace
            ≡ w.trace
              ++ published (payment_confirmation c) (confirmation_key s invoice.booking_id) ∷ [])
  unfolding send_confirmation_message
  send_confirmation_message-ok now w w' h =
      let (f, e₁) = s.invoice_repo.find_by_invoice_number resp.invoice_number w.env in
      let (u, e₂) = s.entropy.new_random e₁ in
      elim (Outcome-cases f) [
        | is_err x lost ↦ absurd (ground arith)
        | is_panicked lost ↦ absurd (ground arith)
        | is_ok invoice found ↦ elim (Outcome-cases u) [
          | is_err x none_left ↦ absurd (ground arith)
          | is_panicked none_left ↦ absurd (ground arith)
          | is_ok id drawn ↦
              let c : PaymentConfirmation TS = record {
                id = id;
                booking_id = invoice.booking_id;
                payer_id = invoice.payer_id;
                invoice_number = invoice.invoice_number;
                receipt_number = resp.receipt_number;
                confirmed_at = some (s.timestamps.new now);
              } in
              let sending =
                s.payment_producer.publish (payment_confirmation c)
                  (confirmation_key s invoice.booking_id) e₂ in
              elim (Outcome-cases sending.0) [
                | is_err x unsent ↦ absurd (ground arith)
                | is_panicked unsent ↦ absurd (ground arith)
                | is_ok u away ↦ (
                  invoice,
                  c,
                  found,
                  record {
                    booking_id = refl;
                    payer_id = refl;
                    invoice_number = refl;
                    receipt_number = refl;
                    confirmed_at = refl;
                  },
                  (e₂, ground arith),
                  ground arith,
                )
              ]
        ]
      ]

  -- What the work after a payment has done when it ends with no error, from the state and the calls
  -- of `w` to those of `w'`.
  pub record IsFollowedUp (now : Time) (w w' : World E (Event TS)) : Type 0 where
    pub receipt : Receipt
    pub receipt_number : receipt.receipt_number ≡ resp.receipt_number
    pub receipt_invoice : receipt.invoice_number ≡ resp.invoice_number
    pub card_brand : receipt.card.brand ≡ Dto.CardSummary.get_brand resp.card
    pub card_last4 : receipt.card.last4 ≡ Dto.CardSummary.get_last4 resp.card
    pub processed_at : receipt.processed_at ≡ s.timestamps.as_time resp.processed_at
    pub id : ObjectId
    pub env₁ : E
    pub stored : s.receipt_repo.add receipt (s.entropy.new_object_id w.env).1 ≡ (ok id, env₁)
    pub invoice : Invoice
    pub found : (s.invoice_repo.find_by_invoice_number resp.invoice_number env₁).0 ≡ ok invoice
    pub confirmation : PaymentConfirmation TS
    pub confirms : Confirms invoice now confirmation
    pub env₂ : E
    pub sent :
        s.payment_producer.publish
          (payment_confirmation confirmation)
          (lit "booking." ++ (invoice.booking_id ++ lit ".confirmation"))
          env₂
        ≡ (ok tt, w'.env)
    pub trace :
        w'.trace
        ≡ w.trace
          ++ added_receipt receipt
            ∷ published
                (payment_confirmation confirmation)
                (lit "booking." ++ (invoice.booking_id ++ lit ".confirmation"))
            ∷ []

  -- The work after a payment that ends with no error has stored a receipt with the data of the
  -- response, which the repository has taken, and then published one confirmation, which the
  -- producer has taken, under the key of the booking: of the invoice that the repository then finds
  -- by the response's number, with the receipt's number. It has done nothing else.
  pub post_payment_work-ok :
      (now : Time) (w w' : World E (Event TS))
      → post_payment_work s now resp w ≡ (ok tt, w')
      → IsComplete (some resp) × IsFollowedUp now w w'
  unfolding post_payment_work confirmation_key receipt_of_response
  post_payment_work-ok now w w' h =
      let (r, w₁, e, h₁) =
        bind-eq-ok (save_receipt s resp) (λ r. send_confirmation_message s now resp) w h in
      let (complete, same, stored, (id, added)) = save_receipt-ok w w₁ r e in
      let (invoice, c, found, confirms, (env, sent), more) =
        send_confirmation_message-ok now w₁ w' h₁ in
      let sends = published (payment_confirmation c) (confirmation_key s invoice.booking_id) ∷ [] in
      (
        complete,
        record {
          receipt = r;
          receipt_number = ap (λ r. r.receipt_number) same;
          receipt_invoice = ap (λ r. r.invoice_number) same;
          card_brand = ap (λ r. r.card.brand) same;
          card_last4 = ap (λ r. r.card.last4) same;
          processed_at = ap (λ r. r.processed_at) same;
          id = id;
          env₁ = w₁.env;
          stored = added;
          invoice = invoice;
          found = found;
          confirmation = c;
          confirms = confirms;
          env₂ = env;
          sent = sent;
          trace = more ∙ ap (λ t. t ++ sends) stored ∙ append_assoc w.trace _ _;
        },
      )

-- A payment by a card with a blank brand, which PayWithCard accepts and answers, never leads to a
-- receipt or a confirmation: the work after the payment, whenever it runs on the answer, ends with
-- an error and has no effect.
pub pay_with_card_blank_brand :
    {E TS : Type 0} (s : PaymentMakingService E TS) (req : Option PayWithCardRequest)
    (w w' : World E (Event TS)) (a : Answer TS)
    → pay_with_card s req w ≡ (ok a, w')
    → is_blank (Dto.Card.get_brand (Dto.PayWithCardRequest.get_card req)) ≡ true
    → (now : Time) (later : World E (Event TS))
    → (e : GoError) × (post_payment_work s now a.response later ≡ (err e, later))
pay_with_card_blank_brand s req w w' a h blank now later =
    post_payment_work_incomplete s a.response now later λ complete.
      let (_, _, _, answered) = pay_with_card-Answered s req w w' a h in
      let same : Dto.CardSummary.get_brand a.response.card
          ≡ Dto.Card.get_brand (Dto.PayWithCardRequest.get_card req) =
        elim answered [ inl failed ↦ failed.0.brand | inr paid ↦ paid.0.brand ] in
      cc (complete.brand, same, blank)
