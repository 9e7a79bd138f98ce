-- ===== src/App/PaymentMaking/Response.antt =====
-- The response of a payment: its fields, and the card number that it cuts.
use kenshu_elaris_project_pa.Base.{
  ◌-◌, ◌<◌, ◌≡◌, Option, ◌++◌, length, take, take-append-drop, length-drop, arith,
}
use kenshu_elaris_project_pa.Go.Text.{GoString, lit}
use kenshu_elaris_project_pa.Go.Time.{Time}
use kenshu_elaris_project_pa.Go.Call.{
  ok, panicked, World, Outcome-cases, is_ok, is_err, is_panicked,
}
use kenshu_elaris_project_pa.Port.{Event}
use kenshu_elaris_project_pa.App.Util.{generate_human_friendly_id, generate_human_friendly_id-trace}
use kenshu_elaris_project_pa.App.PaymentMaking.{PaymentMakingService, last_four, build_response}
use kenshu_elaris_project_pa.Dto
use kenshu_elaris_project_pa.Dto.Enums.{PaymentStatus}
use kenshu_elaris_project_pa.Dto.PayWithCardRequest.{PayWithCardRequest}
use kenshu_elaris_project_pa.Dto.PayWithCardResponse.{PayWithCardResponse}

-- A cut that succeeds is of the last four bytes of the number: four bytes, which complete what
-- comes before them to the whole number.
pub last_four-ok :
    (s t : GoString) → last_four s ≡ ok t → (length t ≡ 4) × (take (length s - 4) s ++ t ≡ s)
unfolding last_four
last_four-ok s t h = ground (arith, length-drop (length s - 4) s, take-append-drop (length s - 4) s)

abbrev pub card_number : Option PayWithCardRequest → GoString
card_number req = Dto.Card.get_number (Dto.PayWithCardRequest.get_card req)

-- What a response says of the request it answers.
pub record Answers {TS : Type 0} (req : Option PayWithCardRequest) (outcome : PaymentStatus)
    (resp : PayWithCardResponse TS) : Type 0 where
  pub status : resp.status ≡ outcome
  pub invoice_number : resp.invoice_number ≡ Dto.PayWithCardRequest.get_invoice_number req
  pub brand :
      Dto.CardSummary.get_brand resp.card ≡ Dto.Card.get_brand (Dto.PayWithCardRequest.get_card req)
  pub last4_length : length (Dto.CardSummary.get_last4 resp.card) ≡ 4
  pub last4 :
      take (length (card_number req) - 4) (card_number req) ++ Dto.CardSummary.get_last4 resp.card
      ≡ card_number req

module _ {E TS : Type 0} (s : PaymentMakingService E TS) (req : Option PayWithCardRequest)
    (status : PaymentStatus) (now : Time) (w : World E (Event TS)) where
  pub build_response-trace : (build_response s req status now w).1.trace ≡ w.trace
  unfolding build_response
  build_response-trace = grind (arith, generate_human_friendly_id-trace)

  -- A card number of fewer than four bytes makes it panic.
  pub build_response_short :
      length (card_number req) < 4 → build_response s req status now w ≡ (panicked, w)
  unfolding build_response last_four
  build_response_short h = ground arith

  pub build_response-Answers :
      (resp : PayWithCardResponse TS)
      → (build_response s req status now w).0 ≡ ok resp
      → Answers req status resp
  unfolding build_response
  build_response-Answers resp h = elim (Outcome-cases (last_four (card_number req))) [
    | is_ok digits e ↦
        let cut = last_four-ok (card_number req) digits e in
        let made = generate_human_friendly_id s.entropy (lit "RCPT") now w in
        elim (Outcome-cases made.0) [
          | is_ok number e' ↦ record {
            status = ground arith;
            invoice_number = ground arith;
            brand = ground arith;
            last4_length = ground arith;
            last4 = ground arith;
          }
          | is_err x e' ↦ absurd (ground arith)
          | is_panicked e' ↦ absurd (ground arith)
        ]
    | is_err x e ↦ absurd (ground arith)
    | is_panicked e ↦ absurd (ground arith)
  ]
