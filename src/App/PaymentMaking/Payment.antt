-- ===== src/App/PaymentMaking/Payment.antt =====
-- When PayWithCard changes an invoice, and what it answers.
use kenshu_elaris_project_pa.Base.{
  ℕ, ◌<◌, ◌≡◌, ◌⊎◌, inl, inr, ap, true, false, Bool-cases, Option-cases, Option, none, some, List,
  [], ◌∷◌, ◌++◌, length, arith,
}
use kenshu_elaris_project_pa.Base.Int.{pos, ltb_ℤ}
use kenshu_elaris_project_pa.Go.Text.{GoString, equal_fold}
use kenshu_elaris_project_pa.Go.Time.{Time}
use kenshu_elaris_project_pa.Go.Call.{
  ok, err, panicked, World, Outcome-cases, is_ok, is_err, is_panicked,
}
use kenshu_elaris_project_pa.Validation.{validate}
use kenshu_elaris_project_pa.Document.Invoice.{Invoice, status_paid}
use kenshu_elaris_project_pa.Port.{Event, updated_status}
use kenshu_elaris_project_pa.App.Grpc.{refused, already_paid}
use kenshu_elaris_project_pa.App.PaymentMaking.{
  PaymentMakingService, Answer, card_validator, build_response, pay_drawn, pay_found, pay_with_card,
}
use kenshu_elaris_project_pa.App.PaymentMaking.Response.{
  card_number, Answers, build_response-trace, build_response-Answers, build_response_short,
}
use kenshu_elaris_project_pa.Dto
use kenshu_elaris_project_pa.Dto.Enums.{status_succeeded, status_failed}
use kenshu_elaris_project_pa.Dto.PayWithCardRequest.{PayWithCardRequest}

module _ {E TS : Type 0} (s : PaymentMakingService E TS) (req : Option PayWithCardRequest) where
  abbrev pub number_of : GoString
  number_of = Dto.PayWithCardRequest.get_invoice_number req

  -- The one event that a payment can leave: the invoice becomes paid.
  abbrev pub paid_at : Time → Event TS
  paid_at now = updated_status number_of status_paid now

  pay_drawn-trace :
      (now : Time) (n : ℕ) (w : World E (Event TS))
      → ((pay_drawn s req now n w).1.trace ≡ w.trace)
        ⊎ ((pay_drawn s req now n w).1.trace ≡ w.trace ++ paid_at now ∷ [])
  unfolding pay_drawn
  pay_drawn-trace now n w = grind (arith, build_response-trace s)

  -- The answer of a run that returned one: a failed payment, which leaves the invoice alone and
  -- starts nothing, or a successful one, for which the repository, in the state `env`, has taken the
  -- update of the invoice to paid, and whose work after the payment is started with the response.
  abbrev pub Answered : Time → E → List (Event TS) → Answer TS → List (Event TS) → Type 0
  Answered now env before a after =
      (Answers req status_failed a.response × (a.post_payment ≡ none) × (after ≡ before))
      ⊎ (Answers req status_succeeded a.response
          × (a.post_payment ≡ some (now, a.response))
          × ((env' : E) × (s.invoice_repo.update_status number_of status_paid now env
                ≡ (ok tt, env')))
          × (after ≡ before ++ paid_at now ∷ []))

  pay_drawn-Answered :
      (now : Time) (n : ℕ) (w w' : World E (Event TS)) (a : Answer TS)
      → pay_drawn s req now n w ≡ (ok a, w')
      → Answered now w.env w.trace a w'.trace
  unfolding pay_drawn
  pay_drawn-Answered now n w w' a h = elim (Bool-cases (ltb_ℤ (pos n) s.fail_chance)) [
    | inl fails ↦
        let built = build_response s req status_failed now w in
        elim (Outcome-cases built.0) [
          | is_ok resp e ↦
              let about = build_response-Answers s req status_failed now w resp e in
              let quiet = build_response-trace s req status_failed now w in inl (ground arith)
          | is_err x e ↦ absurd (ground arith)
          | is_panicked e ↦ absurd (ground arith)
        ]
    | inr pays ↦
        let update = s.invoice_repo.update_status number_of status_paid now w.env in
        let w₁ : World E (Event TS) = record {
          env = update.1;
          trace = w.trace ++ paid_at now ∷ [];
        } in
        let built = build_response s req status_succeeded now w₁ in
        elim (Outcome-cases update.0) [
          | is_ok u e₁ ↦ elim (Outcome-cases built.0) [
            | is_ok resp e ↦
                let about = build_response-Answers s req status_succeeded now w₁ resp e in
                let quiet = build_response-trace s req status_succeeded now w₁ in
                inr
                  (ground arith, ground arith, (update.1, ap (λ o. (o, update.1)) e₁), ground arith)
            | is_err x e ↦ absurd (ground arith)
            | is_panicked e ↦ absurd (ground arith)
          ]
          | is_err x e₁ ↦ absurd (ground arith)
          | is_panicked e₁ ↦ absurd (ground arith)
        ]
  ]

  pay_found-Answered :
      (now : Time) (invoice : Invoice) (w w' : World E (Event TS)) (a : Answer TS)
      → pay_found s req now invoice w ≡ (ok a, w')
      → (equal_fold invoice.status status_paid ≡ false)
        × Answered now (s.entropy.rand_int w.env).1 w.trace a w'.trace
  unfolding pay_found
  pay_found-Answered now invoice w w' a h =
      let (n, e) = s.entropy.rand_int w.env in
      elim (Bool-cases (equal_fold invoice.status status_paid)) [
        | inl paid ↦ absurd (ground arith)
        | inr unpaid ↦ (unpaid, pay_drawn-Answered now n (record w { env = e }) w' a (ground arith))
      ]

  -- What precedes an answer: the checks, the time, and an invoice that is not paid.
  pub record IsPrepared (env : E) (now : Time) (env' : E) : Type 0 where
    pub checked : validate (card_validator req) ≡ none
    pub env₁ : E
    pub invoice : Invoice
    pub timed : s.clock.now env ≡ (ok now, env₁)
    pub found : s.invoice_repo.find_by_invoice_number number_of env₁ ≡ (ok invoice, env')
    pub unpaid : equal_fold invoice.status status_paid ≡ false

  -- PayWithCard answers only for a request that passes its checks and for an invoice that the
  -- repository has found and that is not paid. The answer is a failed payment with no effect, or
  -- a successful one, whose single effect is one update of the invoice to paid at that time, which
  -- the repository has taken with no error. Both carry the
  -- invoice's number, the card's brand and the last four bytes of its number.
  pub pay_with_card-Answered :
      (w w' : World E (Event TS)) (a : Answer TS)
      → pay_with_card s req w ≡ (ok a, w')
      → (now : Time) × (env' : E) × IsPrepared w.env now env'
        × Answered now (s.entropy.rand_int env').1 w.trace a w'.trace
  unfolding pay_with_card
  pay_with_card-Answered w w' a h =
      let (t, e₁) = s.clock.now w.env in
      let (f, e₂) = s.invoice_repo.find_by_invoice_number number_of e₁ in
      elim (Option-cases (validate (card_validator req))) [
        | inr (x, bad) ↦ absurd (ground arith)
        | inl checked ↦ elim (Outcome-cases t) [
          | is_err x late ↦ absurd (ground arith)
          | is_panicked late ↦ absurd (ground arith)
          | is_ok now timed ↦ elim (Outcome-cases f) [
            | is_err x lost ↦ absurd (ground arith)
            | is_panicked lost ↦ absurd (ground arith)
            | is_ok invoice found ↦
                let (unpaid, answered) =
                  pay_found-Answered now invoice (record w { env = e₂ }) w' a (ground arith) in
                (
                  now,
                  e₂,
                  record {
                    checked = checked;
                    env₁ = e₁;
                    invoice = invoice;
                    timed = ap (λ o. (o, e₁)) timed;
                    found = ap (λ o. (o, e₂)) found;
                    unpaid = unpaid;
                  },
                  answered,
                )
          ]
        ]
      ]

  pay_found-trace :
      (now : Time) (invoice : Invoice) (w : World E (Event TS))
      → ((pay_found s req now invoice w).1.trace ≡ w.trace)
        ⊎ ((pay_found s req now invoice w).1.trace ≡ w.trace ++ paid_at now ∷ [])
  unfolding pay_found
  pay_found-trace now invoice w = grind (arith, pay_drawn-trace)

  -- However PayWithCard ends, with an answer, a refusal or a panic, it has at most asked once for
  -- this one invoice to become paid.
  pub pay_with_card-trace :
      (w : World E (Event TS))
      → ((pay_with_card s req w).1.trace ≡ w.trace)
        ⊎ ((now : Time) × ((pay_with_card s req w).1.trace ≡ w.trace ++ paid_at now ∷ []))
  unfolding pay_with_card
  pay_with_card-trace w =
      let (t, e₁) = s.clock.now w.env in
      let (f, e₂) = s.invoice_repo.find_by_invoice_number number_of e₁ in
      elim (Option-cases (validate (card_validator req))) [
        | inr (x, bad) ↦ inl (ground arith)
        | inl checked ↦ elim (Outcome-cases t) [
          | is_err x late ↦ inl (ground arith)
          | is_panicked late ↦ inl (ground arith)
          | is_ok now timed ↦ elim (Outcome-cases f) [
            | is_err x lost ↦ inl (ground arith)
            | is_panicked lost ↦ inl (ground arith)
            | is_ok invoice found ↦ elim (pay_found-trace now invoice (record w { env = e₂ })) [
              | inl same ↦ inl (ground arith)
              | inr more ↦ inr (now, ground arith)
            ]
          ]
        ]
      ]

  module _ (w : World E (Event TS)) {now : Time} {e₁ e₂ : E} {invoice : Invoice}
      (checked : validate (card_validator req) ≡ none) (timed : s.clock.now w.env ≡ (ok now, e₁))
      (found : s.invoice_repo.find_by_invoice_number number_of e₁ ≡ (ok invoice, e₂)) where
    -- A paid invoice, in whatever case its status is written, is refused with FailedPrecondition,
    -- and nothing is changed.
    pub pay_with_card-already_paid :
        equal_fold invoice.status status_paid ≡ true
        → pay_with_card s req w ≡ (err (refused already_paid), record w { env = e₂ })
    unfolding pay_with_card pay_found
    pay_with_card-already_paid paid = ground arith

    -- A card number of fewer than four bytes passes the checks of PayWithCard. If the draw does
    -- not fail the payment and the invoice can be updated, the handler then panics: the invoice
    -- has become paid, no answer is given, and no work after the payment is started.
    pub pay_with_card_short_number :
        {e₃ : E}
        → length (card_number req) < 4
        → equal_fold invoice.status status_paid ≡ false
        → ltb_ℤ (pos (s.entropy.rand_int e₂).0) s.fail_chance ≡ false
        → s.invoice_repo.update_status number_of status_paid now (s.entropy.rand_int e₂).1
          ≡ (ok tt, e₃)
        → pay_with_card s req w
          ≡ (panicked, record { env = e₃; trace = w.trace ++ paid_at now ∷ [] })
    unfolding pay_with_card pay_found pay_drawn
    pay_with_card_short_number {e₃} short unpaid drawn updated = ground (
      arith,
      build_response_short s req status_succeeded now
          (record { env = e₃; trace = w.trace ++ paid_at now ∷ [] }) short,
    )
