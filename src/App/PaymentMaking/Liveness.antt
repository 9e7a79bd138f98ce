-- ===== src/App/PaymentMaking/Liveness.antt =====
-- PayWithCard on packages and ports that do their work: every payment that can be made is answered.
use kenshu_elaris_project_pa.Base.{
  ℕ, ◌<◌, ◌≤◌, ◌≡◌, ap, subst, false, inl, inr, Bool-cases, Option, none, some, [], ◌∷◌, ◌++◌, ◌-◌,
  drop, length, arith,
}
use kenshu_elaris_project_pa.Base.Int.{pos, ltb_ℤ}
use kenshu_elaris_project_pa.Go.Text.{GoString, lit, equal_fold, remove_byte}
use kenshu_elaris_project_pa.Go.Time.{Time}
use kenshu_elaris_project_pa.Go.Call.{ok, World, Outcome-cases, is_ok, is_err, is_panicked}
use kenshu_elaris_project_pa.Validation.{validate, is_zero, instant}
use kenshu_elaris_project_pa.Document.Invoice.{Invoice, status_paid}
use kenshu_elaris_project_pa.Port.{Event}
use kenshu_elaris_project_pa.App.Util.{invoice_number_suffix_length}
use kenshu_elaris_project_pa.App.Util.Laws.{generate_human_friendly_id-ok}
use kenshu_elaris_project_pa.App.PaymentMaking.{
  PaymentMakingService, Answer, card_validator, last_four, build_response, pay_drawn, pay_found,
  pay_with_card,
}
use kenshu_elaris_project_pa.App.PaymentMaking.Payment.{
  number_of, paid_at, Answered, pay_with_card-Answered,
}
use kenshu_elaris_project_pa.App.PaymentMaking.Response.{card_number}
use kenshu_elaris_project_pa.Dto.Enums.{PaymentStatus, status_succeeded, status_failed}
use kenshu_elaris_project_pa.Dto.PayWithCardRequest.{PayWithCardRequest}
use kenshu_elaris_project_pa.Dto.PayWithCardResponse.{PayWithCardResponse}

module _ {E TS : Type 0} (s : PaymentMakingService E TS) (req : Option PayWithCardRequest) where
  -- In the states of `Up`, the random sources give values and the repository takes the update of the
  -- invoice to paid, at a time that is not the zero time; what is drawn leaves the state in `Up`.
  -- Nothing is asked of the states after the update but that the random sources still work.
  pub record IsServed (Up : E → Type 0) (Sources : E → Type 0) : Type 0 where
    pub working : (env : E) → Up env → Sources env
    pub picked : (env : E) → Up env → Up (s.entropy.rand_int env).1
    pub drawn :
        (env : E)
        → Sources env
        → (id : GoString) × (env' : E) × (s.entropy.new_random env ≡ (ok id, env'))
          × (0 < length (remove_byte b'-' id))
          × Sources env'
    pub filled :
        (env : E)
        → Sources env
        → (random : GoString) × (env' : E) × (s.entropy.read invoice_number_suffix_length env
            ≡ (ok random, env'))
          × (invoice_number_suffix_length ≤ length random)
    pub updated :
        (now : Time) (env : E)
        → Up env
        → is_zero (instant now) ≡ false
        → (env' : E) × (s.invoice_repo.update_status (number_of s req) status_paid now env
            ≡ (ok tt, env'))
          × Sources env'

  last_four_long : (t : GoString) → 4 ≤ length t → (cut : GoString) × (last_four t ≡ ok cut)
  unfolding last_four
  last_four_long t h = (drop (length t - 4) t, ground (arith, h))

  module _ (Up Sources : E → Type 0) (served : IsServed Up Sources)
      (long : 4 ≤ length (card_number req)) where
    build_response_served :
        (status : PaymentStatus) (now : Time) (w : World E (Event TS))
        → Sources w.env
        → (resp : PayWithCardResponse TS) × ((build_response s req status now w).0 ≡ ok resp)
    unfolding build_response
    build_response_served status now w up =
        let (id, e₁, drawn, some_left, up₁) = served.drawn w.env up in
        let (random, e₂, filled, enough) = served.filled e₁ up₁ in
        let (suffix, made, _, _) =
          generate_human_friendly_id-ok s.entropy (lit "RCPT") now w drawn filled some_left
            enough in
        let (cut, e) = last_four_long (card_number req) long in
        elim (Outcome-cases (build_response s req status now w).0) [
          | is_ok resp built ↦ (resp, built)
          | is_err x failed ↦ absurd (ground (arith, made, e, failed))
          | is_panicked failed ↦ absurd (ground (arith, made, e, failed))
        ]

    pay_drawn_served :
        (now : Time) (n : ℕ) (w : World E (Event TS))
        → Up w.env
        → is_zero (instant now) ≡ false
        → (a : Answer TS) × ((pay_drawn s req now n w).0 ≡ ok a)
    unfolding pay_drawn
    pay_drawn_served now n w up past = elim (Bool-cases (ltb_ℤ (pos n) s.fail_chance)) [
      | inl fails ↦
          let (resp, built) = build_response_served status_failed now w (served.working w.env up) in
          (record { response = resp; post_payment = none }, ground (arith, fails, built))
      | inr pays ↦
          let (e, updated, up₁) = served.updated now w.env up past in
          let w₁ : World E (Event TS) = record {
            env = e;
            trace = w.trace ++ paid_at s req now ∷ [];
          } in
          let (resp, built) = build_response_served status_succeeded now w₁ up₁ in
          (
            record { response = resp; post_payment = some (now, resp) },
            ground (arith, pays, updated, built),
          )
    ]

    pay_found_served :
        (now : Time) (invoice : Invoice) (w : World E (Event TS))
        → Up w.env
        → is_zero (instant now) ≡ false
        → equal_fold invoice.status status_paid ≡ false
        → (a : Answer TS) × ((pay_found s req now invoice w).0 ≡ ok a)
    unfolding pay_found
    pay_found_served now invoice w up past unpaid =
        let (n, e) = s.entropy.rand_int w.env in
        let (a, paid) =
          pay_drawn_served now n (record w { env = e }) (served.picked w.env up) past in
        (a, ground (arith, unpaid, paid))

    module _ (w : World E (Event TS)) {now : Time} {e₁ e₂ : E} {invoice : Invoice}
        (checked : validate (card_validator req) ≡ none) (timed : s.clock.now w.env ≡ (ok now, e₁))
        (past : is_zero (instant now) ≡ false)
        (found : s.invoice_repo.find_by_invoice_number (number_of s req) e₁ ≡ (ok invoice, e₂))
        (unpaid : equal_fold invoice.status status_paid ≡ false) (up : Up e₂) where
      pay_with_card_runs : (a : Answer TS) × ((pay_with_card s req w).0 ≡ ok a)
      unfolding pay_with_card
      pay_with_card_runs =
          let (a, paid) = pay_found_served now invoice (record w { env = e₂ }) up past unpaid in
          (a, ground (arith, checked, timed, found, paid))

      -- Take a request that passes the checks of PayWithCard, with a card number of four bytes or
      -- more. If the clock gives a time other than the zero time, the repository then finds the
      -- invoice unpaid, and from the state after the look-up on the random sources give enough bytes
      -- and the repository takes the update of the invoice to paid, then the request is answered: as a
      -- failed payment, with no effect, or as a successful one, after one update of the invoice to
      -- paid, which the repository has taken, with the work that follows started. Nothing is asked of
      -- the invoice after the update, so a repository that keeps the new status fulfils this.
      pub pay_with_card_served :
          (a : Answer TS) × ((pay_with_card s req w).0 ≡ ok a)
          × Answered s req now (s.entropy.rand_int e₂).1 w.trace a (pay_with_card s req w).1.trace
      pay_with_card_served =
          let (a, e) = pay_with_card_runs in
          let (now', env, prepared, answered) =
            pay_with_card-Answered s req w (pay_with_card s req w).1 a
              (ap (λ o. (o, (pay_with_card s req w).1)) e) in
          let same : now' ≡ now = cc (prepared.timed, timed) in
          let looked : prepared.env₁ ≡ e₁ = cc (prepared.timed, timed) in
          let left : env ≡ e₂ = cc (prepared.found, found, looked) in
          let seen : Time → E → Type 0 = λ t e.
            Answered s req t (s.entropy.rand_int e).1 w.trace a (pay_with_card s req w).1.trace in
          (a, e, subst (λ t. seen t e₂) same (subst (seen now') left answered))
