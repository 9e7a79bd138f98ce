-- ===== src/App/PaymentMaking/Once.antt =====
-- An invoice is paid once, if payments follow each other and the repository keeps what it is told.
use kenshu_elaris_project_pa.Base.{
  ℕ, ◌≡◌, ◌≢◌, refl, ap, true, Bool-cases, Option-cases, Option, none, some, inl, inr, [], ◌∷◌,
  ◌++◌, arith,
}
use kenshu_elaris_project_pa.Base.Int.{pos, ltb_ℤ}
use kenshu_elaris_project_pa.Go.Text.{GoString, lit, equal_fold}
use kenshu_elaris_project_pa.Go.Time.{Time}
use kenshu_elaris_project_pa.Go.Call.{ok, World, Outcome-cases, is_ok, is_err, is_panicked}
use kenshu_elaris_project_pa.Validation.{validate}
use kenshu_elaris_project_pa.Document.Invoice.{Invoice, status_paid}
use kenshu_elaris_project_pa.Port.{Event, updated_status}
use kenshu_elaris_project_pa.App.Util.{generate_human_friendly_id}
use kenshu_elaris_project_pa.App.PaymentMaking.{
  PaymentMakingService, Answer, card_validator, build_response, pay_drawn, pay_found, pay_with_card,
}
use kenshu_elaris_project_pa.App.PaymentMaking.Payment.{pay_with_card-Answered}
use kenshu_elaris_project_pa.Dto
use kenshu_elaris_project_pa.Dto.Enums.{PaymentStatus, status_succeeded, status_failed}
use kenshu_elaris_project_pa.Dto.PayWithCardRequest.{PayWithCardRequest}

paid_folds : equal_fold status_paid status_paid ≡ true
unfolding equal_fold status_paid
paid_folds = refl

module _ {E TS : Type 0} (s : PaymentMakingService E TS)
    (status_of : E → GoString → Option GoString) where
  -- What the calls outside keep of the stored statuses, by invoice number: a look-up reads the
  -- status, an update writes it, and no other call touches it.
  pub record KeepsStatus : Type 0 where
    pub now : (env : E) → status_of (s.clock.now env).1 ≡ status_of env
    pub new_random : (env : E) → status_of (s.entropy.new_random env).1 ≡ status_of env
    pub read : (n : ℕ) (env : E) → status_of (s.entropy.read n env).1 ≡ status_of env
    pub rand_int : (env : E) → status_of (s.entropy.rand_int env).1 ≡ status_of env
    pub timestamp : (env : E) → status_of (s.timestamps.now env).1 ≡ status_of env
    pub found :
        (n : GoString) (env env' : E) (i : Invoice)
        → s.invoice_repo.find_by_invoice_number n env ≡ (ok i, env')
        → status_of env n ≡ some i.status
    pub updated :
        (n status : GoString) (t : Time) (env env' : E)
        → s.invoice_repo.update_status n status t env ≡ (ok tt, env')
        → status_of env' n ≡ some status

  module _ (keeps : KeepsStatus) where
    identifier-status :
        (prefix : GoString) (now : Time) (w : World E (Event TS))
        → status_of (generate_human_friendly_id s.entropy prefix now w).1.env ≡ status_of w.env
    unfolding generate_human_friendly_id
    identifier-status prefix now w =
        let (u, e₁) = s.entropy.new_random w.env in
        ground (arith, keeps.new_random w.env, keeps.read 6 e₁)

    build_response-status :
        (req : Option PayWithCardRequest) (status : PaymentStatus) (now : Time)
        (w : World E (Event TS))
        → status_of (build_response s req status now w).1.env ≡ status_of w.env
    unfolding build_response
    build_response-status req status now w =
        let made = generate_human_friendly_id s.entropy (lit "RCPT") now w in
        ground (arith, identifier-status (lit "RCPT") now w, keeps.timestamp made.1.env)

    module _ (req : Option PayWithCardRequest) (now : Time) (w w' : World E (Event TS))
        (a : Answer TS) where
      pay_drawn-status :
          (n : ℕ)
          → pay_drawn s req now n w ≡ (ok a, w')
          → a.post_payment ≢ none
          → status_of w'.env (Dto.PayWithCardRequest.get_invoice_number req) ≡ some status_paid
      unfolding pay_drawn
      pay_drawn-status n h started =
          let number = Dto.PayWithCardRequest.get_invoice_number req in
          elim (Bool-cases (ltb_ℤ (pos n) s.fail_chance)) [
            | inl fails ↦ elim (Outcome-cases (build_response s req status_failed now w).0) [
              | is_ok resp e ↦ absurd (ground arith)
              | is_err x e ↦ absurd (ground arith)
              | is_panicked e ↦ absurd (ground arith)
            ]
            | inr pays ↦
                let update = s.invoice_repo.update_status number status_paid now w.env in
                let w₁ : World E (Event TS) = record {
                  env = update.1;
                  trace = w.trace ++ updated_status number status_paid now ∷ [];
                } in
                elim (Outcome-cases update.0) [
                  | is_ok u e₁ ↦
                      let kept = build_response-status req status_succeeded now w₁ in
                      let written =
                        keeps.updated number status_paid now w.env update.1
                          (ap (λ o. (o, update.1)) e₁) in
                      elim (Outcome-cases (build_response s req status_succeeded now w₁).0) [
                        | is_ok resp e ↦ ground arith
                        | is_err x e ↦ absurd (ground arith)
                        | is_panicked e ↦ absurd (ground arith)
                      ]
                  | is_err x e₁ ↦ absurd (ground arith)
                  | is_panicked e₁ ↦ absurd (ground arith)
                ]
          ]

    pay_found-status :
        (req : Option PayWithCardRequest) (now : Time) (invoice : Invoice)
        (w w' : World E (Event TS)) (a : Answer TS)
        → pay_found s req now invoice w ≡ (ok a, w')
        → a.post_payment ≢ none
        → status_of w'.env (Dto.PayWithCardRequest.get_invoice_number req) ≡ some status_paid
    unfolding pay_found
    pay_found-status req now invoice w w' a h started =
        let (n, e) = s.entropy.rand_int w.env in
        elim (Bool-cases (equal_fold invoice.status status_paid)) [
          | inl paid ↦ absurd (ground arith)
          | inr unpaid ↦
              pay_drawn-status req now (record w { env = e }) w' a n (ground arith) started
        ]

    -- An answered payment that starts the work after it has left the invoice paid.
    pay_with_card-status :
        (req : Option PayWithCardRequest) (w w' : World E (Event TS)) (a : Answer TS)
        → pay_with_card s req w ≡ (ok a, w')
        → a.post_payment ≢ none
        → status_of w'.env (Dto.PayWithCardRequest.get_invoice_number req) ≡ some status_paid
    unfolding pay_with_card
    pay_with_card-status req w w' a h started =
        let number = Dto.PayWithCardRequest.get_invoice_number req in
        let (t, e₁) = s.clock.now w.env in
        let (f, e₂) = s.invoice_repo.find_by_invoice_number number e₁ in
        elim (Option-cases (validate (card_validator req))) [
          | inr (x, bad) ↦ absurd (ground arith)
          | inl checked ↦ elim (Outcome-cases t) [
            | is_err x late ↦ absurd (ground arith)
            | is_panicked late ↦ absurd (ground arith)
            | is_ok now timed ↦ elim (Outcome-cases f) [
              | is_err x lost ↦ absurd (ground arith)
              | is_panicked lost ↦ absurd (ground arith)
              | is_ok invoice found ↦
                  pay_found-status req now invoice (record w { env = e₂ }) w' a (ground arith)
                    started
            ]
          ]
        ]

    -- After a successful payment of an invoice, a later payment of the same invoice is never
    -- answered, neither with success nor with failure, if the stored status has not changed between
    -- the end of the one and the start of the other, and the calls outside keep the statuses.
    pub pay_with_card_once :
        (first second : Option PayWithCardRequest) (w w' v v' : World E (Event TS))
        (a b : Answer TS)
        → pay_with_card s first w ≡ (ok a, w')
        → a.post_payment ≢ none
        → Dto.PayWithCardRequest.get_invoice_number second
          ≡ Dto.PayWithCardRequest.get_invoice_number first
        → status_of v.env (Dto.PayWithCardRequest.get_invoice_number first)
          ≡ status_of w'.env (Dto.PayWithCardRequest.get_invoice_number first)
        → pay_with_card s second v ≢ (ok b, v')
    pay_with_card_once first second w w' v v' a b h started same unchanged h' =
        let (now, env, ready, answered) = pay_with_card-Answered s second v v' b h' in
        let stored = pay_with_card-status first w w' a h started in
        let read = keeps.found _ _ _ _ ready.found in
        let timed = ap (λ o. o.1) ready.timed in
        let kept =
          ap (λ f. f (Dto.PayWithCardRequest.get_invoice_number second)) (keeps.now v.env) in
        cc (stored, read, timed, kept, same, unchanged, ready.unpaid, paid_folds)
