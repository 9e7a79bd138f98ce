-- ===== src/App/PaymentReissue/Laws.antt =====
-- What Reissue answers, and that it changes nothing.
use kenshu_elaris_project_pa.Base.{
  ◌≡◌, ◌↔◌, ◌&◌, refl, sym, subst, true, false, Option, none, some, arith, ◌⊎◌, inl, inr,
  Option-cases, Bool-cases, [], ◌∷◌, ◌++◌,
}
use kenshu_elaris_project_pa.Go.Text.{GoString, lit, equal_fold}
use kenshu_elaris_project_pa.Go.Time.{Time}
use kenshu_elaris_project_pa.Go.Call.{
  Outcome, ok, err, panicked, World, Outcome-cases, is_ok, is_err, is_panicked,
}
use kenshu_elaris_project_pa.Errors.{
  GoError, error_text, error_as, to_db_invoice_not_found, to_db_corrupted_data,
}
use kenshu_elaris_project_pa.Validation.{validate}
use kenshu_elaris_project_pa.Document.Invoice.{Invoice, status_paid}
use kenshu_elaris_project_pa.Port.{Event}
use kenshu_elaris_project_pa.App.Grpc.{
  Code, Status, status_error, invalid_argument, failed_precondition, not_found, internal, map_error,
}
use kenshu_elaris_project_pa.App.Mapper.{payment_url, build_payment_request}
use kenshu_elaris_project_pa.Validation.Laws.{NotBlank, validate-none_iff, blank_error_iff}
use kenshu_elaris_project_pa.Dto.Enums.{method_credit_card}
use kenshu_elaris_project_pa.App.PaymentReissue.{
  PaymentReissueService, reissue_validator, reissue_found, reissue,
}
use kenshu_elaris_project_pa.Dto
use kenshu_elaris_project_pa.Dto.PaymentRequest.{PaymentRequest}
use kenshu_elaris_project_pa.Dto.ReissuePaymentRequest.{ReissuePaymentRequest}

-- A request that names a booking and a document.
abbrev pub IsAddressed : Option ReissuePaymentRequest → Type 0
IsAddressed r =
    NotBlank (Dto.ReissuePaymentRequest.get_booking_number r)
    × NotBlank (Dto.ReissuePaymentRequest.get_document_number r)

reissue_validator_iff :
    (r : Option ReissuePaymentRequest) → (validate (reissue_validator r) ≡ none) ↔ IsAddressed r
unfolding reissue_validator
reissue_validator_iff r = (
  λ e.
      let all = (validate-none_iff (reissue_validator r)).0 e in
      ((blank_error_iff _ _).0 all.0, (blank_error_iff _ _).0 all.1.0),
  λ h.
      (validate-none_iff (reissue_validator r)).1
        ((blank_error_iff _ _).1 h.0 & (blank_error_iff _ _).1 h.1 & tt),
)

-- The payment request of an invoice, as it is stored: its number, total and times, its booking and
-- its payer, and one option, by credit card, with the page of the invoice at the host.
pub record IsRequestFor {TS : Type 0} (new_timestamp : Time → TS) (host : GoString) (i : Invoice)
    (p : PaymentRequest TS) : Type 0 where
  pub invoice_number : p.invoice_number ≡ i.invoice_number
  pub total : p.total ≡ some (record { amount = i.total.amount; currency = i.total.currency })
  pub issued_at : p.issued_at ≡ some (new_timestamp i.issued_at)
  pub expires_at : p.expires_at ≡ some (new_timestamp i.due_at)
  pub booking :
      p.booking
      ≡ some (record {
        cottage_name = i.booking.cottage_name;
        nights = i.booking.nights;
        number_of_guests = i.booking.number_of_guests;
      })
  pub payer : p.payer ≡ some (record { name = i.payer.name; email = i.payer.email })
  pub options :
      p.options
      ≡ some (record {
        method = method_credit_card;
        payment_url = host ++ (lit "/v1/payments/invoice/" ++ i.invoice_number);
        instructions = lit "Please use the following url to pay for your booking";
      })
        ∷ []

module _ {E TS : Type 0} (new_timestamp : Time → TS) (p : PaymentReissueService E) where
  -- The lookup that Reissue makes.
  abbrev pub looked_up : Option ReissuePaymentRequest → E → Outcome GoError Invoice
  looked_up r env =
      (p.invoice_repo.find_by_booking_number_and_document_number
        (Dto.ReissuePaymentRequest.get_booking_number r)
        (Dto.ReissuePaymentRequest.get_document_number r) env).0

  -- The outcome is a refusal with this code.
  abbrev pub RefusedWith : Code → Outcome Status (PaymentRequest TS) → Type 0
  RefusedWith code o = (message : GoString) × (o ≡ err (status_error code message))

  -- What Reissue answers to what its lookup has given.
  unfoldable pub Answers : Outcome GoError Invoice → Outcome Status (PaymentRequest TS) → Type 0
  Answers (ok i) o =
      ((equal_fold i.status (lit "paid") ≡ true) × RefusedWith failed_precondition o)
      ⊎ ((equal_fold i.status (lit "paid") ≡ false)
          × ((m : PaymentRequest TS) × (o ≡ ok m) × IsRequestFor new_timestamp p.payment_host i m))
  Answers (err e) o =
      ((error_as to_db_invoice_not_found e ≡ true) × RefusedWith not_found o)
      ⊎ ((error_as to_db_invoice_not_found e ≡ false) × RefusedWith internal o)
  Answers panicked o = o ≡ panicked

  build_payment_request-IsRequestFor :
      (host : GoString) (i : Invoice)
      → IsRequestFor new_timestamp host i (build_payment_request new_timestamp i host)
  unfolding build_payment_request payment_url
  build_payment_request-IsRequestFor host i = record {
    invoice_number = refl;
    total = refl;
    issued_at = refl;
    expires_at = refl;
    booking = refl;
    payer = refl;
    options = refl;
  }

  map_error-RefusedWith :
      (e : GoError) (o : Outcome Status (PaymentRequest TS))
      → o ≡ err (map_error e)
      → Answers (err e) o
  unfolding map_error Answers
  map_error-RefusedWith e o h = elim (Bool-cases (error_as to_db_invoice_not_found e)) [
    | inl t ↦ inl (t, (error_text e, ground (arith, h, t)))
    | inr f ↦ elim (Bool-cases (error_as to_db_corrupted_data e)) [
      | inl t ↦ inr (f, (lit "database returned corrupted invoice data", ground (arith, h, f, t)))
      | inr g ↦ inr (f, (error_text e, ground (arith, h, f, g)))
    ]
  ]

  -- Reissue stores nothing and publishes nothing, whatever it answers.
  pub reissue-trace :
      (r : Option ReissuePaymentRequest) (w : World E (Event TS))
      → (reissue new_timestamp p r w).1.trace ≡ w.trace
  unfolding reissue reissue_found
  reissue-trace r w = ground arith

  reissue_found-Answers :
      (r : Option ReissuePaymentRequest) (w : World E (Event TS))
      → validate (reissue_validator r) ≡ none
      → Answers (looked_up r w.env) (reissue new_timestamp p r w).0
  unfolding reissue reissue_found Answers status_paid
  reissue_found-Answers r w h =
      let o : Outcome Status (PaymentRequest TS) = (reissue new_timestamp p r w).0 in
      elim (Outcome-cases (looked_up r w.env)) [
        | is_ok i e ↦
            subst (λ l. Answers l o) (sym e)
              (elim (Bool-cases (equal_fold i.status (lit "paid"))) [
                | inl t ↦ inl (t, (lit "invoice is already paid", ground (arith, h, e, t)))
                | inr f ↦ inr (
                  f,
                  (
                    build_payment_request new_timestamp i p.payment_host,
                    ground (arith, h, e, f),
                    build_payment_request-IsRequestFor p.payment_host i,
                  ),
                )
              ])
        | is_err x e ↦
            subst (λ l. Answers l o) (sym e) (map_error-RefusedWith x o (ground (arith, h, e)))
        | is_panicked e ↦ subst (λ l. Answers l o) (sym e) (ground (arith, h, e))
      ]

  -- A request with a blank booking number or a blank document number is refused as an invalid
  -- argument, with nothing looked up. Any other request is answered from the invoice it names: with
  -- the payment request of that invoice as it is stored if it is unpaid, as a failed precondition if
  -- it is paid in any letter case, as not found if the repository has none, and as an internal error
  -- if the look-up has failed otherwise.
  pub reissue-answer :
      (r : Option ReissuePaymentRequest) (w : World E (Event TS))
      → (¬ IsAddressed r
          × ((message : GoString) × (reissue new_timestamp p r w
                ≡ (err (status_error invalid_argument message), w))))
        ⊎ (IsAddressed r × Answers (looked_up r w.env) (reissue new_timestamp p r w).0)
  unfolding reissue
  reissue-answer r w = elim (Option-cases (validate (reissue_validator r))) [
    | inr (e, h) ↦ inl (
      λ good. absurd (cc (h, (reissue_validator_iff r).1 good)),
      (error_text e, rw (h, reissue) refl),
    )
    | inl h ↦ inr ((reissue_validator_iff r).0 h, reissue_found-Answers r w h)
  ]
