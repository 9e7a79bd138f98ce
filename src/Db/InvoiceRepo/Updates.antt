-- ===== src/Db/InvoiceRepo/Updates.antt =====
-- Which updates and look-ups the invoice repository lets through to the collection.
use kenshu_elaris_project_pa.Base.{
  ◌&◌, ◌≡◌, refl, subst, ◌↔◌, ◌⊎◌, inl, inr, true, false, Bool-cases, none, [], ◌∷◌, Option-cases,
}
use kenshu_elaris_project_pa.Go.Text.{GoString, lit}
use kenshu_elaris_project_pa.Go.Time.{Time}
use kenshu_elaris_project_pa.Go.Call.{err}
use kenshu_elaris_project_pa.Errors.{GoError, constrain, error_as, to_constrain}
use kenshu_elaris_project_pa.Validation.{instant, is_zero, validate}
use kenshu_elaris_project_pa.Validation.Laws.{
  NotBlank, IsConstraint, validate-none_iff, validate-IsConstraint, blank_error_iff, zero_error_iff,
  blank_error-IsConstraint, zero_error-IsConstraint,
}
use kenshu_elaris_project_pa.Document.Invoice.{Invoice, is_valid_invoice_status}
use kenshu_elaris_project_pa.Db.Collection.{BsonM, text, time, Collection}
use kenshu_elaris_project_pa.Db.InvoiceRepo.{
  number_validator, update_validator, number_filter, find_outcome, find, find_by_invoice_number,
  update_outcome, update_status,
}

-- What the repository asks of an update.
pub record IsUpdate (invoice_number new_status : GoString) (updated_at : Time) : Type 0 where
  pub number : NotBlank invoice_number
  pub status : NotBlank new_status
  pub known_status : is_valid_invoice_status new_status ≡ true
  pub at : is_zero (instant updated_at) ≡ false

module _ (number status : GoString) (at : Time) where
  update_validator_iff :
      ((validate (update_validator number status at) ≡ none)
        × (is_valid_invoice_status status ≡ true))
      ↔ IsUpdate number status at
  unfolding update_validator
  update_validator_iff = (
    λ (e, known).
        let all = (validate-none_iff (update_validator number status at)).0 e in
        record {
          number = (blank_error_iff _ _).0 all.0;
          status = (blank_error_iff _ _).0 all.1.0;
          known_status = known;
          at = (zero_error_iff _ _).0 all.1.1.0;
        },
    λ u. (
      (validate-none_iff (update_validator number status at)).1 (
          (blank_error_iff _ _).1 u.number
          & (blank_error_iff _ _).1 u.status
          & (zero_error_iff _ _).1 u.at
          & tt),
      u.known_status,
    ),
  )

  update_validator-IsConstraint : IsConstraint (validate (update_validator number status at))
  unfolding update_validator
  update_validator-IsConstraint = validate-IsConstraint (update_validator number status at) (
      blank_error-IsConstraint _ _
      & blank_error-IsConstraint _ _
      & zero_error-IsConstraint _ _
      & tt)

number_validator-IsConstraint :
    (number : GoString) → IsConstraint (validate (number_validator number))
unfolding number_validator
number_validator-IsConstraint number =
    validate-IsConstraint (number_validator number) (blank_error-IsConstraint _ _ & tt)

number_validator_iff :
    (number : GoString) → (validate (number_validator number) ≡ none) ↔ NotBlank number
unfolding number_validator
number_validator_iff number = (
  λ e. (blank_error_iff _ _).0 ((validate-none_iff (number_validator number)).0 e).0,
  λ h. (validate-none_iff (number_validator number)).1 ((blank_error_iff _ _).1 h & tt),
)

module _ {E : Type 0} (c : Collection E Invoice) where
  -- UpdateStatus sets the status and the time of the invoice with the number, and reports what the
  -- collection answers, if neither the number, the status nor the time is missing and the status
  -- is pending or paid. It refuses any other update with an error for violated constraints, and the
  -- collection is not called.
  pub update_status-checked :
      (number status : GoString) (at : Time) (env : E)
      → (let fields : BsonM = (lit "status", text status) ∷ (lit "updated_at", time at) ∷ [] in
          let p = c.update_one (number_filter number) fields env in
          IsUpdate number status at
          × (update_status c number status at env ≡ (update_outcome c p.0, p.1)))
        ⊎ (¬ IsUpdate number status at
            × (e : GoError) × (update_status c number status at env ≡ (err e, env))
            × (error_as to_constrain e ≡ true))
  unfolding update_status error_as
  update_status-checked number status at env =
      elim (Option-cases (validate (update_validator number status at))) [
        | inr (e, h) ↦ inr (
          λ u. absurd (cc (h, ((update_validator_iff number status at).1 u).0)),
          e,
          rw (h, update_status) refl,
          subst IsConstraint h (update_validator-IsConstraint number status at),
        )
        | inl h ↦ elim (Bool-cases (is_valid_invoice_status status)) [
          | inl t ↦
              inl ((update_validator_iff number status at).0 (h, t), rw (h, t, update_status) refl)
          | inr f ↦ inr (
            λ u. absurd (cc (f, u.known_status)),
            constrain (lit "status") (lit "must be one of pending, paid"),
            rw (h, f, update_status) refl,
            refl,
          )
        ]
      ]

  -- FindByInvoiceNumber looks up a number that is not blank, once and by that number alone, and
  -- refuses a blank one with an error for a violated constraint and no look-up.
  pub find_by_invoice_number-checked :
      (number : GoString) (env : E)
      → (NotBlank number
          × (find_by_invoice_number c number env ≡ (
            find_outcome c (c.find_one (number_filter number) env).0,
            (c.find_one (number_filter number) env).1,
          )))
        ⊎ (¬ NotBlank number
            × (e : GoError) × (find_by_invoice_number c number env ≡ (err e, env))
            × (error_as to_constrain e ≡ true))
  unfolding find_by_invoice_number find
  find_by_invoice_number-checked number env =
      elim (Option-cases (validate (number_validator number))) [
        | inr (e, h) ↦ inr (
          λ n. absurd (cc (h, (number_validator_iff number).1 n)),
          e,
          rw (h, find_by_invoice_number) refl,
          subst IsConstraint h (number_validator-IsConstraint number),
        )
        | inl h ↦ inl ((number_validator_iff number).0 h, rw (h, find_by_invoice_number) refl)
      ]
