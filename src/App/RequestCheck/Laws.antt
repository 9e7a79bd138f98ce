-- ===== src/App/RequestCheck/Laws.antt =====
-- The request of a valid invoice passes its checks.
use kenshu_elaris_project_pa.Base.{◌&◌, ◌≡◌, refl, ◌∙◌, true, Option, none, some, arith}
use kenshu_elaris_project_pa.Go.Text.{GoString, lit, is_blank}
use kenshu_elaris_project_pa.Go.Text.Laws.{has_solid, has_solid-append, not_blank_of_has_solid}
use kenshu_elaris_project_pa.Go.Time.{Time}
use kenshu_elaris_project_pa.Validation.{nil_error, validate}
use kenshu_elaris_project_pa.Validation.Laws.{
  NotBlank, validate-none_iff, blank_error_iff, positive_error_int_iff, precedence_error_iff,
}
use kenshu_elaris_project_pa.Document.Invoice.{Invoice}
use kenshu_elaris_project_pa.Document.Invoice.Laws.{IsValid}
use kenshu_elaris_project_pa.App.Mapper.{payment_url, build_payment_request}
use kenshu_elaris_project_pa.App.RequestCheck.{payment_request_validator}

url_path : has_solid (lit "/v1/payments/invoice/") ≡ true
unfolding has_solid lit
url_path = refl

-- A payment URL has the path of the endpoint, so it is not blank.
payment_url-NotBlank : (host number : GoString) → NotBlank (payment_url host number)
unfolding payment_url
payment_url-NotBlank host number = not_blank_of_has_solid _ (
    has_solid-append host _
    ∙ ground (arith, has_solid-append (lit "/v1/payments/invoice/") number, url_path))

instructions-NotBlank : NotBlank (lit "Please use the following url to pay for your booking")
unfolding lit is_blank
instructions-NotBlank = refl

module _ {TS : Type 0} (as_time : Option TS → Time) (new_timestamp : Time → TS)
    (as_time-new : (t : Time) → as_time (some (new_timestamp t)) ≡ t) where
  -- The payment request built from a valid invoice with a number passes every check of
  -- validatePaymentRequest, whatever the host, if AsTime gives back the time that New was given.
  pub payment_request_validator_passes :
      (i : Invoice) (host : GoString)
      → IsValid i
      → NotBlank i.invoice_number
      → validate
          (payment_request_validator as_time (some (build_payment_request new_timestamp i host)))
        ≡ none
  unfolding payment_request_validator build_payment_request nil_error
  payment_request_validator_passes i host v numbered =
      (validate-none_iff
          (payment_request_validator as_time (some (build_payment_request new_timestamp i host)))).1
        (refl
          & (blank_error_iff _ _).1 numbered
          & refl
          & (positive_error_int_iff _ _).1 v.total_amount
          & (blank_error_iff _ _).1 v.total_currency
          & refl
          & refl
          & refl
          & (blank_error_iff _ _).1 v.cottage_name
          & (positive_error_int_iff _ _).1 v.nights
          & (positive_error_int_iff _ _).1 v.number_of_guests
          & refl
          & (blank_error_iff _ _).1 v.payer_name
          & (blank_error_iff _ _).1 v.payer_email
          & (positive_error_int_iff _ _).1 refl
          & refl
          & (positive_error_int_iff _ _).1 refl
          & (blank_error_iff _ _).1 (payment_url-NotBlank host i.invoice_number)
          & (blank_error_iff _ _).1 instructions-NotBlank
          & (precedence_error_iff _ _).1
              (rw (as_time-new i.issued_at, as_time-new i.due_at) v.due_after_issue)
          & tt)
