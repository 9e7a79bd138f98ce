-- ===== src/Tests/Payments.antt =====
-- Payments by card, and the work after them.
use kenshu_elaris_project_pa.App.Util.{generate_human_friendly_id, suffix_from}
use kenshu_elaris_project_pa.Validation.{validate, blank_error, zero_error, nil_error}
use kenshu_elaris_project_pa.Base.{
  ◌≢◌, subst, sym, ap, ◌≡◌, ◌⊎◌, refl, some, List, [], ◌∷◌, ◌++◌, length, take, ◌-◌, arith, Option,
  none,
}
use kenshu_elaris_project_pa.Go.Text.{lit, equal_fold, is_blank, remove_byte, GoString}
use kenshu_elaris_project_pa.Go.Time.{Time, format_date}
use kenshu_elaris_project_pa.Go.Call.{err, panicked, World, Outcome, ok}
use kenshu_elaris_project_pa.Errors.{GoError}
use kenshu_elaris_project_pa.Document.Invoice.{Invoice, status_paid}
use kenshu_elaris_project_pa.Document.Receipt.{
  Receipt, receipt_of_response, new_receipt_from_proto_message, response_validator,
}
use kenshu_elaris_project_pa.Document.Receipt.Laws.{IsComplete}
use kenshu_elaris_project_pa.Port.{
  Event, added_receipt, updated_status, published, payment_confirmation,
}
use kenshu_elaris_project_pa.App.PaymentMaking.{
  Answer, pay_with_card, post_payment_work, last_four, card_validator, build_response, save_receipt,
  send_confirmation_message,
}
use kenshu_elaris_project_pa.App.PaymentMaking.Response.{last_four-ok}
use kenshu_elaris_project_pa.App.PaymentMaking.Payment.{
  Answered, IsPrepared, pay_with_card-Answered, pay_with_card-trace, pay_with_card_short_number,
}
use kenshu_elaris_project_pa.App.PaymentMaking.AfterPayment.{
  IsFollowedUp, post_payment_work-ok, pay_with_card_blank_brand,
}
use kenshu_elaris_project_pa.Dto.PaymentConfirmation.{PaymentConfirmation}
use kenshu_elaris_project_pa.Tests.Fixtures.{
  Env, noon, start, bill, payment, short_payment, brandless_payment, response,
}
use kenshu_elaris_project_pa.App.PaymentMaking.Once.{KeepsStatus, pay_with_card_once}
use kenshu_elaris_project_pa.Tests.Services.{ledger, payments, as_time}

last_four-ok_example :
    (length (lit "1234") ≡ 4)
    × (take (length (lit "991234") - 4) (lit "991234") ++ lit "1234" ≡ lit "991234")
unfolding last_four lit
last_four-ok_example = last_four-ok (lit "991234") (lit "1234") refl

abbrev paid_bill : Invoice
paid_bill = record bill { status = lit "PAID" }

-- The answer to the payment.
abbrev pub paid : Answer Time
paid =
    let resp = record response { receipt_number = lit "RCPT-20260308-bcdabc" } in
    record { response = resp; post_payment = some (noon, resp) }

abbrev brandless : Answer Time
brandless =
    let resp = record response {
      receipt_number = lit "RCPT-20260308-bcdabc";
      card = some (record { brand = []; last4 = lit "1234" });
    } in
    record { response = resp; post_payment = some (noon, resp) }

-- The state after an event.
abbrev pub after : List (Event Time) → World Env (Event Time)
after events = record { env = tt; trace = events }

abbrev pub becomes_paid : Event Time
becomes_paid = updated_status (lit "INV-1") (lit "paid") noon

pay_with_card-Answered_example :
    (now : Time) × (env : Env) × IsPrepared (payments bill) (some payment) tt now env
    × Answered (payments bill) (some payment) now tt [] paid (becomes_paid ∷ [])
unfolding pay_with_card lit validate card_validator blank_error is_blank zero_error equal_fold
    status_paid build_response last_four generate_human_friendly_id suffix_from remove_byte
    format_date
pay_with_card-Answered_example =
    pay_with_card-Answered (payments bill) (some payment) start (after (becomes_paid ∷ [])) paid
      refl

pay_with_card-trace_example :
    ((pay_with_card (payments bill) (some payment) start).1.trace ≡ [])
    ⊎ ((now : Time) × ((pay_with_card (payments bill) (some payment) start).1.trace
          ≡ updated_status (lit "INV-1") status_paid now ∷ []))
pay_with_card-trace_example = pay_with_card-trace (payments bill) (some payment) start

pay_with_card_short_number_example :
    pay_with_card (payments bill) (some short_payment) start
    ≡ (panicked, after (updated_status (lit "INV-1") status_paid noon ∷ []))
unfolding equal_fold lit validate card_validator blank_error is_blank zero_error status_paid
pay_with_card_short_number_example =
    pay_with_card_short_number (payments bill) (some short_payment) start refl refl refl
      (ground arith) refl refl refl

pay_with_card_blank_brand_example :
    (e : GoError) × (post_payment_work (payments bill) noon brandless.response start
      ≡ (err e, start))
unfolding pay_with_card lit validate card_validator blank_error is_blank zero_error equal_fold
    status_paid build_response last_four generate_human_friendly_id suffix_from remove_byte
    format_date
pay_with_card_blank_brand_example =
    pay_with_card_blank_brand (payments bill) (some brandless_payment) start
      (after (becomes_paid ∷ [])) brandless refl refl noon start

-- The work after the payment, as it runs.
abbrev stored_receipt : Receipt
stored_receipt = receipt_of_response as_time 9 (some response)

abbrev confirmation : PaymentConfirmation Time
confirmation = record {
  id = lit "ab-cd";
  booking_id = lit "B1";
  payer_id = lit "P1";
  invoice_number = lit "INV-1";
  receipt_number = lit "RCPT-1";
  confirmed_at = some noon;
}

abbrev receipt_and_confirmation : List (Event Time)
receipt_and_confirmation =
    added_receipt stored_receipt
    ∷ published (payment_confirmation confirmation) (lit "booking.B1.confirmation")
    ∷ []

post_payment_work-ok_example :
    IsComplete (some response)
    × IsFollowedUp (payments bill) response noon start (after receipt_and_confirmation)
unfolding post_payment_work lit save_receipt new_receipt_from_proto_message validate
    response_validator nil_error blank_error is_blank send_confirmation_message
post_payment_work-ok_example =
    post_payment_work-ok (payments bill) response noon start (after receipt_and_confirmation) refl

-- The state of the ledger: its invoice's status.
abbrev status_in : GoString → GoString → Option GoString
status_in e n = some e

abbrev status_found : {E : Type 0} → Outcome GoError Invoice × E → Option GoString
status_found (ok i, e) = some i.status
status_found (err x, e) = none
status_found (panicked, e) = none

ledger-KeepsStatus : KeepsStatus ledger status_in
ledger-KeepsStatus = record {
  now = λ e. refl;
  new_random = λ e. refl;
  read = λ n e. refl;
  rand_int = λ e. refl;
  timestamp = λ e. refl;
  found = λ n e e' i h. ap status_found h;
  updated = λ n st t e e' h. sym (ap (λ o. some o.1) h);
}

-- The ledger before and after the payment of its invoice.
abbrev unpaid_ledger : World GoString (Event Time)
unpaid_ledger = record { env = lit "pending"; trace = [] }

abbrev paid_ledger : World GoString (Event Time)
paid_ledger = record { env = lit "paid"; trace = becomes_paid ∷ [] }

abbrev IsStarted : {A : Type 0} → Option A → Type 0
IsStarted none = ⊥
IsStarted (some a) = Unit

pay_with_card_once_example :
    pay_with_card ledger (some payment) paid_ledger ≢ (ok paid, paid_ledger)
unfolding pay_with_card lit validate card_validator blank_error is_blank zero_error equal_fold
    status_paid build_response last_four generate_human_friendly_id suffix_from remove_byte
    format_date
pay_with_card_once_example =
    pay_with_card_once ledger status_in ledger-KeepsStatus (some payment) (some payment)
      unpaid_ledger paid_ledger paid_ledger paid_ledger paid paid refl (λ e. subst IsStarted e tt)
      refl refl
