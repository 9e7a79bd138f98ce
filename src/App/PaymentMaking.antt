-- ===== src/App/PaymentMaking.antt =====
-- internal/app/payment_making_service.go
pub mod Response
pub mod Payment
pub mod AfterPayment
pub mod Once
pub mod Liveness
pub mod Stored
pub mod Overlap
use kenshu_elaris_project_pa.Base.{
  ℕ, ◌-◌, true, false, Option, none, some, [], ◌++◌, length, drop, ltb, if◌then◌else◌,
}
use kenshu_elaris_project_pa.Base.Int.{ℤ, pos, ltb_ℤ}
use kenshu_elaris_project_pa.Go.Text.{GoString, lit, equal_fold}
use kenshu_elaris_project_pa.Go.Time.{Time}
use kenshu_elaris_project_pa.Go.Call.{
  Outcome, ok, err, panicked, Call, ◌>>=◌, ◌>>◌, pure, throw, of_outcome, perform, query, draw,
  map_err, catch,
}
use kenshu_elaris_project_pa.Errors.{
  GoError, error_text, error_as, app_already_exists, app_corrupted_data, app_unexpected,
  app_invoice_not_found, to_db_already_exists, to_db_corrupted_data, to_db_invoice_not_found,
}
use kenshu_elaris_project_pa.Validation.{
  Validator, uint, ◌▷◌, new_validator, not_blank, not_zero_value, validate,
}
use kenshu_elaris_project_pa.Document.Invoice.{Invoice, status_paid}
use kenshu_elaris_project_pa.Document.Receipt.{Receipt, new_receipt_from_proto_message}
use kenshu_elaris_project_pa.Port.{
  Clock, InvoiceRepo, ReceiptRepo, MqProducer, Entropy, Timestamps, Event, updated_status,
  added_receipt, published, payment_confirmation,
}
use kenshu_elaris_project_pa.App.Grpc.{
  Refusal, refused, bare, status_error, invalid_argument, internal, map_error, already_paid,
}
use kenshu_elaris_project_pa.App.Util.{generate_human_friendly_id}
use kenshu_elaris_project_pa.Dto
use kenshu_elaris_project_pa.Dto.Enums.{PaymentStatus, status_succeeded, status_failed}
use kenshu_elaris_project_pa.Dto.PayWithCardRequest.{PayWithCardRequest}
use kenshu_elaris_project_pa.Dto.PayWithCardResponse.{PayWithCardResponse}

-- `entropy` and `timestamps` are packages that the service calls, not fields of it.
pub record PaymentMakingService (E TS : Type 0) : Type 0 where
  pub fail_chance : ℤ
  pub clock : Clock E
  pub invoice_repo : InvoiceRepo E
  pub receipt_repo : ReceiptRepo E
  pub payment_producer : MqProducer E TS
  pub entropy : Entropy E
  pub timestamps : Timestamps E TS

-- The validation at the head of PayWithCard.
unfoldable pub card_validator : Option PayWithCardRequest → Validator
unfolding new_validator not_blank not_zero_value
card_validator req =
    let card = Dto.PayWithCardRequest.get_card req in
    new_validator
    ▷ not_blank (lit "invoice_number") (Dto.PayWithCardRequest.get_invoice_number req)
    ▷ not_blank (lit "card.number") (Dto.Card.get_number card)
    ▷ not_zero_value (lit "card.exp_month") (uint (Dto.Card.get_exp_month card))
    ▷ not_zero_value (lit "card.exp_year") (uint (Dto.Card.get_exp_year card))
    ▷ not_blank (lit "card.cvv") (Dto.Card.get_cvv card)
    ▷ not_blank (lit "card.holder_name") (Dto.Card.get_holder_name card)

-- `cardNumber[len(cardNumber)-4:]`, which panics on fewer than four bytes.
unfoldable pub last_four : GoString → Outcome GoError GoString
last_four s = if ltb (length s) 4 then panicked else ok (drop (length s - 4) s)

-- What a handler answers, and the goroutine that it starts: none, or the work after the payment.
pub record Answer (TS : Type 0) : Type 0 where
  pub response : PayWithCardResponse TS
  pub post_payment : Option (Time × PayWithCardResponse TS)

module _ {E TS : Type 0} (s : PaymentMakingService E TS) where
  unfoldable pub build_response :
      Option PayWithCardRequest
      → PaymentStatus
      → Time
      → Call E (Event TS) GoError (PayWithCardResponse TS)
  build_response req status now = do
    last4 ← of_outcome (last_four (Dto.Card.get_number (Dto.PayWithCardRequest.get_card req)))
    receipt_number ←
        map_err (app_unexpected (lit "failed to generate receipt number"))
          (generate_human_friendly_id s.entropy (lit "RCPT") now)
    processed_at ← draw s.timestamps.now
    pure (record {
      receipt_number = receipt_number;
      invoice_number = Dto.PayWithCardRequest.get_invoice_number req;
      status = status;
      card = some (record {
        brand = Dto.Card.get_brand (Dto.PayWithCardRequest.get_card req);
        last4 = last4;
      });
      processed_at = some processed_at;
    })

  -- The payment of an invoice that is not paid yet, after the draw of `n`.
  unfoldable pub pay_drawn :
      Option PayWithCardRequest → Time → ℕ → Call E (Event TS) Refusal (Answer TS)
  pay_drawn req now n = elim (ltb_ℤ (pos n) s.fail_chance) [
    | true ↦ do
      resp ← map_err bare (build_response req status_failed now)
      pure (record { response = resp; post_payment = none })
    | false ↦ do
      let number = Dto.PayWithCardRequest.get_invoice_number req
      map_err (λ e. refused (map_error e))
          (perform (updated_status number status_paid now)
            (s.invoice_repo.update_status number status_paid now))
      resp ←
          map_err (λ e. refused (status_error internal (error_text e)))
            (build_response req status_succeeded now)
      pure (record { response = resp; post_payment = some (now, resp) })
  ]

  -- The part of PayWithCard that follows the look-up of the invoice.
  unfoldable pub pay_found :
      Option PayWithCardRequest → Time → Invoice → Call E (Event TS) Refusal (Answer TS)
  unfolding pay_drawn
  pay_found req now invoice = elim (equal_fold invoice.status status_paid) [
    | true ↦ throw (refused already_paid)
    | false ↦ draw s.entropy.rand_int >>= pay_drawn req now
  ]

  unfoldable pub pay_with_card : Option PayWithCardRequest → Call E (Event TS) Refusal (Answer TS)
  unfolding pay_found
  pay_with_card req = elim (validate (card_validator req)) [
    | some e ↦ throw (refused (status_error invalid_argument (error_text e)))
    | none ↦ do
      now ← map_err (λ e. refused (status_error internal (error_text e))) (query s.clock.now)
      invoice ←
          map_err (λ e. refused (map_error e))
            (query (
              s.invoice_repo.find_by_invoice_number
                (Dto.PayWithCardRequest.get_invoice_number req)))
      pay_found req now invoice
  ]

  -- How saveReceipt reports an error of the repository.
  unfoldable pub receipt_error : GoError → GoError
  receipt_error e = elim (error_as to_db_already_exists e) [
    | true ↦ app_already_exists e
    | false ↦ elim (error_as to_db_corrupted_data e) [
      | true ↦ app_corrupted_data (lit "database returned corrupted receipt data") e
      | false ↦ app_unexpected (lit "unexpect error happened while saving receipt") e
    ]
  ]

  unfoldable pub save_receipt : PayWithCardResponse TS → Call E (Event TS) GoError Receipt
  unfolding receipt_error
  save_receipt resp = do
    receipt ←
        query
          (new_receipt_from_proto_message s.timestamps.as_time s.entropy.new_object_id (some resp))
    map_err receipt_error (perform (added_receipt receipt) (s.receipt_repo.add receipt))
    pure receipt

  -- How sendConfirmationMessage reports an error of the look-up.
  unfoldable pub lookup_error : GoError → GoError
  lookup_error e = elim (error_as to_db_invoice_not_found e) [
    | true ↦ app_invoice_not_found e
    | false ↦ elim (error_as to_db_corrupted_data e) [
      | true ↦ app_corrupted_data [] e
      | false ↦ app_unexpected (lit "unexpected error happened while getting invoice") e
    ]
  ]

  -- fmt.Sprintf("booking.%s.confirmation", bookingId)
  unfoldable pub confirmation_key : GoString → GoString
  confirmation_key booking_id = lit "booking." ++ (booking_id ++ lit ".confirmation")

  -- `uuid.New()` panics where uuid.NewRandom fails.
  unfoldable pub send_confirmation_message :
      Time → PayWithCardResponse TS → Call E (Event TS) GoError (Unit {0})
  unfolding lookup_error confirmation_key
  send_confirmation_message now resp = do
    invoice ←
        map_err lookup_error (query (s.invoice_repo.find_by_invoice_number resp.invoice_number))
    id ← catch (query s.entropy.new_random) (λ e. of_outcome panicked)
    let confirmation = payment_confirmation (record {
      id = id;
      booking_id = invoice.booking_id;
      payer_id = invoice.payer_id;
      invoice_number = invoice.invoice_number;
      receipt_number = resp.receipt_number;
      confirmed_at = some (s.timestamps.new now);
    })
    let key = confirmation_key invoice.booking_id
    map_err
        (app_unexpected
          (lit "unexpected error happened while publishing payment confirmation message"))
        (perform (published confirmation key) (s.payment_producer.publish confirmation key))

  -- The goroutine of PayWithCard; it logs the error that it ends with.
  unfoldable pub post_payment_work :
      Time → PayWithCardResponse TS → Call E (Event TS) GoError (Unit {0})
  post_payment_work now resp = do save_receipt resp; send_confirmation_message now resp
