-- ===== src/App/InvoiceService.antt =====
-- internal/app/invoice_service.go
pub mod Steps
pub mod Settlement
pub mod Success
pub mod Liveness
pub mod Rejection
pub mod Stream
use kenshu_elaris_project_pa.Base.{
  ℕ, zero, suc, Bool, true, false, not, ◌||◌, Option, none, some, List, [], ◌∷◌, ◌++◌, length,
  if◌then◌else◌,
}
use kenshu_elaris_project_pa.Base.Int.{ℤ, pos}
use kenshu_elaris_project_pa.Go.Text.{GoString, lit, text_eq, trim_space, to_lower, show_nat}
use kenshu_elaris_project_pa.Go.Time.{Time}
use kenshu_elaris_project_pa.Go.Call.{
  Outcome, ok, err, panicked, Call, ◌>>=◌, ◌>>◌, pure, throw, of_outcome, perform, query, map_err,
  catch,
}
use kenshu_elaris_project_pa.Errors.{
  GoError, foreign, error_as, app_already_exists, app_corrupted_data, app_unexpected, app_publish,
  to_app_already_exists, to_db_already_exists, to_constrain,
}
use kenshu_elaris_project_pa.Validation.{
  Validator, int, pointer, ◌▷◌, new_validator, not_blank, not_nil, positive_value, valid_precedence,
  validate,
}
use kenshu_elaris_project_pa.Document.Invoice.{ObjectId, Invoice, new_invoice_from_proto_message}
use kenshu_elaris_project_pa.Port.{
  Clock, InvoiceRepo, MqProducer, Acknowledger, Entropy, Timestamps, Codec, Event, added_invoice,
  published, acked, nacked, payment_request,
}
use kenshu_elaris_project_pa.App.RequestCheck.{payment_request_validator}
use kenshu_elaris_project_pa.App.Unmarshal.{Delivery, unmarshal_request}
use kenshu_elaris_project_pa.App.Util.{generate_human_friendly_id}
use kenshu_elaris_project_pa.App.Mapper.{build_payment_request}
use kenshu_elaris_project_pa.Dto
use kenshu_elaris_project_pa.Dto.CreateInvoicePaymentRequest.{CreateInvoicePaymentRequest}
use kenshu_elaris_project_pa.Dto.PaymentRequest.{PaymentRequest}
use kenshu_elaris_project_pa.Dto.PaymentOption.{PaymentOption}

-- The fields from `acknowledger` on are packages that the service calls, not fields of it.
pub record InvoiceService (E TS : Type 0) : Type 0 where
  pub clock : Clock E
  pub invoice_repo : InvoiceRepo E
  pub payment_producer : MqProducer E TS
  pub payment_host : GoString
  pub acknowledger : Acknowledger E
  pub entropy : Entropy E
  pub timestamps : Timestamps E TS
  pub codec : Codec TS

module _ {E TS : Type 0} (s : InvoiceService E TS) where
  unfoldable pub generate_invoice_doc :
      CreateInvoicePaymentRequest TS → Call E (Event TS) GoError Invoice
  generate_invoice_doc req = do
    now ← map_err (app_unexpected (lit "failed to get current time")) (query s.clock.now)
    invoice_number ←
        map_err (app_unexpected (lit "failed to generate invoice number"))
          (generate_human_friendly_id s.entropy (lit "INV") now)
    map_err (app_corrupted_data (lit "could not create invoice document from request")) (
        of_outcome
          (new_invoice_from_proto_message s.timestamps.as_time (some req) invoice_number now))

  -- How saveInvoice reports an error of the repository.
  unfoldable pub save_error : GoError → GoError
  save_error e = elim (error_as to_db_already_exists e) [
    | true ↦ app_already_exists e
    | false ↦ app_unexpected (lit "failed to add invoice") e
  ]

  unfoldable pub save_invoice : Invoice → Call E (Event TS) GoError ObjectId
  unfolding save_error
  save_invoice invoice =
      map_err save_error (perform (added_invoice invoice) (s.invoice_repo.add invoice))

  -- fmt.Sprintf("%s%s", "guest.", payerId)
  unfoldable pub guest_key : GoString → GoString
  guest_key payer_id = lit "guest." ++ payer_id

  unfoldable pub publish_payment_request : Invoice → Call E (Event TS) GoError (Unit {0})
  unfolding guest_key
  publish_payment_request invoice =
      let req = build_payment_request s.timestamps.new invoice s.payment_host in
      let key = guest_key invoice.payer_id in
      elim (validate (payment_request_validator s.timestamps.as_time (some req))) [
        | some e ↦ throw e
        | none ↦
            map_err
              (app_publish (
                lit "failed to publish paymentRequest; routingKey: "
                ++ (key ++ (lit "; invoiceNumber: " ++ req.invoice_number))))
              (perform (published (payment_request req) key)
                (s.payment_producer.publish (payment_request req) key))
      ]

  -- The error of Nack is only logged.
  unfoldable pub nack : Delivery → Bool → Bool → Call E (Event TS) GoError (Unit {0})
  nack delivery multiple requeue =
      catch
        (perform (nacked delivery.delivery_tag multiple requeue)
          (s.acknowledger.nack delivery.delivery_tag multiple requeue))
        (λ e. pure tt)

  -- `if err != nil { s.nack(ctx, delivery, false, requeue(err)); return err }`
  unfoldable pub or_nack :
      {A : Type 0}
      → Delivery
      → (GoError → Bool)
      → Call E (Event TS) GoError A
      → Call E (Event TS) GoError A
  unfolding nack
  or_nack delivery requeue m = catch m (λ e. nack delivery false (requeue e) >> throw e)

  -- processInvoiceDelivery after the publication.
  unfoldable pub acknowledge : Delivery → Call E (Event TS) GoError (Unit {0})
  acknowledge delivery =
      perform (acked delivery.delivery_tag false) (s.acknowledger.ack delivery.delivery_tag false)

  -- processInvoiceDelivery after the invoice is saved: a request that fails its checks is dropped,
  -- and one that could not be published is tried again.
  unfoldable pub publish_and_settle : Delivery → Invoice → Call E (Event TS) GoError (Unit {0})
  publish_and_settle delivery invoice = do
    or_nack delivery (λ e. not (error_as to_constrain e)) (publish_payment_request invoice)
    acknowledge delivery

  -- processInvoiceDelivery after the invoice is made: an invoice that exists already is dropped,
  -- and one that could not be saved is tried again.
  unfoldable pub save_and_settle : Delivery → Invoice → Call E (Event TS) GoError (Unit {0})
  save_and_settle delivery invoice = do
    or_nack delivery (λ e. not (error_as to_app_already_exists e)) (save_invoice invoice)
    publish_and_settle delivery invoice

  -- processInvoiceDelivery after the body is decoded.
  unfoldable pub generate_and_settle :
      Delivery → CreateInvoicePaymentRequest TS → Call E (Event TS) GoError (Unit {0})
  generate_and_settle delivery req = do
    invoice ← or_nack delivery (λ e. false) (generate_invoice_doc req)
    save_and_settle delivery invoice

  unfoldable pub process_invoice_delivery : Delivery → Call E (Event TS) GoError (Unit {0})
  unfolding generate_and_settle save_and_settle publish_and_settle acknowledge
  process_invoice_delivery delivery = do
    req ← or_nack delivery (λ e. false) (of_outcome (unmarshal_request s.codec delivery))
    generate_and_settle delivery req

  -- The loop of StartInvoiceProcessing over the deliveries of the channel: an error is logged, and
  -- a panic ends the program.
  unfoldable pub process_deliveries : List Delivery → Call E (Event TS) GoError (Unit {0})
  process_deliveries [] = pure tt
  process_deliveries (delivery ∷ deliveries) =
      catch (process_invoice_delivery delivery) (λ e. pure tt) >> process_deliveries deliveries
