-- ===== src/App/Init.antt =====
-- The constructors of the services, StartInvoiceProcessing, and internal/app/init.go.
pub mod Laws
use kenshu_elaris_project_pa.Base.{ℕ, Bool, true, false, Option, none, some, List, [], ◌∷◌, ◌++◌}
use kenshu_elaris_project_pa.Base.Int.{ℤ, pos, ltb_ℤ}
use kenshu_elaris_project_pa.Go.Text.{GoString, lit}
use kenshu_elaris_project_pa.Go.Call.{
  Outcome, ok, err, panicked, Act, Call, ◌>>=◌, pure, of_outcome,
}
use kenshu_elaris_project_pa.Errors.{GoError, constrain}
use kenshu_elaris_project_pa.Validation.{
  Value, reference, Validator, ◌▷◌, new_validator, not_blank, not_nil, validate,
}
use kenshu_elaris_project_pa.Port.{
  Clock, InvoiceRepo, ReceiptRepo, MqProducer, Acknowledger, Entropy, Timestamps, Codec, Event,
}
use kenshu_elaris_project_pa.Config.{Configs}
use kenshu_elaris_project_pa.App.Unmarshal.{Delivery}
use kenshu_elaris_project_pa.App.InvoiceService.{InvoiceService, process_deliveries}
use kenshu_elaris_project_pa.App.PaymentMaking.{PaymentMakingService}
use kenshu_elaris_project_pa.App.PaymentReissue.{PaymentReissueService}

-- The method Consume of port.MqConsumer, with the deliveries that its channel will hold.
pub record MqConsumer (E : Type 0) : Type 0 where
  pub consume : Act E GoError (List Delivery)

-- The packages that the services call.
pub record Packages (E TS : Type 0) : Type 0 where
  pub acknowledger : Acknowledger E
  pub entropy : Entropy E
  pub timestamps : Timestamps E TS
  pub codec : Codec TS

-- An interface value put into an `any`: a nil interface stays nil.
abbrev pub interface {ℓ} : {A : Type ℓ} → Option A → Option Value
interface none = none
interface (some a) = some (reference false)

-- The invoice service with its consumer.
pub record InvoiceProcessor (E TS : Type 0) : Type 0 where
  pub service : InvoiceService E TS
  pub invoice_consumer : MqConsumer E

pub record Services (E TS : Type 0) : Type 0 where
  pub payment_making : PaymentMakingService E TS
  pub payment_reissue : PaymentReissueService E
  pub invoice : InvoiceProcessor E TS

-- The fields of infra.Components that Init uses, each an interface.
pub record ComponentPorts (E TS : Type 0) : Type 0 where
  pub clock : Option (Clock E)
  pub invoice_repo : Option (InvoiceRepo E)
  pub receipt_repo : Option (ReceiptRepo E)
  pub payment_producer : Option (MqProducer E TS)
  pub guest_comm_producer : Option (MqProducer E TS)
  pub invoice_consumer : Option (MqConsumer E)

module _ {E TS : Type 0} (packages : Packages E TS) where
  -- The struct with these fields. A nil field is never reached: the check has refused it.
  unfoldable pub invoice_processor_of :
      Option (InvoiceRepo E)
      → Option (Clock E)
      → Option (MqConsumer E)
      → Option (MqProducer E TS)
      → GoString
      → Outcome GoError (InvoiceProcessor E TS)
  invoice_processor_of (some r) (some c) (some m) (some p) host = ok (record {
    service = record {
      clock = c;
      invoice_repo = r;
      payment_producer = p;
      payment_host = host;
      acknowledger = packages.acknowledger;
      entropy = packages.entropy;
      timestamps = packages.timestamps;
      codec = packages.codec;
    };
    invoice_consumer = m;
  })
  invoice_processor_of none c m p host = panicked
  invoice_processor_of (some r) none m p host = panicked
  invoice_processor_of (some r) (some c) none p host = panicked
  invoice_processor_of (some r) (some c) (some m) none host = panicked

  unfoldable pub new_invoice_service :
      Option (InvoiceRepo E)
      → Option (Clock E)
      → Option (MqConsumer E)
      → Option (MqProducer E TS)
      → GoString
      → Outcome GoError (InvoiceProcessor E TS)
  unfolding new_validator not_nil not_blank invoice_processor_of
  new_invoice_service invoice_repo clock invoice_consumer payment_producer payment_host =
      elim (validate (
        new_validator
        ▷ not_nil (lit "invoice_repo") (interface invoice_repo)
        ▷ not_nil (lit "clock") (interface clock)
        ▷ not_nil (lit "invoice_consumer") (interface invoice_consumer)
        ▷ not_nil (lit "payment_producer") (interface payment_producer)
        ▷ not_blank (lit "payment_host") payment_host)) [
          | some e ↦ err e
          | none ↦
              invoice_processor_of invoice_repo clock invoice_consumer payment_producer payment_host
        ]

  unfoldable pub payment_making_of :
      ℤ
      → Option (Clock E)
      → Option (InvoiceRepo E)
      → Option (ReceiptRepo E)
      → Option (MqProducer E TS)
      → Outcome GoError (PaymentMakingService E TS)
  payment_making_of fail_chance (some c) (some r) (some t) (some p) = ok (record {
    fail_chance = fail_chance;
    clock = c;
    invoice_repo = r;
    receipt_repo = t;
    payment_producer = p;
    entropy = packages.entropy;
    timestamps = packages.timestamps;
  })
  payment_making_of fail_chance none r t p = panicked
  payment_making_of fail_chance (some c) none t p = panicked
  payment_making_of fail_chance (some c) (some r) none p = panicked
  payment_making_of fail_chance (some c) (some r) (some t) none = panicked

  unfoldable pub new_payment_making_server :
      ℤ
      → Option (Clock E)
      → Option (InvoiceRepo E)
      → Option (ReceiptRepo E)
      → Option (MqProducer E TS)
      → Outcome GoError (PaymentMakingService E TS)
  unfolding new_validator not_nil payment_making_of
  new_payment_making_server fail_chance clock invoice_repo receipt_repo producer =
      elim (validate (
        new_validator
        ▷ not_nil (lit "clock") (interface clock)
        ▷ not_nil (lit "invoice_repo") (interface invoice_repo)
        ▷ not_nil (lit "receipt_repo") (interface receipt_repo)
        ▷ not_nil (lit "payment_producer") (interface producer))) [
          | some e ↦ err e
          | none ↦ elim (ltb_ℤ fail_chance (pos 0)) [
            | true ↦ err (constrain (lit "fail_chance") (lit "must be greater than or equal to 0"))
            | false ↦ payment_making_of fail_chance clock invoice_repo receipt_repo producer
          ]
        ]

unfoldable pub new_payment_reissue_service :
    {E : Type 0} → Option (InvoiceRepo E) → GoString → Outcome GoError (PaymentReissueService E)
unfolding new_validator not_nil not_blank
new_payment_reissue_service invoice_repo payment_host =
    elim (validate (
      new_validator
      ▷ not_nil (lit "invoice_repo") (interface invoice_repo)
      ▷ not_blank (lit "payment_host") payment_host)) [
        | some e ↦ err e
        | none ↦ elim invoice_repo [
          | none ↦ panicked
          | some r ↦ ok (record { invoice_repo = r; payment_host = payment_host })
        ]
      ]

module _ {E TS : Type 0} where
  -- What StartInvoiceProcessing does when Consume has come to an end: an error is logged, and ends it.
  unfoldable pub process_consumed :
      InvoiceProcessor E TS → Outcome GoError (List Delivery) → Call E (Event TS) GoError (Unit {0})
  process_consumed s (ok deliveries) = process_deliveries s.service deliveries
  process_consumed s (err e) = pure tt
  process_consumed s panicked = of_outcome panicked

  unfoldable pub start_invoice_processing :
      InvoiceProcessor E TS → Call E (Event TS) GoError (Unit {0})
  unfolding process_consumed
  start_invoice_processing s w =
      let (o, e) = s.invoice_consumer.consume w.env in process_consumed s o (record w { env = e })

  unfoldable pub init :
      Packages E TS → Configs → ComponentPorts E TS → Outcome GoError (Services E TS)
  init packages configs components =
      elim (new_payment_making_server packages
        configs.services.payment_making_card_config.fail_chance components.clock
        components.invoice_repo components.receipt_repo components.payment_producer) [
          | err e ↦ err e
          | panicked ↦ panicked
          | ok payment_making ↦
              elim (new_payment_reissue_service components.invoice_repo
                configs.services.payment_making_card_config.host) [
                  | err e ↦ err e
                  | panicked ↦ panicked
                  | ok payment_reissue ↦
                      elim (new_invoice_service packages components.invoice_repo components.clock
                        components.invoice_consumer components.guest_comm_producer
                        configs.services.payment_making_card_config.host) [
                          | err e ↦ err e
                          | panicked ↦ panicked
                          | ok invoice ↦ ok (record {
                            payment_making = payment_making;
                            payment_reissue = payment_reissue;
                            invoice = invoice;
                          })
                        ]
                ]
        ]
