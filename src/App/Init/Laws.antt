-- ===== src/App/Init/Laws.antt =====
-- internal/app/init.go: when the services are built, and what StartInvoiceProcessing answers.
use mathlib.Core.List.{append-nil}
use kenshu_elaris_project_pa.Base.{
  ◌≡◌, ◌↔◌, ◌≢◌, sym, ap, ◌∙◌, inl, inr, Bool-cases, true, false, some, List, [], ◌++◌, map, arith,
}
use kenshu_elaris_project_pa.Base.Int.{ℤ, ltb_ℤ, pos}
use kenshu_elaris_project_pa.Go.Call.{Outcome, World, ok, err, panicked}
use kenshu_elaris_project_pa.Errors.{GoError}
use kenshu_elaris_project_pa.Validation.{
  validate, nil_error, is_nil, blank_error, new_validator, not_nil, not_blank,
}
use kenshu_elaris_project_pa.Go.Text.{GoString, is_blank}
use kenshu_elaris_project_pa.Validation.Laws.{NotBlank}
use kenshu_elaris_project_pa.Port.{Clock, InvoiceRepo, ReceiptRepo, MqProducer, Event}
use kenshu_elaris_project_pa.Config.{Configs}
use kenshu_elaris_project_pa.App.Unmarshal.{Delivery}
use kenshu_elaris_project_pa.App.InvoiceService.Stream.{answered, process_deliveries-answered}
use kenshu_elaris_project_pa.App.Init.{
  Packages, InvoiceProcessor, process_consumed, start_invoice_processing, MqConsumer,
  ComponentPorts, Services, init, new_payment_making_server, new_payment_reissue_service,
  new_invoice_service, payment_making_of, invoice_processor_of,
}

module _ {E TS : Type 0} (packages : Packages E TS) where
  -- The ports of components that are all there.
  abbrev pub all_ports :
      Clock E
      → InvoiceRepo E
      → ReceiptRepo E
      → MqProducer E TS
      → MqProducer E TS
      → MqConsumer E
      → ComponentPorts E TS
  all_ports c i r p g m = record {
    clock = some c;
    invoice_repo = some i;
    receipt_repo = some r;
    payment_producer = some p;
    guest_comm_producer = some g;
    invoice_consumer = some m;
  }

  -- The services that these ports give.
  abbrev pub services_of :
      Configs
      → Clock E
      → InvoiceRepo E
      → ReceiptRepo E
      → MqProducer E TS
      → MqProducer E TS
      → MqConsumer E
      → Services E TS
  services_of configs c i r p g m = record {
    payment_making = record {
      fail_chance = configs.services.payment_making_card_config.fail_chance;
      clock = c;
      invoice_repo = i;
      receipt_repo = r;
      payment_producer = p;
      entropy = packages.entropy;
      timestamps = packages.timestamps;
    };
    payment_reissue = record {
      invoice_repo = i;
      payment_host = configs.services.payment_making_card_config.host;
    };
    invoice = record {
      service = record {
        clock = c;
        invoice_repo = i;
        payment_producer = g;
        payment_host = configs.services.payment_making_card_config.host;
        acknowledger = packages.acknowledger;
        entropy = packages.entropy;
        timestamps = packages.timestamps;
        codec = packages.codec;
      };
      invoice_consumer = m;
    };
  }

  abbrev pub chance : Configs → ℤ
  chance configs = configs.services.payment_making_card_config.fail_chance

  abbrev pub host : Configs → GoString
  host configs = configs.services.payment_making_card_config.host

  init_negative :
      (configs : Configs) (c : Clock E) (i : InvoiceRepo E) (r : ReceiptRepo E)
      (p g : MqProducer E TS) (m : MqConsumer E) (s : Services E TS)
      → ltb_ℤ (chance configs) (pos 0) ≡ true
      → init packages configs (all_ports c i r p g m) ≢ ok s
  unfolding init new_payment_making_server new_payment_reissue_service new_invoice_service validate
      nil_error is_nil blank_error payment_making_of invoice_processor_of new_validator not_nil
      not_blank
  init_negative configs c i r p g m s h = ground (arith, h)

  init_blank :
      (configs : Configs) (c : Clock E) (i : InvoiceRepo E) (r : ReceiptRepo E)
      (p g : MqProducer E TS) (m : MqConsumer E) (s : Services E TS)
      → ltb_ℤ (chance configs) (pos 0) ≡ false
      → is_blank (host configs) ≡ true
      → init packages configs (all_ports c i r p g m) ≢ ok s
  unfolding init new_payment_making_server new_payment_reissue_service new_invoice_service validate
      nil_error is_nil blank_error payment_making_of invoice_processor_of new_validator not_nil
      not_blank
  init_blank configs c i r p g m s h b = ground (arith, h, b)

  init_built :
      (configs : Configs) (c : Clock E) (i : InvoiceRepo E) (r : ReceiptRepo E)
      (p g : MqProducer E TS) (m : MqConsumer E)
      → ltb_ℤ (chance configs) (pos 0) ≡ false
      → is_blank (host configs) ≡ false
      → init packages configs (all_ports c i r p g m) ≡ ok (services_of configs c i r p g m)
  unfolding init new_payment_making_server new_payment_reissue_service new_invoice_service validate
      nil_error is_nil blank_error payment_making_of invoice_processor_of new_validator not_nil
      not_blank
  init_built configs c i r p g m h b = ground (arith, h, b)

  pub init-ok :
      (configs : Configs) (c : Clock E) (i : InvoiceRepo E) (r : ReceiptRepo E)
      (p g : MqProducer E TS) (m : MqConsumer E) (s : Services E TS)
      → init packages configs (all_ports c i r p g m) ≡ ok s
      → (ltb_ℤ (chance configs) (pos 0) ≡ false) × NotBlank (host configs)
  init-ok configs c i r p g m s e = elim (Bool-cases (ltb_ℤ (chance configs) (pos 0))) [
    | inl h ↦ absurd (init_negative configs c i r p g m s h e)
    | inr h ↦ elim (Bool-cases (is_blank (host configs))) [
      | inl b ↦ absurd (init_blank configs c i r p g m s h b e)
      | inr b ↦ (h, b)
    ]
  ]

  -- With all components there, Init of the application returns services exactly if the failure
  -- chance of the configuration is not negative and the host of the payments is not blank. What it
  -- returns is then these services: the two payment services and the invoice service share the
  -- repository of invoices, the failure chance is the configured one, the invoice service publishes
  -- to guests and the payment making service to the payments' producer.
  pub init_iff :
      (configs : Configs) (c : Clock E) (i : InvoiceRepo E) (r : ReceiptRepo E)
      (p g : MqProducer E TS) (m : MqConsumer E) (s : Services E TS)
      → (init packages configs (all_ports c i r p g m) ≡ ok s) ↔ (
          (ltb_ℤ configs.services.payment_making_card_config.fail_chance (pos 0) ≡ false)
          × NotBlank configs.services.payment_making_card_config.host
          × (s ≡ services_of configs c i r p g m))
  init_iff configs c i r p g m s = (
    λ e.
        let (chanced, hosted) = init-ok configs c i r p g m s e in
        (chanced, hosted, cc (e, init_built configs c i r p g m chanced hosted)),
    λ q. cc (init_built configs c i r p g m q.0 q.1, q.2),
  )

module _ {E TS : Type 0} (s : InvoiceProcessor E TS) where
  -- The deliveries of a channel that Consume has given; none if it has failed.
  abbrev pub delivered : Outcome GoError (List Delivery) → List Delivery
  delivered (ok ds) = ds
  delivered (err x) = []
  delivered panicked = []

  process_consumed-answered :
      (o : Outcome GoError (List Delivery)) (w w' : World E (Event TS))
      → process_consumed s o w ≡ (ok tt, w')
      → answered w'.trace ≡ answered w.trace ++ map (λ d. d.delivery_tag) (delivered o)
  unfolding process_consumed
  process_consumed-answered (ok ds) w w' h = process_deliveries-answered s.service ds w w' h
  process_consumed-answered (err x) w w' h =
      ap (λ p. answered p.1.trace) (sym h) ∙ sym (append-nil (answered w.trace))
  process_consumed-answered panicked w w' h = cc

  -- If StartInvoiceProcessing ends with no panic, it has answered each delivery of the channel that
  -- Consume has given exactly once, by an acknowledgement or a refusal, in order; if Consume has
  -- failed, it has answered none.
  pub start_invoice_processing-answered :
      (w w' : World E (Event TS))
      → start_invoice_processing s w ≡ (ok tt, w')
      → answered w'.trace
        ≡ answered w.trace
          ++ map (λ d. d.delivery_tag) (delivered (s.invoice_consumer.consume w.env).0)
  unfolding start_invoice_processing
  start_invoice_processing-answered w w' h =
      process_consumed-answered (s.invoice_consumer.consume w.env).0
        (record w { env = (s.invoice_consumer.consume w.env).1 }) w' h
