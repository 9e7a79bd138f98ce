-- ===== src/Infra/Ports.antt =====
-- The values of internal/infra as the ports that the services call, over the state of the program.
use kenshu_elaris_project_pa.Base.{ℕ, Option, some}
use kenshu_elaris_project_pa.Go.Text.{GoString}
use kenshu_elaris_project_pa.Go.Time.{Time}
use kenshu_elaris_project_pa.Go.Call.{World}
use kenshu_elaris_project_pa.Document.Invoice.{Invoice}
use kenshu_elaris_project_pa.Document.Receipt.{Receipt}
use kenshu_elaris_project_pa.Port.{Clock, InvoiceRepo, ReceiptRepo, MqProducer}
use kenshu_elaris_project_pa.Db.Collection.{Collection}
use kenshu_elaris_project_pa.Db
use kenshu_elaris_project_pa.Mq.Producer.{Encoding, publish}
use kenshu_elaris_project_pa.Mq.Consumer.{consume}
use kenshu_elaris_project_pa.App.Init.{MqConsumer, Packages, ComponentPorts}
use kenshu_elaris_project_pa.Infra.Clock.{clock_port}
use kenshu_elaris_project_pa.Infra.Outside.{InfraEvent}
use kenshu_elaris_project_pa.Infra.System.{
  System, on_payment_producer, on_guest_comm_producer, on_invoice_consumer,
}
use kenshu_elaris_project_pa.Infra.Init.{Drivers, Components}

-- The state of the program with the calls of its infrastructure so far.
abbrev pub Running : Type 0 → Type 0
Running E = World (System E) InfraEvent

module _ {E A : Type 0} where
  -- What is done with the outside alone.
  abbrev pub outside : (E → A × E) → Running E → A × Running E
  outside act w =
      let (a, e) = act w.env.outside in (a, record w { env = record w.env { outside = e } })

abbrev pub outside_collection : {E D : Type 0} → Collection E D → Collection (Running E) D
outside_collection c = record {
  find_one = λ filter. outside (c.find_one filter);
  insert_one = λ d. outside (c.insert_one d);
  update_one = λ filter update. outside (c.update_one filter update);
  err_no_documents = c.err_no_documents;
}

-- The repositories of a collection, as the ports.
unfoldable pub invoice_repo_of : {E : Type 0} → Collection E Invoice → InvoiceRepo E
invoice_repo_of c = record {
  find_by_invoice_number = Db.InvoiceRepo.find_by_invoice_number c;
  find_by_booking_number_and_document_number =
      Db.InvoiceRepo.find_by_booking_number_and_document_number c;
  update_status = Db.InvoiceRepo.update_status c;
  add = Db.InvoiceRepo.add c;
}

unfoldable pub receipt_repo_of : {E : Type 0} → Collection E Receipt → ReceiptRepo E
receipt_repo_of c = record { get_by_id = Db.ReceiptRepo.get_by_id c; add = Db.ReceiptRepo.add c }

-- The packages that the services call act on the outside alone.
abbrev pub outside_packages : {E TS : Type 0} → Packages E TS → Packages (Running E) TS
outside_packages p = record {
  acknowledger = record {
    ack = λ tag multiple. outside (p.acknowledger.ack tag multiple);
    nack = λ tag multiple requeue. outside (p.acknowledger.nack tag multiple requeue);
  };
  entropy = record {
    new_random = outside p.entropy.new_random;
    read = λ n. outside (p.entropy.read n);
    rand_int = outside p.entropy.rand_int;
    new_object_id = outside p.entropy.new_object_id;
  };
  timestamps = record {
    as_time = p.timestamps.as_time;
    new = p.timestamps.new;
    now = outside p.timestamps.now;
  };
  codec = p.codec;
}

-- The method Collection of a client's database, by the client, the database and the name; and what
-- package proto, the propagator and the local clock give to Publish.
pub record Packaging (E TS : Type 0) : Type 0 where
  pub invoices : ℕ × GoString × GoString → Collection E Invoice
  pub receipts : ℕ × GoString × GoString → Collection E Receipt
  pub encoding : Encoding E TS
  pub as_time : Option TS → Time

module _ {E TS : Type 0} (drivers : Drivers E TS) (packaging : Packaging E TS) where
  unfoldable pub clock_of : Components → Clock (Running E)
  clock_of components =
      let clock = clock_port drivers.grpc packaging.as_time components.clock in
      record { now = outside clock.now }

  unfoldable pub payment_producer_port : MqProducer (Running E) TS
  payment_producer_port = record {
    publish =
        λ message key. on_payment_producer (publish drivers.amqp packaging.encoding message key);
  }

  unfoldable pub guest_comm_producer_port : MqProducer (Running E) TS
  guest_comm_producer_port = record {
    publish =
        λ message key. on_guest_comm_producer (publish drivers.amqp packaging.encoding message key);
  }

  unfoldable pub invoice_consumer_port : MqConsumer (Running E)
  invoice_consumer_port = record { consume = on_invoice_consumer (consume drivers.amqp) }

  -- The fields of Components, none of which is nil.
  unfoldable pub ports_of : Components → ComponentPorts (Running E) TS
  ports_of components = record {
    clock = some (clock_of components);
    invoice_repo =
        some (invoice_repo_of (outside_collection (packaging.invoices components.invoice_repo)));
    receipt_repo =
        some (receipt_repo_of (outside_collection (packaging.receipts components.receipt_repo)));
    payment_producer = some payment_producer_port;
    guest_comm_producer = some guest_comm_producer_port;
    invoice_consumer = some invoice_consumer_port;
  }
