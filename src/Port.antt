-- ===== src/Port.antt =====
-- internal/port, and what the services use of other packages: a record of operations for each, on
-- an unknown state `E` of the outside. What only sets up or closes a connection is left out.
-- `TS` is the type of google.protobuf.Timestamp.
use kenshu_elaris_project_pa.Base.{ℕ, Bool, Option}
use kenshu_elaris_project_pa.Go.Text.{GoString}
use kenshu_elaris_project_pa.Go.Time.{Time}
use kenshu_elaris_project_pa.Go.Call.{Outcome, Act}
use kenshu_elaris_project_pa.Errors.{GoError}
use kenshu_elaris_project_pa.Document.Invoice.{ObjectId, Invoice}
use kenshu_elaris_project_pa.Document.Receipt.{Receipt}
use kenshu_elaris_project_pa.Dto.PaymentRequest.{PaymentRequest}
use kenshu_elaris_project_pa.Dto.PaymentConfirmation.{PaymentConfirmation}
use kenshu_elaris_project_pa.Dto.CreateInvoicePaymentRequest.{CreateInvoicePaymentRequest}

pub record Clock (E : Type 0) : Type 0 where
  pub now : Act E GoError Time

pub record InvoiceRepo (E : Type 0) : Type 0 where
  pub find_by_invoice_number : GoString → Act E GoError Invoice
  pub find_by_booking_number_and_document_number : GoString → GoString → Act E GoError Invoice
  pub update_status : GoString → GoString → Time → Act E GoError (Unit {0})
  pub add : Invoice → Act E GoError ObjectId

pub record ReceiptRepo (E : Type 0) : Type 0 where
  pub get_by_id : ObjectId → Act E GoError Receipt
  pub add : Receipt → Act E GoError ObjectId

-- The proto.Message values that the services publish.
pub data Message (TS : Type 0) : Type 0 where
  payment_request : PaymentRequest TS → Message TS
  payment_confirmation : PaymentConfirmation TS → Message TS

pub record MqProducer (E TS : Type 0) : Type 0 where
  pub publish : Message TS → GoString → Act E GoError (Unit {0})

-- The methods Ack and Nack of a delivery, by its tag.
pub record Acknowledger (E : Type 0) : Type 0 where
  pub ack : ℕ → Bool → Act E GoError (Unit {0})
  pub nack : ℕ → Bool → Bool → Act E GoError (Unit {0})

-- Random values and identifiers: uuid.NewRandom as the text of its result, crypto/rand.Read as the
-- bytes it fills, math/rand.Int, and bson.NewObjectID.
pub record Entropy (E : Type 0) : Type 0 where
  pub new_random : Act E GoError GoString
  pub read : ℕ → Act E GoError GoString
  pub rand_int : E → ℕ × E
  pub new_object_id : E → ObjectId × E

-- Package timestamppb: AsTime on a pointer, New, and Now, which reads the local clock.
pub record Timestamps (E TS : Type 0) : Type 0 where
  pub as_time : Option TS → Time
  pub new : Time → TS
  pub now : E → TS × E

-- proto.Unmarshal and protojson.Unmarshal into a CreateInvoicePaymentRequest, and the quoting of
-- fmt's verb %q, which only an error text uses.
pub record Codec (TS : Type 0) : Type 0 where
  pub proto_unmarshal : GoString → Outcome GoError (CreateInvoicePaymentRequest TS)
  pub protojson_unmarshal : GoString → Outcome GoError (CreateInvoicePaymentRequest TS)
  pub quote : GoString → GoString

-- A call of a service that may change what lies outside.
pub data Event (TS : Type 0) : Type 0 where
  added_invoice : Invoice → Event TS
  updated_status : GoString → GoString → Time → Event TS
  added_receipt : Receipt → Event TS
  published : Message TS → GoString → Event TS
  acked : ℕ → Bool → Event TS
  nacked : ℕ → Bool → Bool → Event TS
