-- ===== src/Tests/Fixtures.antt =====
-- Concrete data and a concrete world outside, on which the tests run: every call succeeds.
use kenshu_elaris_project_pa.Base.{refl, none, some, []}
use kenshu_elaris_project_pa.Base.Int.{ℤ, pos}
use kenshu_elaris_project_pa.Go.Text.{lit, is_blank}
use kenshu_elaris_project_pa.Go.Time.{Time}
use kenshu_elaris_project_pa.Go.Call.{World}
use kenshu_elaris_project_pa.Document.Invoice.{Invoice, status_pending}
use kenshu_elaris_project_pa.Document.Invoice.Laws.{IsValid}
use kenshu_elaris_project_pa.Port.{Event}
use kenshu_elaris_project_pa.App.Unmarshal.{Delivery}
use kenshu_elaris_project_pa.Dto
use kenshu_elaris_project_pa.Dto.Enums.{status_succeeded}
use kenshu_elaris_project_pa.Dto.CreateInvoicePaymentRequest.{CreateInvoicePaymentRequest}
use kenshu_elaris_project_pa.Dto.PayWithCardRequest.{PayWithCardRequest}
use kenshu_elaris_project_pa.Dto.PayWithCardResponse.{PayWithCardResponse}
use kenshu_elaris_project_pa.Dto.ReissuePaymentRequest.{ReissuePaymentRequest}

-- The outside has no state, and a timestamp is a time.
abbrev pub Env : Type 0
Env = Unit {0}

-- 2026-03-08T10:00:00Z
abbrev pub noon : Time
noon = pos 63908560800000000000

abbrev pub later : Time
later = pos 63909000000000000000

abbrev pub start : World Env (Event Time)
start = record { env = tt; trace = [] }

abbrev pub euros : ℤ → Dto.Money.Money
euros n = record { amount = n; currency = lit "EUR" }

abbrev pub guest : Dto.Payer.Payer
guest = record {
  name = lit "Ada";
  email = lit "a@b";
  document_number = lit "D1";
  billing_address = lit "Here";
}

abbrev pub stay : Dto.BookingSnapshot.BookingSnapshot
stay = record {
  cottage_name = lit "Oak";
  nights = pos 2;
  number_of_guests = pos 3;
  value_per_night = some (euros (pos 50));
}

abbrev pub order : CreateInvoicePaymentRequest Time
order = record {
  idempotency_key = lit "K1";
  booking_id = lit "B1";
  payer_id = lit "P1";
  issued_at = some noon;
  due_at = some later;
  payer = some guest;
  booking = some stay;
  total = some (euros (pos 100));
  tax_total = some (euros (pos 0));
  discount_total = some (euros (pos 0));
}

-- The same order with no payer.
abbrev pub anonymous_order : CreateInvoicePaymentRequest Time
anonymous_order = record order { payer = none }

abbrev pub bill : Invoice
bill = record {
  id = 0;
  invoice_number = lit "INV-1";
  status = lit "pending";
  issued_at = noon;
  due_at = later;
  idempotency_id = lit "K1";
  booking_id = lit "B1";
  payer_id = lit "P1";
  payer = record {
    name = lit "Ada";
    email = lit "a@b";
    document_number = lit "D1";
    billing_address = lit "Here";
  };
  booking = record {
    cottage_name = lit "Oak";
    nights = pos 2;
    number_of_guests = pos 3;
    value_per_night = record { amount = pos 50; currency = lit "EUR" };
  };
  total = record { amount = pos 100; currency = lit "EUR" };
  tax_total = record { amount = pos 0; currency = lit "EUR" };
  discount_total = record { amount = pos 0; currency = lit "EUR" };
  created_at = noon;
  updated_at = noon;
}

abbrev pub payment : PayWithCardRequest
payment = record {
  card = some (record {
    brand = lit "visa";
    number = lit "4111111111111234";
    exp_month = 5;
    exp_year = 2030;
    cvv = lit "123";
    holder_name = lit "Ada";
  });
  invoice_number = lit "INV-1";
}

-- A payment by a card whose number has three digits.
abbrev pub short_payment : PayWithCardRequest
short_payment = record payment {
  card = some (record {
    brand = lit "visa";
    number = lit "123";
    exp_month = 5;
    exp_year = 2030;
    cvv = lit "123";
    holder_name = lit "Ada";
  });
}

-- A payment by a card that names no brand.
abbrev pub brandless_payment : PayWithCardRequest
brandless_payment = record payment {
  card = some (record {
    brand = [];
    number = lit "4111111111111234";
    exp_month = 5;
    exp_year = 2030;
    cvv = lit "123";
    holder_name = lit "Ada";
  });
}

abbrev pub response : PayWithCardResponse Time
response = record {
  receipt_number = lit "RCPT-1";
  invoice_number = lit "INV-1";
  status = status_succeeded;
  card = some (record { brand = lit "visa"; last4 = lit "1234" });
  processed_at = some noon;
}

abbrev pub reissue_request : ReissuePaymentRequest
reissue_request = record { booking_number = lit "B1"; document_number = lit "D1" }

abbrev pub delivery : Delivery
delivery = record { delivery_tag = 7; content_type = lit "application/protobuf"; body = lit "x" }

pub bill-IsValid : IsValid bill
unfolding lit is_blank status_pending
bill-IsValid = record {
  pending = refl;
  idempotency_id = refl;
  booking_id = refl;
  payer_id = refl;
  payer_name = refl;
  payer_email = refl;
  document_number = refl;
  billing_address = refl;
  cottage_name = refl;
  nights = refl;
  number_of_guests = refl;
  value_amount = refl;
  value_currency = refl;
  total_amount = refl;
  total_currency = refl;
  tax_currency = refl;
  discount_currency = refl;
  due_after_issue = refl;
}
