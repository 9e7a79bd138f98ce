-- ===== src/App/Mapper.antt =====
-- internal/app/payment_request_mapper.go
use kenshu_elaris_project_pa.Base.{some, [], ◌∷◌, ◌++◌}
use kenshu_elaris_project_pa.Go.Text.{GoString, lit}
use kenshu_elaris_project_pa.Go.Time.{Time}
use kenshu_elaris_project_pa.Document.Invoice.{Invoice}
use kenshu_elaris_project_pa.Dto.Enums.{method_credit_card}
use kenshu_elaris_project_pa.Dto.PaymentRequest.{PaymentRequest}

-- The page where an invoice is paid.
unfoldable pub payment_url : GoString → GoString → GoString
payment_url host invoice_number = host ++ (lit "/v1/payments/invoice/" ++ invoice_number)

-- buildPaymentRequest; `new_timestamp` is timestamppb.New.
unfoldable pub build_payment_request :
    {TS : Type 0} → (Time → TS) → Invoice → GoString → PaymentRequest TS
unfolding payment_url
build_payment_request new_timestamp invoice host = record {
  invoice_number = invoice.invoice_number;
  description = [];
  total = some (record { amount = invoice.total.amount; currency = invoice.total.currency });
  issued_at = some (new_timestamp invoice.issued_at);
  expires_at = some (new_timestamp invoice.due_at);
  booking = some (record {
    cottage_name = invoice.booking.cottage_name;
    nights = invoice.booking.nights;
    number_of_guests = invoice.booking.number_of_guests;
  });
  payer = some (record { name = invoice.payer.name; email = invoice.payer.email });
  options =
      some (record {
        method = method_credit_card;
        payment_url = payment_url host invoice.invoice_number;
        instructions = lit "Please use the following url to pay for your booking";
      })
      ∷ [];
}
