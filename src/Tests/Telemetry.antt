-- ===== src/Tests/Telemetry.antt =====
-- Headers that travel with a message.
use kenshu_elaris_project_pa.Base.{◌≡◌, refl, if◌then◌else◌, none, some, [], ◌∷◌}
use kenshu_elaris_project_pa.Go.Text.{lit, text_eq}
use kenshu_elaris_project_pa.Mq.Producer.{headers_of}
use kenshu_elaris_project_pa.Mq.Headers.{last_value}
use kenshu_elaris_project_pa.Infra.Telemetry.Tracing.{Received, get}
use kenshu_elaris_project_pa.Infra.Telemetry.Propagation.{or_empty, get-headers_of}
use kenshu_elaris_project_pa.Tests.Broker.{amqp, encoding, message}

abbrev received : Received
received = record {
  headers = headers_of amqp encoding message 0;
  exchange = lit "guests";
  routing_key = lit "guest.payment";
  message_id = [];
  correlation_id = [];
  body = lit "bytes";
  delivery_tag = 7;
}

get-headers_of_example :
    get received.headers (lit "message_type")
    ≡ or_empty (
        last_value (lit "message_type") ((lit "traceparent", lit "00-1") ∷ []) (
          if text_eq (lit "message_type") (lit "message_type")
          then some (lit "dto.PaymentRequest")
          else none))
get-headers_of_example = get-headers_of amqp encoding message 0 received refl (lit "message_type")
