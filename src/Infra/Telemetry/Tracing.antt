-- ===== src/Infra/Telemetry/Tracing.antt =====
-- internal/infra/telemetry/tracing.go
use kenshu_elaris_project_pa.Base.{
  ℕ, Bool, true, false, ◌||◌, if◌then◌else◌, Option, none, some, List, [], ◌∷◌, ◌++◌, map, length,
}
use kenshu_elaris_project_pa.Base.Int.{ℤ}
use kenshu_elaris_project_pa.Go.Text.{GoString, lit, text_eq}
use kenshu_elaris_project_pa.Errors.{GoError, error_text}
use kenshu_elaris_project_pa.Mq.Producer.{set_entry}
use kenshu_elaris_project_pa.Mq.Headers.{lookup}
use kenshu_elaris_project_pa.Infra.Duration.{to_int64}

-- A table of headers, by what fmt.Sprint prints of the values, which is all that is read of them.
abbrev pub Table : Type 0
Table = List (GoString × GoString)

-- What the telemetry reads of an amqp.Delivery.
pub record Received : Type 0 where
  pub headers : Table
  pub exchange : GoString
  pub routing_key : GoString
  pub message_id : GoString
  pub correlation_id : GoString
  pub body : GoString
  pub delivery_tag : ℕ

-- attribute.String and attribute.Int64.
pub data Attribute : Type 0 where
  string : GoString → GoString → Attribute
  int64 : GoString → ℤ → Attribute

pub data SpanKind : Type 0 where
  internal consumer : SpanKind

-- A span as it is started, on a context of type C.
pub record Span (C : Type 0) : Type 0 where
  pub parent : C
  pub tracer : GoString
  pub name : GoString
  pub kind : SpanKind
  pub attributes : List Attribute

abbrev pub app_tracer_name : GoString
app_tracer_name = lit "github.com/Kenji-Uema/paymentSimulator/internal/app"

abbrev pub consumer_tracer_name : GoString
consumer_tracer_name = lit "github.com/Kenji-Uema/paymentSimulator/internal/infra/mq"

unfoldable pub start_app_span : {C : Type 0} → C → GoString → List Attribute → Span C
start_app_span ctx name attrs = record {
  parent = ctx;
  tracer = app_tracer_name;
  name = name;
  kind = internal;
  attributes = attrs;
}

-- The calls of a span.
pub data SpanEvent : Type 0 where
  recorded : GoError → SpanEvent
  failed : GoString → SpanEvent

-- RecordSpanError: the calls that it makes. A nil span and a nil error are `false` and `none`.
unfoldable pub record_span_error : Bool → Option GoError → List SpanEvent
record_span_error false err = []
record_span_error true none = []
record_span_error true (some e) = recorded e ∷ failed (error_text e) ∷ []

unfoldable pub record_delivery_error : Bool → Option GoError → List SpanEvent
unfolding record_span_error
record_delivery_error span err = record_span_error span err

-- The methods of deliveryHeadersCarrier. The keys of a map come in no fixed order.
unfoldable pub get : Table → GoString → GoString
get c key = elim (lookup key c) [ none ↦ [] | some value ↦ value ]

unfoldable pub set : Table → GoString → GoString → Table
unfolding set_entry
set c key value = set_entry key value c

unfoldable pub keys : Table → List GoString
keys c = map (λ e. e.0) c

unfoldable pub consumer_span_name : GoString → Received → GoString
unfolding text_eq
consumer_span_name queue_name delivery =
    if text_eq delivery.routing_key []
    then queue_name ++ lit " receive"
    else queue_name ++ (lit " receive " ++ delivery.routing_key)

-- `if value != "" { attrs = append(attrs, …) }`
unfoldable pub unless_empty : GoString → GoString → List Attribute
unfolding text_eq
unless_empty name value = if text_eq value [] then [] else string name value ∷ []

-- `fmt.Sprint(delivery.Headers["message_type"])`: a missing value is nil, and prints as <nil>.
unfoldable pub message_type : Received → GoString
message_type delivery = elim (lookup (lit "message_type") delivery.headers) [
  | none ↦ lit "<nil>"
  | some value ↦ value
]

unfoldable pub message_type_attribute : Received → List Attribute
unfolding text_eq message_type
message_type_attribute delivery =
    if text_eq (message_type delivery) [] || text_eq (message_type delivery) (lit "<nil>")
    then []
    else string (lit "messaging.message.type") (message_type delivery) ∷ []

unfoldable pub consumer_attributes : GoString → Received → List Attribute
unfolding to_int64 unless_empty message_type_attribute
consumer_attributes queue_name delivery =
    (string (lit "messaging.system") (lit "rabbitmq")
      ∷ string (lit "messaging.operation") (lit "process")
      ∷ string (lit "messaging.destination.name") queue_name
      ∷ string (lit "messaging.rabbitmq.routing_key") delivery.routing_key
      ∷ int64 (lit "messaging.message.body.size") (to_int64 (length delivery.body))
      ∷ int64 (lit "messaging.rabbitmq.delivery_tag") (to_int64 delivery.delivery_tag)
      ∷ [])
    ++ (unless_empty (lit "messaging.rabbitmq.exchange") delivery.exchange
        ++ (unless_empty (lit "messaging.message.id") delivery.message_id
            ++ (unless_empty (lit "messaging.message.conversation_id") delivery.correlation_id
                ++ message_type_attribute delivery)))

-- StartConsumerSpan; `extract` is the propagator, on the method Get of a carrier.
unfoldable pub start_consumer_span :
    {C : Type 0} → (C → (GoString → GoString) → C) → C → Received → GoString → Span C
unfolding get consumer_span_name consumer_attributes
start_consumer_span extract ctx delivery queue_name = record {
  parent = extract ctx (get delivery.headers);
  tracer = consumer_tracer_name;
  name = consumer_span_name queue_name delivery;
  kind = consumer;
  attributes = consumer_attributes queue_name delivery;
}
