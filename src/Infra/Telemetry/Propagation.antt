-- ===== src/Infra/Telemetry/Propagation.antt =====
-- internal/infra/telemetry/tracing.go: what a consumer of a message reads of what the producer wrote.
use kenshu_elaris_project_pa.Base.{
  ◌≡◌, refl, sym, ap, ◌∙◌, Bool, true, false, if◌then◌else◌, Option, none, some, [], ◌∷◌, arith,
}
use kenshu_elaris_project_pa.Go.Text.{GoString, lit, text_eq}
use kenshu_elaris_project_pa.Go.Text.Laws.{text_eq_iff}
use kenshu_elaris_project_pa.Port.{Message}
use kenshu_elaris_project_pa.Mq.Broker.{Amqp}
use kenshu_elaris_project_pa.Mq.Producer.{Encoding, set_entry, headers_of}
use kenshu_elaris_project_pa.Mq.Headers.{lookup, last_value, lookup-set_entry, lookup-headers_of}
use kenshu_elaris_project_pa.Infra.Telemetry.Tracing.{
  Table, Received, string, get, set, message_type, message_type_attribute,
}

-- A value that may be missing, as a carrier gives it.
abbrev pub or_empty : Option GoString → GoString
or_empty none = []
or_empty (some value) = value

get-or_empty : (c : Table) (key : GoString) → get c key ≡ or_empty (lookup key c)
unfolding get
get-or_empty c key = go (lookup key c)
  where
    go :
        (o : Option GoString)
        → ◌≡◌ {A = GoString} (elim o [ none ↦ [] | some value ↦ value ]) (or_empty o)
    go none = refl
    go (some value) = refl

-- After Set, a carrier gives the new value under the key, and what it gave before under any other key.
pub get-set :
    (c : Table) (key value j : GoString)
    → get (set c key value) j ≡ (if text_eq key j then value else get c j)
unfolding set
get-set c key value j =
    get-or_empty (set_entry key value c) j
    ∙ ap or_empty (lookup-set_entry j key value c)
    ∙ chosen (text_eq key j)
  where
    chosen :
        (b : Bool)
        → or_empty (if b then some value else lookup j c) ≡ (if b then value else get c j)
    chosen true = refl
    chosen false = sym (get-or_empty c j)

module _ {E TS : Type 0} (amqp : Amqp E) (encoding : Encoding E TS) (message : Message TS)
    (outside : E) (delivery : Received)
    (carried : delivery.headers ≡ headers_of amqp encoding message outside) where
  type_found :
      ((d : Option GoString) → last_value (lit "message_type") (encoding.carrier outside) d ≡ d)
      → lookup (lit "message_type") delivery.headers ≡ some (encoding.full_name message)
  type_found unwritten =
      let here : text_eq (lit "message_type") (lit "message_type") ≡ true =
        (text_eq_iff (lit "message_type") (lit "message_type")).1 refl in
      ap (lookup (lit "message_type")) carried
      ∙ lookup-headers_of amqp encoding message outside (lit "message_type")
      ∙ unwritten _
      ∙ ap (λ b. if b then some (encoding.full_name message) else none) here

  -- The propagator of a consumer, which reads by Get, finds under each key of a delivery what the
  -- propagator of the producer has written last under that key; if it has written nothing there, the
  -- full name of the type of the message under message_type, and nothing under any other key. The
  -- headers of the delivery are those of the message sent.
  pub get-headers_of :
      (j : GoString)
      → get delivery.headers j
        ≡ or_empty (
            last_value j
              (encoding.carrier outside)
              (if text_eq (lit "message_type") j then some (encoding.full_name message) else none))
  get-headers_of j =
      get-or_empty delivery.headers j
      ∙ ap (λ h. or_empty (lookup j h)) carried
      ∙ ap or_empty (lookup-headers_of amqp encoding message outside j)

  -- The span of a consumer names the type of the message, if the propagator of the producer has not
  -- written the key and the name is not empty and not <nil>.
  pub message_type_attribute-headers_of :
      ((d : Option GoString) → last_value (lit "message_type") (encoding.carrier outside) d ≡ d)
      → text_eq (encoding.full_name message) [] ≡ false
      → text_eq (encoding.full_name message) (lit "<nil>") ≡ false
      → message_type_attribute delivery
        ≡ string (lit "messaging.message.type") (encoding.full_name message) ∷ []
  unfolding message_type message_type_attribute
  message_type_attribute-headers_of unwritten named printed =
      ground (arith, type_found unwritten, named, printed)
