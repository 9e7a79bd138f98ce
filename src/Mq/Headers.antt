-- ===== src/Mq/Headers.antt =====
-- internal/infra/mq/rabbitmq_producer.go: what a reader of a message finds in its headers.
use kenshu_elaris_project_pa.Base.{
  ◌≡◌, refl, sym, ap, ◌∙◌, true, false, Bool-cases, inl, inr, if◌then◌else◌, Option, none, some,
  List, [], ◌∷◌, arith,
}
use kenshu_elaris_project_pa.Go.Text.{GoString, lit, text_eq}
use kenshu_elaris_project_pa.Go.Text.Laws.{text_eq_iff}
use kenshu_elaris_project_pa.Port.{Message}
use kenshu_elaris_project_pa.Mq.Broker.{Amqp}
use kenshu_elaris_project_pa.Mq.Producer.{Encoding, set_entry, set_entries, headers_of}

-- The value of a key.
abbrev pub lookup : GoString → List (GoString × GoString) → Option GoString
lookup j [] = none
lookup j ((k, v) ∷ m) = if text_eq k j then some v else lookup j m

-- The value that the last entry with this key has, or else the value given.
abbrev pub last_value : GoString → List (GoString × GoString) → Option GoString → Option GoString
last_value j [] d = d
last_value j ((k, v) ∷ m) d = last_value j m (if text_eq k j then some v else d)

-- Two texts that are not the same are not both the same as a third one.
text_eq_apart : (i j k : GoString) → text_eq i k ≡ false → text_eq k j ≡ true → text_eq i j ≡ false
text_eq_apart i j k h e = elim (Bool-cases (text_eq i j)) [
  | inr f ↦ f
  | inl f ↦
      absurd (cc (h, (text_eq_iff i k).1 ((text_eq_iff i j).0 f ∙ sym ((text_eq_iff k j).0 e))))
]

pub lookup-set_entry :
    (j k v : GoString) (m : List (GoString × GoString))
    → lookup j (set_entry k v m) ≡ (if text_eq k j then some v else lookup j m)
unfolding set_entry
lookup-set_entry j k v [] = refl
lookup-set_entry j k v ((i, u) ∷ m) = elim (Bool-cases (text_eq i k)) [
  | inl e ↦ ground (arith, e, ap (λ x. text_eq x j) ((text_eq_iff i k).0 e))
  | inr e ↦ elim (Bool-cases (text_eq k j)) [
    | inl f ↦ ground (arith, e, f, text_eq_apart i j k e f, lookup-set_entry j k v m)
    | inr f ↦ ground (arith, e, f, lookup-set_entry j k v m)
  ]
]

lookup-set_entries :
    (j : GoString) (carrier headers : List (GoString × GoString))
    → lookup j (set_entries carrier headers) ≡ last_value j carrier (lookup j headers)
unfolding set_entries
lookup-set_entries j [] headers = refl
lookup-set_entries j ((k, v) ∷ carrier) headers =
    lookup-set_entries j carrier (set_entry k v headers)
    ∙ ap (last_value j carrier) (lookup-set_entry j k v headers)

-- What a reader finds under a key of the headers of a message is what the propagator has written
-- last under that key; under message_type, if the propagator has not written it, the full name of
-- the type of the message; and nothing else.
pub lookup-headers_of :
    {E TS : Type 0} (amqp : Amqp E) (encoding : Encoding E TS) (message : Message TS) (outside : E)
    (j : GoString)
    → lookup j (headers_of amqp encoding message outside)
      ≡ last_value j
          (encoding.carrier outside)
          (if text_eq (lit "message_type") j then some (encoding.full_name message) else none)
unfolding headers_of
lookup-headers_of amqp encoding message outside j =
    lookup-set_entries j (encoding.carrier outside)
      ((lit "message_type", encoding.full_name message) ∷ [])
