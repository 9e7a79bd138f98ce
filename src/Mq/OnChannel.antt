-- ===== src/Mq/OnChannel.antt =====
-- internal/infra/mq: what Publish and Consume have asked of the broker when they end with no error.
use kenshu_elaris_project_pa.Base.{
  ℕ, ◌≡◌, refl, Option-cases, inl, inr, some, List, [], ◌∷◌, ◌++◌, arith,
}
use kenshu_elaris_project_pa.Go.Text.{GoString}
use kenshu_elaris_project_pa.Go.Call.{
  World, ok, bind-eq-ok, Outcome-cases, is_ok, is_err, is_panicked, ◌>>=◌,
}
use kenshu_elaris_project_pa.Port.{Message}
use kenshu_elaris_project_pa.App.Unmarshal.{Delivery}
use kenshu_elaris_project_pa.Mq.Broker.{
  Publication, Consumption, Amqp, Store, BrokerEvent, sent, consumed, read,
}
use kenshu_elaris_project_pa.Mq.Channel.{ensure_channel, with_channel}
use kenshu_elaris_project_pa.Mq.Producer.{
  Producer, Encoding, local_now, publication_of, encode, send_payload, publish,
}
use kenshu_elaris_project_pa.Mq.Consumer.{
  Consumer, consumption_of, ensure_not_nil, consume_from, consume,
}

module _ {E TS : Type 0} (amqp : Amqp E) (encoding : Encoding E TS) (message : Message TS)
    (routing_key : GoString) where
  -- What Publish has sent, from a state whose channel is ready.
  pub record IsSent (ready w' : World (Store E Producer) BrokerEvent) : Type 0 where
    pub channel : ℕ
    pub on_channel : ready.env.channel ≡ some channel
    pub payload : GoString
    pub encoded : encoding.marshal message ≡ ok payload
    pub publication : Publication
    pub exchange : publication.exchange ≡ ready.env.own.exchange_name
    pub key : publication.routing_key ≡ routing_key
    pub body : publication.publishing.body ≡ payload
    pub persistent : publication.publishing.delivery_mode ≡ 2
    pub taken :
        amqp.publish channel publication (encoding.now ready.env.outside).1
        ≡ (ok tt, w'.env.outside)
    pub trace : w'.trace ≡ ready.trace ++ sent channel publication ∷ []

  send_payload-ok :
      (payload : GoString) (w w' : World (Store E Producer) BrokerEvent)
      → encoding.marshal message ≡ ok payload
      → send_payload amqp encoding message routing_key payload w ≡ (ok tt, w')
      → IsSent w w'
  unfolding send_payload local_now with_channel publication_of
  send_payload-ok payload w w' encoded h = elim (Option-cases w.env.channel) [
    | inl closed ↦ absurd (ground (arith, h, closed))
    | inr (ch, is_open) ↦
        let (now, e) = encoding.now w.env.outside in
        let publication =
          publication_of amqp encoding w.env.own message routing_key payload w.env.outside now in
        let (o, e') = amqp.publish ch publication e in
        elim (Outcome-cases o) [
          | is_err x lost ↦ absurd (ground (arith, h, is_open, lost))
          | is_panicked lost ↦ absurd (ground (arith, h, is_open, lost))
          | is_ok u taken ↦ record {
            channel = ch;
            on_channel = is_open;
            payload = payload;
            encoded = encoded;
            publication = publication;
            exchange = refl;
            key = refl;
            body = refl;
            persistent = refl;
            taken = ground (arith, h, is_open, taken);
            trace = ground (arith, h, is_open, taken);
          }
        ]
  ]

  -- Publish ends with no error only if it has a channel ready, opened if need be, and then the message
  -- could be encoded and the broker has taken it, once: on that channel, to the exchange of the
  -- producer, under the key that the caller gives, with the encoded message as its body, and as
  -- persistent. After the channel is ready there is no other call.
  pub publish-ok :
      (w w' : World (Store E Producer) BrokerEvent)
      → publish amqp encoding message routing_key w ≡ (ok tt, w')
      → (ready : World (Store E Producer) BrokerEvent) × (ensure_channel amqp w ≡ (ok tt, ready))
        × IsSent ready w'
  unfolding publish encode
  publish-ok w w' h =
      let rest = encode amqp encoding message >>= send_payload amqp encoding message routing_key in
      let (u, ready, opened, h₁) = bind-eq-ok (ensure_channel amqp) (λ u. rest) w h in
      let (payload, w₂, made, h₂) =
        bind-eq-ok (encode amqp encoding message) (send_payload amqp encoding message routing_key)
          ready h₁ in
      elim (Outcome-cases (encoding.marshal message)) [
        | is_err x lost ↦ absurd (ground (arith, made, lost))
        | is_panicked lost ↦ absurd (ground (arith, made, lost))
        | is_ok bytes encoded ↦ (
          ready,
          opened,
          send_payload-ok bytes ready w' encoded (ground (arith, made, encoded, h₂)),
        )
      ]

module _ {E : Type 0} (amqp : Amqp E) where
  -- What Consume has asked for, from a state whose channel is there.
  pub record IsConsuming (ready w' : World (Store E Consumer) BrokerEvent) (ds : List Delivery)
      : Type 0 where
    pub channel : ℕ
    pub on_channel : ready.env.channel ≡ some channel
    pub consumption : Consumption
    pub declared : ready.env.own.queue ≡ some consumption.queue
    pub consumer : consumption.consumer ≡ ready.env.own.consume_config.consumer
    pub auto_ack : consumption.auto_ack ≡ ready.env.own.consume_config.auto_ack
    pub given : amqp.consume channel consumption ready.env.outside ≡ (ok ds, w'.env.outside)
    pub trace : w'.trace ≡ ready.trace ++ consumed channel consumption ∷ []

  consume_from-ok :
      (w w' : World (Store E Consumer) BrokerEvent) (ds : List Delivery)
      → consume_from amqp w.env.own.consume_config w.env.own.queue w ≡ (ok ds, w')
      → IsConsuming w w' ds
  unfolding consume_from with_channel consumption_of
  consume_from-ok w w' ds h = elim (Option-cases w.env.own.queue) [
    | inl undeclared ↦ absurd (ground (arith, h, undeclared))
    | inr (q, declared) ↦ elim (Option-cases w.env.channel) [
      | inl closed ↦ absurd (ground (arith, h, declared, closed))
      | inr (ch, is_open) ↦
          let consumption = consumption_of q w.env.own.consume_config in
          let (o, e) = amqp.consume ch consumption w.env.outside in
          elim (Outcome-cases o) [
            | is_err x lost ↦ absurd (ground (arith, h, declared, is_open, lost))
            | is_panicked lost ↦ absurd (ground (arith, h, declared, is_open, lost))
            | is_ok all given ↦ record {
              channel = ch;
              on_channel = is_open;
              consumption = consumption;
              declared = declared;
              consumer = refl;
              auto_ack = refl;
              given = ground (arith, h, declared, is_open, given);
              trace = ground (arith, h, declared, is_open, given);
            }
          ]
    ]
  ]

  -- Consume gives deliveries only if its consumer has declared a queue and its channel is there,
  -- opened if it was nil; it has then asked the broker once, on that channel, for that queue, under
  -- the name and with the mode of acknowledgement of the configuration, and gives the deliveries of
  -- the broker.
  pub consume-ok :
      (w w' : World (Store E Consumer) BrokerEvent) (ds : List Delivery)
      → consume amqp w ≡ (ok ds, w')
      → (ready : World (Store E Consumer) BrokerEvent) × (ensure_not_nil amqp w ≡ (ok tt, ready))
        × IsConsuming ready w' ds
  unfolding consume
  consume-ok w w' ds h =
      let rest = read (λ s. s.own) >>= (λ own. consume_from amqp own.consume_config own.queue) in
      let (u, ready, opened, h₁) = bind-eq-ok (ensure_not_nil amqp) (λ u. rest) w h in
      (ready, opened, consume_from-ok ready w' ds h₁)
