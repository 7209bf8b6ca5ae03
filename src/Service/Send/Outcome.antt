-- ===== src/Service/Send/Outcome.antt =====
-- What the SendOptions and `SendEvent` do.
use golang_iothub.Base.{
  ℕ, ◌≡◌, refl, ◌⊎◌, inl, inr, List, [], ◌∷◌, Option, none, some, true, false, Bytes, codes, Dict,
  insert, lookup, lookup-insert, same, same_refl, Result, ok, err, panic, Error, Bool-cases,
  Option-cases, Result-cases, ◌≢◌,
}
use golang_iothub.Common.Message.{Message}
use golang_iothub.Common.AmqpMessage.{AmqpMessage, to_amqp_message, converted}
use golang_iothub.Device.Send.{or_new}
use golang_iothub.Service.Send.{
  SendOption, with_send_property, is_ack, with_send_ack, apply_options, addressed, send_converted,
  send_connected, send_event,
}

-- An empty acknowledgement leaves the message alone; one of the four known types sets the property
-- iothub-ack to it and leaves every other property; any other is refused.
with_send_ack_lem :
    (typ : Bytes) (msg : Message)
    → ((typ ≡ []) × (with_send_ack typ msg ≡ ok msg))
      ⊎ ((is_ack typ ≡ true)
          × ((d : Dict Bytes) × (with_send_ack typ msg ≡ ok (record msg { properties = some d }))
              × (lookup (codes "iothub-ack") d ≡ some typ)
              × ((k : Bytes)
                  → same (codes "iothub-ack") k ≡ false
                  → lookup k d ≡ lookup k (or_new msg.properties))))
      ⊎ ((is_ack typ ≡ false) × (with_send_ack typ msg ≡ err (Error.unknown_ack typ)))
unfolding with_send_ack
with_send_ack_lem [] msg = inl (refl, refl)
with_send_ack_lem (c ∷ typ) msg = elim (Bool-cases (is_ack (c ∷ typ))) [
  | inl e ↦
      let key = codes "iothub-ack" in
      let d : Dict Bytes = insert key (c ∷ typ) (or_new msg.properties) in
      inr (
        inl (
          e,
          (
            d,
            rw (with_send_ack, e, with_send_property),
            rw (lookup-insert key key (c ∷ typ) (or_new msg.properties), same_refl key),
            λ k other. rw (lookup-insert key k (c ∷ typ) (or_new msg.properties), other),
          ),
        ))
  | inr e ↦ inr (inr (e, rw (with_send_ack, e)))
]

sent-cases :
    (send : AmqpMessage → Result (Unit {0})) (msg : Message)
    → let r = send_converted send (to_amqp_message msg) in
      ((t : ℕ) × (msg.expiry_time ≡ some t) × (r ≡ (converted t msg ∷ [], send (converted t msg))))
      ⊎ ((msg.expiry_time ≡ none) × (r ≡ ([], panic)))
unfolding send_converted to_amqp_message
sent-cases send msg = elim (Option-cases msg.expiry_time) [
  | inl h ↦ inr (h, rw h refl)
  | inr (t, h) ↦ inl (t, h, rw h refl)
]

sends :
    (open_link : Option Error) (send : AmqpMessage → Result (Unit {0})) (id body : Bytes)
    (opts : List SendOption)
    → let r = send_connected open_link send id body opts in
      ((msg : Message) × (open_link ≡ none)
        × (apply_options (addressed id body) opts ≡ ok msg)
        × (r ≡ send_converted send (to_amqp_message msg)))
      ⊎ (((open_link ≢ none) ⊎ ((msg : Message) → apply_options (addressed id body) opts ≢ ok msg))
          × (r.0 ≡ [])
          × (r.1 ≢ ok tt))
unfolding send_connected
sends open_link send id body opts = elim (Result-cases (apply_options (addressed id body) opts)) [
  | inr (inl (x, e)) ↦
      inr (inr (λ msg h. cc (e, h)), rw (send_connected, e), rw (send_connected, e) (λ h. cc))
  | inr (inr e) ↦
      inr (inr (λ msg h. cc (e, h)), rw (send_connected, e), rw (send_connected, e) (λ h. cc))
  | inl (msg, e) ↦ elim (Option-cases open_link) [
    | inl f ↦ inl (msg, f, e, rw (send_connected, e, f))
    | inr (x, f) ↦
        inr (inl (λ h. cc (f, h)), rw (send_connected, e, f), rw (send_connected, e, f) (λ h. cc))
  ]
]

-- Why `SendEvent` sends nothing: an argument is missing, the client does not connect, an option does
-- not succeed, or no link opens.
abbrev pub Refused : Option Error → Option Error → Bytes → Option Bytes → List SendOption → Type 0
Refused connection open_link id payload opts =
    (id ≡ [])
    ⊎ (payload ≡ none)
    ⊎ (connection ≢ none)
    ⊎ (open_link ≢ none)
    ⊎ ((body : Bytes) × (payload ≡ some body)
        × ((msg : Message) → apply_options (addressed id body) opts ≢ ok msg))

-- If the device id is not empty, the payload is not nil, the client connects, every option succeeds
-- and a link opens, `SendEvent` sends one message and returns what the link does, provided that an
-- option has set the expiry time; the message is the options applied to the payload addressed to
-- the device, and then converted. With no expiry time it panics and sends nothing. Otherwise one of
-- these conditions does not hold, and it sends nothing and does not report success.
pub service_send_event_outcome :
    (connection open_link : Option Error) (send : AmqpMessage → Result (Unit {0})) (id : Bytes)
    (payload : Option Bytes) (opts : List SendOption)
    → let r = send_event connection open_link send id payload opts in
      ((body : Bytes) × (msg : Message) × (id ≢ [])
        × (payload ≡ some body)
        × (connection ≡ none)
        × (open_link ≡ none)
        × (apply_options (addressed id body) opts ≡ ok msg)
        × (((t : ℕ) × (msg.expiry_time ≡ some t)
              × (r ≡ (converted t msg ∷ [], send (converted t msg))))
            ⊎ ((msg.expiry_time ≡ none) × (r ≡ ([], panic)))))
      ⊎ (Refused connection open_link id payload opts × (r.0 ≡ []) × (r.1 ≢ ok tt))
unfolding send_event
service_send_event_outcome connection open_link send [] payload opts = inr (inl refl, refl, λ h. cc)
service_send_event_outcome connection open_link send (c ∷ id) none opts =
    inr (inr (inl refl), refl, λ h. cc)
service_send_event_outcome (some e) open_link send (c ∷ id) (some body) opts =
    inr (inr (inr (inl (λ h. cc))), refl, λ h. cc)
service_send_event_outcome none open_link send (c ∷ id) (some body) opts =
    elim (sends open_link send (c ∷ id) body opts) [
      | inl (msg, f, e, r) ↦
          inl (body, msg, (λ h. cc), refl, refl, f, e, rw r (sent-cases send msg))
      | inr (inl no_link, none_sent, failed) ↦
          inr (inr (inr (inr (inl no_link))), none_sent, failed)
      | inr (inr no_message, none_sent, failed) ↦
          inr (inr (inr (inr (inr (body, refl, no_message)))), none_sent, failed)
    ]
