-- ===== src/Service/Send.antt =====
-- iotservice/client.go: the SendOptions of a cloud-to-device message, and `SendEvent`.
pub mod Outcome
use golang_iothub.Base.{
  ℕ, ◌≡◌, refl, ◌⊎◌, inl, inr, List, [], ◌∷◌, ◌++◌, Option, none, some, Bool, true, false, ◌||◌,
  Bytes, codes, Dict, insert, lookup, lookup-insert, same, same_refl, Result, ok, err, panic, Error,
  ◌>>=◌, if◌then◌else◌, Bool-cases, Option-cases, Result-cases, ◌≢◌,
}
use golang_iothub.Common.Message.{Message, empty_message}
use golang_iothub.Common.AmqpMessage.{AmqpMessage, to_amqp_message, converted}
use golang_iothub.Device.Send.{or_new, copy_into}

abbrev pub SendOption : Type 0
SendOption = Message → Result Message

unfoldable pub with_send_message_id : Bytes → SendOption
with_send_message_id mid msg = ok (record msg { message_id = mid })

unfoldable pub with_send_correlation_id : Bytes → SendOption
with_send_correlation_id cid msg = ok (record msg { correlation_id = cid })

unfoldable pub with_send_user_id : Bytes → SendOption
with_send_user_id uid msg = ok (record msg { user_id = uid })

unfoldable pub with_sent_expiry_time : ℕ → SendOption
with_sent_expiry_time t msg = ok (record msg { expiry_time = some t })

unfoldable pub with_send_property : Bytes → Bytes → SendOption
with_send_property k v msg =
    ok (record msg { properties = some (insert k v (or_new msg.properties)) })

unfoldable pub with_send_properties : Option (Dict Bytes) → SendOption
with_send_properties m msg =
    ok (record msg { properties = some (copy_into (or_new msg.properties) (or_new m)) })

-- AckNone, AckPositive, AckNegative, AckFull.
unfoldable pub is_ack : Bytes → Bool
is_ack typ =
    same typ (codes "none")
    || (same typ (codes "positive") || (same typ (codes "negative") || same typ (codes "full")))

unfoldable pub with_send_ack : Bytes → SendOption
unfolding is_ack with_send_property
with_send_ack [] msg = ok msg
with_send_ack (c ∷ typ) msg =
    if is_ack (c ∷ typ)
    then with_send_property (codes "iothub-ack") (c ∷ typ) msg
    else err (Error.unknown_ack (c ∷ typ))

unfoldable pub apply_options : Message → List SendOption → Result Message
apply_options msg [] = ok msg
apply_options msg (opt ∷ opts) = opt msg >>= λ msg'. apply_options msg' opts

-- The message that `SendEvent` starts from.
abbrev pub addressed : Bytes → Bytes → Message
addressed device_id payload = record empty_message {
  payload = some payload;
  to = codes "/devices/" ++ (device_id ++ codes "/messages/devicebound");
}

-- `send.Send(ctx, commonamqp.ToAMQPMessage(msg))`, with the messages that the link is given.
unfoldable pub send_converted :
    (AmqpMessage → Result (Unit {0})) → Result AmqpMessage → List AmqpMessage × Result (Unit {0})
send_converted send (ok msg) = (msg ∷ [], send msg)
send_converted send (err e) = ([], err e)
send_converted send panic = ([], panic)

-- What `SendEvent` does once its arguments are checked and the client is connected: the messages
-- sent over a new link, which `open_link` opens.
unfoldable pub send_connected :
    Option Error
    → (AmqpMessage → Result (Unit {0}))
    → Bytes
    → Bytes
    → List SendOption
    → List AmqpMessage × Result (Unit {0})
unfolding send_converted
send_connected open_link send device_id payload opts =
    elim (apply_options (addressed device_id payload) opts) [
      | panic ↦ ([], panic)
      | err e ↦ ([], err e)
      | ok msg ↦ elim open_link [
        | some e ↦ ([], err e)
        | none ↦ send_converted send (to_amqp_message msg)
      ]
    ]

-- `connection` is the error of `Connect`.
unfoldable pub send_event :
    Option Error
    → Option Error
    → (AmqpMessage → Result (Unit {0}))
    → Bytes
    → Option Bytes
    → List SendOption
    → List AmqpMessage × Result (Unit {0})
unfolding send_connected
send_event connection open_link send [] payload opts = ([], err Error.device_id_is_empty)
send_event connection open_link send (c ∷ id) none opts = ([], err Error.payload_is_nil)
send_event (some e) open_link send (c ∷ id) (some payload) opts = ([], err e)
send_event none open_link send (c ∷ id) (some payload) opts =
    send_connected open_link send (c ∷ id) payload opts
