-- ===== src/Device/Send.antt =====
-- iotdevice/client.go: `SendEvent` and the SendOptions.
pub mod Properties
pub mod Outcome
use golang_iothub.Base.{
  ℤ, ◌≡◌, refl, List, [], ◌∷◌, Option, none, some, Bytes, codes, Dict, insert, Result, ok, err,
  panic, Error, ◌>>=◌,
}
use golang_iothub.Common.Message.{Message, OptionValue, int, empty_message}

abbrev pub SendOption : Type 0
SendOption = Message → Result Message

-- A nil map is replaced by an empty one before it is written.
abbrev pub or_new {ℓ} : {V : Type ℓ} → Option (Dict V) → Dict V
or_new none = []
or_new (some d) = d

unfoldable pub with_send_qos : ℤ → SendOption
with_send_qos qos msg = ok (record msg {
  transport_options = some (insert (codes "qos") (int qos) (or_new msg.transport_options));
})

unfoldable pub with_send_message_id : Bytes → SendOption
with_send_message_id mid msg = ok (record msg { message_id = mid })

unfoldable pub with_send_correlation_id : Bytes → SendOption
with_send_correlation_id cid msg = ok (record msg { correlation_id = cid })

unfoldable pub with_send_to : Bytes → SendOption
with_send_to to msg = ok (record msg { to = to })

unfoldable pub with_send_property : Bytes → Bytes → SendOption
with_send_property k v msg =
    ok (record msg { properties = some (insert k v (or_new msg.properties)) })

-- `for k, v := range m { msg.Properties[k] = v }`.
unfoldable pub copy_into : Dict Bytes → Dict Bytes → Dict Bytes
copy_into d [] = d
copy_into d ((k, v) ∷ m) = copy_into (insert k v d) m

-- A range over a nil map makes no round.
unfoldable pub with_send_properties : Option (Dict Bytes) → SendOption
with_send_properties m msg =
    ok (record msg { properties = some (copy_into (or_new msg.properties) (or_new m)) })

unfoldable pub apply_options : Message → List SendOption → Result Message
apply_options msg [] = ok msg
apply_options msg (opt ∷ opts) = opt msg >>= λ msg'. apply_options msg' opts

-- The messages handed to `tr.Send`, and what `SendEvent` returns. `connection` is the error that
-- `ConnectionError` returns, `send` is the transport's `Send`; logging is left out.
unfoldable pub send_event :
    (Message → Result (Unit {0}))
    → Option Error
    → Option Bytes
    → List SendOption
    → List Message × Result (Unit {0})
send_event send (some e) payload opts = ([], err e)
send_event send none none opts = ([], err Error.payload_is_nil)
send_event send none (some payload) opts =
    elim (apply_options (record empty_message { payload = some payload }) opts) [
      | ok msg ↦ (msg ∷ [], send msg)
      | err e ↦ ([], err e)
      | panic ↦ ([], panic)
    ]
