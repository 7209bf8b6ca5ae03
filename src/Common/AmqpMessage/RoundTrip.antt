-- ===== src/Common/AmqpMessage/RoundTrip.antt =====
-- A message converted to the AMQP library's and back.
use golang_iothub.Base.{
  ℕ, ◌≡◌, refl, sym, subst, [], ◌∷◌, ◌++◌, append_assoc, append-nil, none, some, false, arith,
  Bytes, Dict, lookup, insert, Distinct, same, same_iff, ok, panic, ◌>>=◌,
}
use golang_iothub.Common.Message.{Message, empty_message}
use golang_iothub.Common.AmqpMessage.{
  made, to_fields, add_properties, converted, from_amqp_message, to_amqp_message, string_or_blank,
  annotate_all,
}

-- A key that is not there is stored behind the others.
pub insert-new :
    {V : Type 0} (k : Bytes) (v : V) (d : Dict V)
    → lookup k d ≡ none
    → insert k v d ≡ d ++ (k, v) ∷ []
unfolding insert lookup
insert-new k v [] h = refl
insert-new k v ((j, w) ∷ d) h = ground (arith, insert-new k v d)

-- A key that stands behind others is none of them.
behind_others :
    {V : Type 0} (j k : Bytes) (v : V) (e d : Dict V)
    → lookup j (e ++ (k, v) ∷ d) ≡ none
    → same k j ≡ false
unfolding lookup
behind_others j k v [] d h = ground arith
behind_others j k v ((i, w) ∷ e) d h = ground (arith, behind_others j k v e d)

new_key :
    {V : Type 0} (k : Bytes) (v : V) (e d : Dict V) → Distinct (e ++ (k, v) ∷ d) → lookup k e ≡ none
unfolding lookup
new_key k v [] d h = refl
new_key k v ((j, w) ∷ e) d h =
    ground (arith, behind_others j k v e d h.0, same_iff k j, same_iff j k, new_key k v e d h.1)

with_properties : Message → Dict Bytes → Message
with_properties m d = record m { properties = some d }

-- The loop over the application properties copies them behind those that are there.
add_properties-to_fields :
    (m : Message) (e d : Dict Bytes)
    → Distinct (e ++ d)
    → add_properties (to_fields d) (with_properties m e) ≡ ok (with_properties m (e ++ d))
unfolding add_properties to_fields with_properties
add_properties-to_fields m e [] h = rw (append-nil e)
add_properties-to_fields m e ((k, v) ∷ d) h =
    let new = insert-new k v e (new_key k v e d h) in
    let assoc = append_assoc e ((k, v) ∷ []) d in
    let e' = e ++ (k, v) ∷ [] in
    rw new (
      subst (λ r. add_properties (to_fields d) (with_properties m e') ≡ ok (with_properties m r))
        assoc (add_properties-to_fields m e' d (subst Distinct (sym assoc) h)))

-- What the conversions carry over.
abbrev pub carried : Message → Message
carried msg = record empty_message {
  payload = msg.payload;
  message_id = msg.message_id;
  correlation_id = msg.correlation_id;
  user_id = msg.user_id;
  to = msg.to;
  expiry_time = msg.expiry_time;
  properties = some (made msg.properties);
}

from_amqp_message-converted :
    (t : ℕ) (msg : Message)
    → Distinct (made msg.properties)
    → from_amqp_message (converted t msg) ≡ ok (carried (record msg { expiry_time = some t }))
unfolding from_amqp_message string_or_blank annotate_all with_properties
from_amqp_message-converted t msg distinct =
    add_properties-to_fields (carried (record msg { expiry_time = some t })) []
      (made msg.properties) distinct

-- A message with an expiry time, converted by `ToAMQPMessage` and back by `FromAMQPMessage`, keeps
-- its payload, identifiers, address, expiry time and properties; a nil map of properties becomes an
-- empty one. Of a message with no expiry time `ToAMQPMessage` panics.
pub from_amqp_message-to_amqp_message :
    (msg : Message)
    → Distinct (made msg.properties)
    → ((t : ℕ)
        → msg.expiry_time ≡ some t
        → (to_amqp_message msg >>= from_amqp_message) ≡ ok (carried msg))
      × (msg.expiry_time ≡ none → to_amqp_message msg ≡ panic)
unfolding to_amqp_message
from_amqp_message-to_amqp_message msg distinct =
    (λ t h. rw h (from_amqp_message-converted t msg distinct), λ h. rw h)
