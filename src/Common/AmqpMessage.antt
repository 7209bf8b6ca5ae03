-- ===== src/Common/AmqpMessage.antt =====
-- common/commonamqp/message.go: messages of the AMQP library from and to the common ones.
pub mod RoundTrip
use golang_iothub.Base.{
  ℕ, List, [], ◌∷◌, Option, none, some, Bool, true, false, Bytes, codes, Dict, insert, same,
  if◌then◌else◌, Result, ok, err, panic, ◌>>=◌,
}
use golang_iothub.Common.Message.{Message, empty_message}

-- A value behind `interface{}`: a string, a time, or a value of another type, the last two with
-- what `fmt.Sprint` makes of them.
pub data Field : Type 0 where
  text : Bytes → Field
  time : ℕ → Bytes → Field
  foreign : Bytes → Field

pub record MessageProperties : Type 0 where
  pub message_id : Option Field
  pub user_id : Bytes
  pub to : Bytes
  pub correlation_id : Option Field
  pub absolute_expiry_time : ℕ

-- The fields of an amqp.Message that the conversions read or write. The keys of annotations are
-- `interface{}`; a nil pointer is `none`.
pub record AmqpMessage : Type 0 where
  pub payloads : List (Option Bytes)
  pub properties : Option MessageProperties
  pub annotations : List (Field × Field)
  pub application_properties : Dict Field

-- `v.(string)`.
unfoldable pub as_string : Field → Result Bytes
as_string (text s) = ok s
as_string (time t s) = panic
as_string (foreign s) = panic

-- `if v != nil { … v.(string) }`, over a field that is blank so far.
unfoldable pub string_or_blank : Option Field → Result Bytes
unfolding as_string
string_or_blank none = ok []
string_or_blank (some v) = as_string v

-- `t, _ := v.(time.Time)`.
unfoldable pub time_or_zero : Field → ℕ
time_or_zero (time t s) = t
time_or_zero (text s) = 0
time_or_zero (foreign s) = 0

-- `fmt.Sprint(v)`.
unfoldable pub sprint : Field → Bytes
sprint (text s) = s
sprint (time t s) = s
sprint (foreign s) = s

-- `m.Properties` of a message that is being made.
abbrev pub made : Option (Dict Bytes) → Dict Bytes
made none = []
made (some d) = d

unfoldable pub set_property : Bytes → Bytes → Message → Message
set_property k v m = record m { properties = some (insert k v (made m.properties)) }

unfoldable pub from_properties : Option MessageProperties → Message → Result Message
unfolding string_or_blank
from_properties none m = ok m
from_properties (some p) m = do
  message_id ← string_or_blank p.message_id
  correlation_id ← string_or_blank p.correlation_id
  ok (record m {
    user_id = p.user_id;
    message_id = message_id;
    correlation_id = correlation_id;
    to = p.to;
    expiry_time = some p.absolute_expiry_time;
  })

-- The switch on an annotation's key.
unfoldable pub annotate : Bytes → Field → Message → Result Message
unfolding time_or_zero as_string set_property sprint
annotate key v m =
    if same key (codes "iothub-enqueuedtime")
    then ok (record m { enqueued_time = some (time_or_zero v) })
    else if same key (codes "iothub-connection-device-id")
    then (as_string v >>= λ s. ok (record m { connection_device_id = s }))
    else if same key (codes "iothub-connection-auth-generation-id")
    then (as_string v >>= λ s. ok (record m { connection_device_generation_id = s }))
    else if same key (codes "iothub-connection-auth-method")
    then (as_string v >>= λ s. ok (record m { connection_auth_method = s }))
    else if same key (codes "iothub-message-source")
    then (as_string v >>= λ s. ok (record m { message_source = s }))
    else ok (set_property key (sprint v) m)

-- A key that is no string falls to the default, whose assertion panics.
unfoldable pub annotate_all : List (Field × Field) → Message → Result Message
unfolding annotate
annotate_all [] m = ok m
annotate_all ((text key, v) ∷ rest) m = annotate key v m >>= λ m'. annotate_all rest m'
annotate_all ((time t s, v) ∷ rest) m = panic
annotate_all ((foreign s, v) ∷ rest) m = panic

unfoldable pub add_properties : Dict Field → Message → Result Message
unfolding as_string set_property
add_properties [] m = ok m
add_properties ((k, v) ∷ rest) m = as_string v >>= λ s. add_properties rest (set_property k s m)

-- `msg.Data[0]`.
unfoldable pub first_payload : List (Option Bytes) → Result (Option Bytes)
first_payload [] = panic
first_payload (b ∷ bs) = ok b

unfoldable pub from_amqp_message : AmqpMessage → Result Message
unfolding first_payload from_properties
from_amqp_message msg = do
  payload ← first_payload msg.payloads
  let m = record empty_message { payload = payload; properties = some [] }
  m' ← from_properties msg.properties m
  m'' ← annotate_all msg.annotations m'
  add_properties msg.application_properties m''

unfoldable pub to_fields : Dict Bytes → Dict Field
to_fields [] = []
to_fields ((k, v) ∷ rest) = (k, text v) ∷ to_fields rest

abbrev pub converted : ℕ → Message → AmqpMessage
converted t msg = record {
  payloads = msg.payload ∷ [];
  properties = some (record {
    message_id = some (text msg.message_id);
    user_id = msg.user_id;
    to = msg.to;
    correlation_id = some (text msg.correlation_id);
    absolute_expiry_time = t;
  });
  annotations = [];
  application_properties = to_fields (made msg.properties);
}

-- `*msg.ExpiryTime`: a nil pointer is the panic.
unfoldable pub to_amqp_message : Message → Result AmqpMessage
to_amqp_message msg = elim msg.expiry_time [ none ↦ panic | some t ↦ ok (converted t msg) ]
