-- ===== src/Common/Message.antt =====
-- common/message.go: the message of all device-facing protocols. A nil map is `none`, and so is a
-- nil payload; a time is a number of seconds, `some 0` a pointer to the zero time.
use golang_iothub.Base.{ℕ, ℤ, [], Option, none, Bytes, Dict}

-- What `TransportOptions` holds: an `int`, or a value of any other type.
pub data OptionValue : Type 0 where
  int : ℤ → OptionValue
  foreign : OptionValue

pub record Message : Type 0 where
  pub message_id : Bytes
  pub to : Bytes
  pub expiry_time : Option ℕ
  pub enqueued_time : Option ℕ
  pub correlation_id : Bytes
  pub user_id : Bytes
  pub connection_device_id : Bytes
  pub connection_device_generation_id : Bytes
  pub connection_auth_method : Bytes
  pub message_source : Bytes
  pub payload : Option Bytes
  pub properties : Option (Dict Bytes)
  pub transport_options : Option (Dict OptionValue)

-- `&Message{}`.
abbrev pub empty_message : Message
empty_message = record {
  message_id = [];
  to = [];
  expiry_time = none;
  enqueued_time = none;
  correlation_id = [];
  user_id = [];
  connection_device_id = [];
  connection_device_generation_id = [];
  connection_auth_method = [];
  message_source = [];
  payload = none;
  properties = none;
  transport_options = none;
}
