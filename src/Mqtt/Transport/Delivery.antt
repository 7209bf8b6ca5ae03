-- ===== src/Mqtt/Transport/Delivery.antt =====
-- From the topic of a cloud-to-device message to the handlers of the message mux.
use golang_iothub.Base.{[], Option, some, Bytes}
use golang_iothub.Common.Message.{Message, empty_message}

-- What parseEventMessage starts from.
abbrev pub received : Option Bytes → Message
received payload = record empty_message { payload = payload; properties = some [] }
