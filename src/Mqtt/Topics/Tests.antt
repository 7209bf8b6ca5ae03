-- ===== src/Mqtt/Topics/Tests.antt =====
-- A cloud-to-device message, and one that is cut.
use golang_iothub.Base.{◌≡◌, refl, [], ◌∷◌, true, codes, Bytes, Dict, ok, lookup, insert, same}
use golang_iothub.Common.Message.{Message}
use golang_iothub.Device.Mux.Messages.{MessageMux}
use golang_iothub.Device.Mux.Handlers.{Handler}
use golang_iothub.Std.Url.{query_unescape}
use golang_iothub.Std.Strings.{index, has_prefix, split_two}
use golang_iothub.Mqtt.Topics.{Clock, parse_cloud_to_device_topic}
use golang_iothub.Std.Url.Query.{parse_query}

abbrev clock : Clock
clock = record { format = λ t. codes "2018-01-16T00:00:00Z"; parse = λ v. ok 1516060800 }

abbrev arrived : Dict Bytes
arrived =
    (codes "$.mid", codes "m 1")
    ∷ (codes "$.exp", codes "2018-01-16T00:00:00Z")
    ∷ (codes "a", codes "x=y")
    ∷ []

abbrev first : Handler
first = record { code = 3; closure = 0 }

abbrev second : Handler
second = record { code = 5; closure = 0 }

abbrev two_handlers : MessageMux
two_handlers = record { on = true; s = first ∷ second ∷ [] }

-- A value that holds an ampersand, escaped as documented, is cut at it.
cut_value_test :
    parse_cloud_to_device_topic (codes "devices/d/messages/devicebound/%24.to=a%26b")
    ≡ ok ((codes "$.to", codes "a") ∷ (codes "b", []) ∷ [])
unfolding parse_cloud_to_device_topic query_unescape index has_prefix parse_query split_two insert
    same lookup
cut_value_test = refl
