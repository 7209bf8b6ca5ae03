-- ===== src/Mqtt/Topics.antt =====
-- iotdevice/transport/mqtt/mqtt.go: the topics that are built and parsed, and the messages that
-- they carry.
pub mod Queries
pub mod Responses
pub mod Versions
pub mod Events
pub mod Devicebound
pub mod Fields
pub mod Reading
mod Tests
use golang_iothub.Base.{
  ℕ, List, [], ◌∷◌, ◌++◌, Option, none, some, Bool, true, false, not, Bytes, codes, Dict, lookup,
  insert, length, drop, same, ◌==◌, if◌then◌else◌, ℤ, pos, Result, ok, err, panic, Error, ◌>>=◌,
}
use golang_iothub.Common.Message.{Message, OptionValue, int, foreign, empty_message}
use golang_iothub.Std.Strings.{contains, index, has_prefix, trim_right, trim}
use golang_iothub.Std.Strconv.{format_int}
use golang_iothub.Std.Strconv.Parse.{atoi}
use golang_iothub.Std.Url.{query_unescape}
use golang_iothub.Std.Url.Query.{Values, Url, parse_query, parse_url, encode_query, or_empty}

-- `IsNetworkError`, of an error with its text; `none` is nil.
unfoldable pub is_network_error : Option Bytes → Bool
is_network_error none = false
is_network_error (some message) = contains message (codes "Network Error")

-- Package time: `Format(time.RFC3339)` in UTC, and `time.Parse(time.RFC3339, v)`.
pub record Clock : Type 0 where
  pub format : ℕ → Bytes
  pub parse : Bytes → Result ℕ

-- `if msg.MessageID != "" { u["$.mid"] = … }`.
unfoldable pub put_text : Bytes → Bytes → Dict Bytes → Dict Bytes
put_text key [] u = u
put_text key (c ∷ s) u = insert key (c ∷ s) u

-- The zero time and a nil pointer are left out.
unfoldable pub put_expiry : Clock → Option ℕ → Dict Bytes → Dict Bytes
put_expiry clock none u = u
put_expiry clock (some t) u = if t == 0 then u else insert (codes "$.exp") (clock.format t) u

unfoldable pub put_all : Dict Bytes → Dict Bytes → Dict Bytes
put_all [] u = u
put_all ((k, v) ∷ rest) u = put_all rest (insert k v u)

abbrev pub properties_of : Option (Dict Bytes) → Dict Bytes
properties_of none = []
properties_of (some d) = d

-- The values of a message's topic.
unfoldable pub topic_values : Clock → Message → Dict Bytes
unfolding put_text put_expiry put_all
topic_values clock msg = put_all (properties_of msg.properties) (
    put_expiry clock msg.expiry_time (
      put_text (codes "$.to") msg.to (
        put_text (codes "$.uid") msg.user_id (
          put_text (codes "$.cid") msg.correlation_id
            (put_text (codes "$.mid") msg.message_id [])))))

unfoldable pub events_prefix : Bytes → Bytes
events_prefix did = codes "devices/" ++ (did ++ codes "/messages/events/")

unfoldable pub event_topic : Clock → Bytes → Message → Bytes
unfolding topic_values events_prefix
event_topic clock did msg = events_prefix did ++ encode_query (topic_values clock msg)

-- `q.(int)`.
unfoldable pub qos_of : Option OptionValue → Result ℤ
qos_of none = ok (pos 1)
qos_of (some (int n)) = ok n
qos_of (some foreign) = panic

abbrev pub options_of : Option (Dict OptionValue) → Dict OptionValue
options_of none = []
options_of (some d) = d

-- What is published: a topic, a quality of service and a payload.
pub record Publication : Type 0 where
  pub topic : Bytes
  pub qos : ℕ
  pub payload : Option Bytes

-- `send`: `defaultQoS` is published whatever the parameter is. `publish` is the MQTT library's
-- `Publish` and the wait for it; the first flag says whether `tr.conn` is set.
unfoldable pub send :
    (Publication → Result (Unit {0}))
    → Bool
    → Bytes
    → ℤ
    → Option Bytes
    → List Publication × Result (Unit {0})
send publish false topic qos payload = ([], err Error.not_connected)
send publish true topic qos payload =
    let p : Publication = record { topic = topic; qos = 1; payload = payload } in
    (p ∷ [], publish p)

unfoldable pub send_with :
    (Publication → Result (Unit {0}))
    → Bool
    → Bytes
    → Option Bytes
    → Result ℤ
    → List Publication × Result (Unit {0})
unfolding send
send_with publish connected topic payload (ok qos) = send publish connected topic qos payload
send_with publish connected topic payload (err e) = ([], err e)
send_with publish connected topic payload panic = ([], panic)

-- `Send`.
unfoldable pub send_message :
    (Publication → Result (Unit {0}))
    → Clock
    → Bool
    → Bytes
    → Message
    → List Publication × Result (Unit {0})
unfolding send_with event_topic qos_of
send_message publish clock connected did msg =
    send_with publish connected (event_topic clock did msg) msg.payload
      (qos_of (lookup (codes "qos") (options_of msg.transport_options)))

-- The range loop over the parsed values: each key has one.
unfoldable pub single_values : ℕ → Values → Result (Dict Bytes)
single_values n [] = ok []
single_values n ((k, []) ∷ q) = err (Error.unexpected_values n)
single_values n ((k, v ∷ []) ∷ q) = single_values n q >>= λ p. ok ((k, v) ∷ p)
single_values n ((k, v ∷ u ∷ vs) ∷ q) = err (Error.unexpected_values n)

unfoldable pub checked_values : Values × Option Error → Result (Dict Bytes)
unfolding single_values
checked_values (q, some e) = err e
checked_values (q, none) = single_values (length q) q

unfoldable pub parse_cloud_to_device_topic : Bytes → Result (Dict Bytes)
unfolding checked_values
parse_cloud_to_device_topic topic = do
  s ← query_unescape topic
  (elim (index s (codes "$.")) [
    | none ↦ err Error.malformed_topic
    | some i ↦ checked_values (parse_query (drop i s))
  ])

-- The switch on a key of the topic.
unfoldable pub set_field : Clock → Bytes → Bytes → Message → Result Message
set_field clock k v e =
    if same k (codes "$.mid")
    then ok (record e { message_id = v })
    else if same k (codes "$.cid")
    then ok (record e { correlation_id = v })
    else if same k (codes "$.uid")
    then ok (record e { user_id = v })
    else if same k (codes "$.to")
    then ok (record e { to = v })
    else if same k (codes "$.exp")
    then (clock.parse v >>= λ t. ok (record e { expiry_time = some t }))
    else ok (record e { properties = some (insert k v (properties_of e.properties)) })

unfoldable pub set_fields : Clock → Dict Bytes → Message → Result Message
unfolding set_field
set_fields clock [] e = ok e
set_fields clock ((k, v) ∷ p) e = set_field clock k v e >>= λ e'. set_fields clock p e'

unfoldable pub parse_event_message : Clock → Bytes → Option Bytes → Result Message
unfolding parse_cloud_to_device_topic set_fields
parse_event_message clock topic payload = do
  p ← parse_cloud_to_device_topic topic
  set_fields clock p (record empty_message { payload = payload; properties = some [] })

-- `len(q["$rid"]) != 1`, and `strconv.Atoi` of the one value.
unfoldable pub read_rid : List Bytes → Result ℤ
read_rid [] = err Error.rid_not_available
read_rid (v ∷ []) = elim (atoi v) [ none ↦ err Error.invalid_number | some n ↦ ok n ]
read_rid (v ∷ u ∷ vs) = err Error.rid_not_available

-- The version is read if there is one value, and 0 otherwise.
unfoldable pub read_version : List Bytes → Result ℤ
read_version [] = ok (pos 0)
read_version (v ∷ []) = elim (atoi v) [ none ↦ err Error.invalid_number | some n ↦ ok n ]
read_version (v ∷ u ∷ vs) = ok (pos 0)

-- What stands behind a prefix.
unfoldable pub behind : Bytes → Bytes → Result Bytes
behind prefix p =
    if has_prefix p prefix then ok (drop (length prefix) p) else err Error.malformed_topic

abbrev pub methods_prefix : Bytes
methods_prefix = codes "$iothub/methods/POST/"

abbrev pub responses_prefix : Bytes
responses_prefix = codes "$iothub/twin/res/"

abbrev pub values_of : Bytes → Url → List Bytes
values_of key u = or_empty (lookup key (parse_query u.raw_query).0)

-- The method's name and the request's number.
unfoldable pub parse_direct_method_topic : (Bytes → Result Url) → Bytes → Result (Bytes × ℤ)
unfolding behind read_rid
parse_direct_method_topic other topic = do
  s ← query_unescape topic
  u ← parse_url other s
  name ← behind methods_prefix (trim_right b'/' u.path)
  rid ← read_rid (values_of (codes "$rid") u)
  ok (name, rid)

abbrev pub read_code : Bytes → Result ℤ
read_code s = elim (atoi s) [ none ↦ err Error.invalid_number | some n ↦ ok n ]

-- The status code, the request's number and the version.
unfoldable pub parse_twin_props_topic : (Bytes → Result Url) → Bytes → Result (ℤ × ℤ × ℤ)
unfolding behind read_rid read_version
parse_twin_props_topic other topic = do
  u ← parse_url other topic
  code ← behind responses_prefix (trim b'/' u.path)
  rc ← read_code code
  rid ← read_rid (values_of (codes "$rid") u)
  ver ← read_version (values_of (codes "$version") u)
  ok (rc, rid, ver)

-- `fmt.Sprintf("$iothub/methods/res/%d/?$rid=%d", rc, rid)`, of a status code and a number that are
-- not negative.
unfoldable pub method_response_topic : ℕ → ℕ → Bytes
method_response_topic rc rid =
    codes "$iothub/methods/res/" ++ (format_int rc ++ (codes "/?$rid=" ++ format_int rid))

-- `fmt.Sprintf("$iothub/twin/GET/?$rid=%d", rid)`, and the topic of an update.
unfoldable pub twin_get_topic : ℕ → Bytes
twin_get_topic rid = codes "$iothub/twin/GET/?$rid=" ++ format_int rid

unfoldable pub twin_patch_topic : ℕ → Bytes
twin_patch_topic rid = codes "$iothub/twin/PATCH/properties/reported/?$rid=" ++ format_int rid
