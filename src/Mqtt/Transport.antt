-- ===== src/Mqtt/Transport.antt =====
-- iotdevice/transport/mqtt/mqtt.go: Connect, Close, and the handlers that the transport subscribes.
pub mod Calls
pub mod Delivery
use golang_iothub.Base.{
  ℕ, suc, List, [], ◌∷◌, ◌++◌, Option, none, some, Bool, true, false, ◌&&◌, Bytes, codes,
  if◌then◌else◌, ℤ, pos, negsuc, Result, ok, err, panic, Error, ◌>>=◌,
}
use golang_iothub.Std.Strconv.{format_int, format_signed}
use golang_iothub.Std.Url.Query.{Url}
use golang_iothub.Common.Message.{Message}
use golang_iothub.Common.Sas.{Crypto}
use golang_iothub.Device.Mux.Handlers.{Handler}
use golang_iothub.Device.Mux.Messages as Messages
use golang_iothub.Device.Mux.Messages.{MessageMux}
use golang_iothub.Device.Mux.Methods as Methods
use golang_iothub.Device.Mux.Methods.{MethodMux, Codec}
use golang_iothub.Device.Options.{
  Provider, DeviceCredentials, device_id, hostname, is_sas, get_token,
}
use golang_iothub.Mqtt.Topics.{
  Clock, Publication, send, parse_event_message, parse_direct_method_topic,
}

-- The fields of Transport that Connect and Close use: whether `conn` is set, the device id, and
-- whether `done` is closed.
pub record Transport : Type 0 where
  pub has_conn : Bool
  pub did : Bytes
  pub is_done : Bool

-- `New`.
abbrev pub new_transport : Transport
new_transport = record { has_conn = false; did = []; is_done = false }

-- The options of the MQTT client, less its TLS configuration and its logging handlers.
pub record ClientOptions : Type 0 where
  pub password : Option Bytes
  pub broker : Bytes
  pub client_id : Bytes
  pub username : Bytes

-- The password is a token of an hour, where the credentials have tokens.
unfoldable pub password_of : Crypto → ℕ → Provider → DeviceCredentials → Result (Option Bytes)
password_of crypto clock p creds =
    let token =
      get_token crypto clock p creds (hostname p creds) 3600000000000 >>= λ pwd. ok (some pwd) in
    if is_sas p creds then token else ok none

unfoldable pub client_options : Provider → DeviceCredentials → Option Bytes → ClientOptions
client_options p creds pwd = record {
  password = pwd;
  broker = codes "tls://" ++ (hostname p creds ++ codes ":8883");
  client_id = device_id p creds;
  username =
      hostname p creds ++ (codes "/" ++ (device_id p creds ++ codes "/api-version=2018-01-16"));
}

-- `contextToken` of the library's `Connect`, which is `dial`, and what is stored behind it.
unfoldable pub dialled :
    (ClientOptions → Option Error)
    → Provider
    → DeviceCredentials
    → Transport
    → Result (Option Bytes)
    → Transport × Result (Unit {0})
unfolding client_options
dialled dial p creds tr (err e) = (tr, err e)
dialled dial p creds tr panic = (tr, panic)
dialled dial p creds tr (ok pwd) = elim (dial (client_options p creds pwd)) [
  | some e ↦ (tr, err e)
  | none ↦ (record tr { has_conn = true; did = device_id p creds }, ok tt)
]

unfoldable pub connect_transport :
    (ClientOptions → Option Error)
    → Crypto
    → ℕ
    → Provider
    → DeviceCredentials
    → Transport
    → Transport × Result (Unit {0})
unfolding dialled password_of
connect_transport dial crypto clock p creds tr =
    let made = dialled dial p creds tr (password_of crypto clock p creds) in
    if tr.has_conn then (tr, err Error.already_connected) else made

-- The transport behind `Close`, and whether it disconnects; `is_connected` is what the library's
-- client says.
unfoldable pub close_transport : Bool → Transport → Transport × Bool
close_transport is_connected tr =
    if tr.is_done then (tr, false) else (record tr { is_done = true }, tr.has_conn && is_connected)

-- The handler of `SubscribeEvents`: the calls that the mux makes of a message that is understood.
unfoldable pub on_event :
    Clock → MessageMux → Bytes → Option Bytes → Result (List (Handler × Message))
on_event clock mux topic payload = elim (parse_event_message clock topic payload) [
  | ok msg ↦ ok (Messages.dispatch mux msg)
  | err e ↦ ok []
  | panic ↦ panic
]

unfoldable pub response_topic_of : ℕ → ℤ → Bytes
unfolding format_signed
response_topic_of rc rid =
    codes "$iothub/methods/res/" ++ (format_int rc ++ (codes "/?$rid=" ++ format_signed rid))

-- What was published; the error is only logged.
unfoldable pub published : List Publication × Result (Unit {0}) → Result (List Publication)
published (sent, ok u) = ok sent
published (sent, err e) = ok sent
published (sent, panic) = panic

-- A result of `Dispatch` is published under the number of the call.
unfoldable pub respond :
    (Publication → Result (Unit {0})) → Bool → ℤ → Result (ℕ × Bytes) → Result (List Publication)
unfolding send response_topic_of published
respond publish connected rid (ok (rc, b)) =
    published (send publish connected (response_topic_of rc rid) (pos 1) (some b))
respond publish connected rid (err e) = ok []
respond publish connected rid panic = panic

-- The handler of `RegisterDirectMethods`.
unfoldable pub on_method :
    (Bytes → Result Url)
    → (Publication → Result (Unit {0}))
    → Bool
    → Codec
    → MethodMux
    → Bytes
    → Bytes
    → Result (List Publication)
unfolding respond parse_direct_method_topic
on_method other publish connected codec mux topic payload =
    elim (parse_direct_method_topic other topic) [
      | ok (method, rid) ↦ respond publish connected rid (Methods.dispatch codec mux method payload)
      | err e ↦ ok []
      | panic ↦ panic
    ]
