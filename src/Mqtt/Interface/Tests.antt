-- ===== src/Mqtt/Interface/Tests.antt =====
-- The device client over an MQTT transport whose first dial fails with a network error.
use golang_iothub.Base.{
  ℕ, zero, suc, ◌<◌, ◌≡◌, ◌≢◌, ◌⊎◌, insert, ◌==◌, refl, List, [], ◌∷◌, ◌++◌, Option, none, some,
  true, false, Bytes, codes, lookup, if◌then◌else◌, Result, ok, err, pos, Error, arith,
}
use mathlib.Core.Option
use golang_iothub.Common.Message.{Message, empty_message}
use golang_iothub.Device.Connect.{
  ConnOption, with_conn_ignore_net_errors, apply_conn_options, is_retried,
}
use golang_iothub.Device.Options.{DeviceCredentials, x509_creds, device_id, is_sas}
use golang_iothub.Device.Send.{SendOption, with_send_message_id, with_send_property, apply_options}
use golang_iothub.Device.Session.{Session, ignores, connect, send_event}
use golang_iothub.Device.Session.Connecting.{connect_again_breaks, connect_outcome}
use golang_iothub.Device.Session.Attempts.{attempts}
use golang_iothub.Device.Transport.{IsTransport}
use golang_iothub.Mqtt.Topics.{Publication, events_prefix, qos_of, is_network_error}
use golang_iothub.Mqtt.Topics.Events.{sent_value}
use golang_iothub.Mqtt.Transport.{new_transport}
use golang_iothub.Mqtt.Interface.{Environment, Wire, mqtt, connect_wire}
use golang_iothub.Mqtt.Interface.Laws.{mqtt-IsTransport}
use golang_iothub.Mqtt.Interface.Sending.{attempt, is_again, connect-send_event}
use golang_iothub.Std.Strings.{contains, has_prefix, index}
use golang_iothub.Std.Url.Query.{Values, parse_query}

abbrev text_of : Error → Bytes
text_of e = elim e as (λ e. Bytes) [
  | Error.already_connected ↦ codes "already connected"
  | Error.other s ↦ s
  | _ ↦ []
]

abbrev environment : Environment
environment = record {
  text = text_of;
  time = record { format = λ t. codes "2018-01-16T00:00:00Z"; parse = λ v. ok 1516060800 };
  crypto = record { decode_string = ok; encode_to_string = λ b. b; hmac_sha256 = λ key text. text };
  provider = record {
    device_id_of = λ r. [];
    hostname_of = λ r. [];
    is_sas_of = λ r. false;
    token_of = λ r uri d. err Error.not_supported;
  };
  now = λ k. k;
  dial = λ k o. if k == 0 then some (Error.other (codes "Network Error : timeout")) else none;
  publish = λ p. ok tt;
  hub = λ filter qos. none;
  requested = λ payload. err Error.request_timed_out;
  is_connected = true;
}

abbrev fresh : Session Wire DeviceCredentials
fresh = record {
  creds = x509_creds (codes "d1") (codes "hub") 1;
  tr = record { tr = new_transport; attempts = 0; published = []; disconnects = 0 };
  conn_err = none;
}

abbrev online : Session Wire DeviceCredentials
online = record fresh {
  tr = record {
    tr = record { has_conn = true; did = codes "d1"; is_done = false };
    attempts = 2;
    published = [];
    disconnects = 0;
  };
}

mqtt-IsTransport_example :
    IsTransport Wire DeviceCredentials (mqtt environment) (λ w. w.tr.has_conn)
mqtt-IsTransport_example = mqtt-IsTransport environment

connect_again_breaks_example :
    (c' : Session Wire DeviceCredentials) × (connect (mqtt environment) 1 [] online
      ≡ some (c', err Error.already_connected))
    × (c'.tr.tr.has_conn ≡ true)
    × ((payload : Option Bytes) (sending : List SendOption)
        → send_event (mqtt environment) payload sending c' ≡ (c', err Error.already_connected))
unfolding is_network_error contains index has_prefix
connect_again_breaks_example =
    connect_again_breaks (mqtt environment) (λ w. w.tr.has_conn) (mqtt-IsTransport environment) 0 []
      online refl refl

abbrev ignoring : List ConnOption
ignoring = with_conn_ignore_net_errors true ∷ []

online_test : connect (mqtt environment) 2 ignoring fresh ≡ some (online, ok tt)
unfolding connect connect_wire is_sas apply_conn_options with_conn_ignore_net_errors
    is_network_error contains has_prefix device_id
online_test = refl

abbrev returned : Result (Unit {0})
returned = ok tt

connect_outcome_example :
    (returned ≡ ok tt) × (online.tr.tr.has_conn ≡ true) × (online.conn_err ≡ none)
    ⊎ (returned ≢ ok tt)
      × (online.tr.tr.has_conn ≡ false)
      × ((payload : Option Bytes) (sending : List SendOption)
          → ((send_event (mqtt environment) payload sending online).0.tr ≡ online.tr)
            × ((send_event (mqtt environment) payload sending online).1 ≢ ok tt))
connect_outcome_example =
    connect_outcome (mqtt environment) (λ w. w.tr.has_conn) (mqtt-IsTransport environment) 2
      ignoring fresh online (ok tt) refl online_test

abbrev greeting : List SendOption
greeting = with_send_message_id (codes "m 1") ∷ with_send_property (codes "a") (codes "b&c") ∷ []

abbrev greeted : Message
greeted = record empty_message {
  message_id = codes "m 1";
  payload = some (codes "hi");
  properties = some ((codes "a", codes "b&c") ∷ []);
}

first_ignored :
    (i : ℕ)
    → i < 1
    → is_again environment (ignores ignoring) (attempt environment fresh.creds fresh.tr i) ≡ true
unfolding is_retried connect_wire is_sas apply_conn_options with_conn_ignore_net_errors
    is_network_error contains has_prefix
first_ignored zero l = refl
first_ignored (suc i) l = absurd (omega arith)

connect-send_event_example :
    (c' c'' : Session Wire DeviceCredentials) × (p : Publication) × (query : Bytes)
    × (values : Values) × (connect (mqtt environment) 2 ignoring fresh ≡ some (c', ok tt))
    × (c'.tr.attempts ≡ 2)
    × (send_event (mqtt environment) (some (codes "hi")) greeting c' ≡ (c'', ok tt))
    × (c''.tr.published ≡ p ∷ [])
    × (p.payload ≡ some (codes "hi"))
    × (p.topic ≡ events_prefix (codes "d1") ++ query)
    × (parse_query query ≡ (values, none))
    × ((k : Bytes)
        → lookup k values ≡ Option.map (λ v. v ∷ []) (sent_value environment.time greeted k))
unfolding device_id lookup qos_of apply_options with_send_message_id with_send_property insert
    connect_wire is_sas
connect-send_event_example =
    connect-send_event environment 1 2 ignoring fresh (codes "hi") greeting greeted (pos 1) refl
      (omega arith) first_ignored refl refl
      (record {
        properties = ((refl, tt), ((omega arith, omega arith), tt));
        message_id = omega arith;
        correlation_id = omega arith;
        user_id = omega arith;
        to = omega arith;
      })
      (λ t. omega arith) refl
