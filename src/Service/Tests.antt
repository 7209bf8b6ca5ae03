-- ===== src/Service/Tests.antt =====
-- The theorems of Service at concrete inputs.
use golang_iothub.Base.{◌≡◌, refl, [], none, some, false, pos, same_int, arith, codes, ok, ◌>>=◌}
use golang_iothub.Common.Credentials.{Credentials, blank, parse_connection_string}
use golang_iothub.Base.{
  ℕ, panic, ◌⊎◌, List, ◌∷◌, Option, Bytes, Result, err, Error, same, lookup, ◌≢◌,
}
use golang_iothub.Common.Message.{Message}
use golang_iothub.Service.Send as Send
use golang_iothub.Service.Send.{is_ack, with_send_ack, with_sent_expiry_time, addressed, send_event}
use golang_iothub.Service.Send.Outcome.{Refused, service_send_event_outcome}
use golang_iothub.Common.AmqpMessage.{converted}
use golang_iothub.Amqp.{Peer, World, message, int32, acquire, lift, with_handle, send, receive}
use golang_iothub.Eventhub
use golang_iothub.Service.Closing.{close_service, close_service-connect}
use golang_iothub.Eventhub.{dial, put_token, check_message_response, check_status}
use golang_iothub.Service.Connect.{
  dialled, authorized, authorize, closed_client_on_error, connect, both, connect_releases,
}
use golang_iothub.Service.Registry.{Device}
use golang_iothub.Service.Keys.{
  device_key, key_of, device_connection_string, parse-device_connection_string,
}

abbrev device : Device
device = record {
  device_id = codes "dev";
  generation_id = [];
  etag = [];
  connection_state = [];
  status = [];
  status_reason = [];
  connection_state_updated_time = [];
  status_updated_time = [];
  last_activity_time = [];
  cloud_to_device_message_count = 0;
  authentication = some (record {
    symmetric_key = some (record { primary_key = codes "cA=="; secondary_key = codes "cw==" });
    x509_thumbprint = none;
    auth_type = codes "sas";
  });
  capabilities = [];
}

abbrev service_creds : Credentials
service_creds = record blank { host_name = codes "h.net" }

parse-device_connection_string_example :
    (device_connection_string service_creds (some device) false >>= parse_connection_string)
    ≡ ok (record blank {
      host_name = codes "h.net";
      device_id = codes "dev";
      shared_access_key = codes "cA==";
    })
unfolding device_key key_of
parse-device_connection_string_example =
    parse-device_connection_string service_creds device false (codes "cA==") refl (omega arith)
      (omega arith) (omega arith)

abbrev opts : List (Message → Result Message)
opts = with_send_ack (codes "full") ∷ with_sent_expiry_time 7 ∷ []

service_send_event_outcome_example :
    let r = send_event none none (λ _. ok tt) (codes "dev") (some (codes "hi")) opts in
    ((body : Bytes) × (msg : Message) × (codes "dev" ≢ [])
      × (some (codes "hi") ≡ some body)
      × (◌≡◌ {A = Option Error} none none)
      × (◌≡◌ {A = Option Error} none none)
      × (Send.apply_options (addressed (codes "dev") body) opts ≡ ok msg)
      × (((t : ℕ) × (msg.expiry_time ≡ some t) × (r ≡ (converted t msg ∷ [], ok tt)))
          ⊎ ((msg.expiry_time ≡ none) × (r ≡ ([], panic)))))
    ⊎ (Refused none none (codes "dev") (some (codes "hi")) opts × (r.0 ≡ []) × (r.1 ≢ ok tt))
service_send_event_outcome_example =
    service_send_event_outcome none none (λ _. ok tt) (codes "dev") (some (codes "hi")) opts

-- A broker where everything opens, and no token is accepted.
abbrev broker : Peer
broker = record {
  opens = λ k. none;
  closes = λ k. none;
  sends = λ k. some Error.context_done;
  receives = λ k. err Error.context_done;
  detaches = λ k. message;
  random = λ k. ok [];
}

abbrev quiet : World
quiet = record { calls = 0; is_open = [] }

connect_releases_example :
    let r = connect broker (ok []) none quiet in
    ((e : Error) → r.1 ≡ err e → r.0.is_open ≡ [])
    × ((eh : Eventhub.Client) → r.1 ≡ ok eh → (eh ≡ dialled quiet) × (r.0.is_open ≡ both quiet))
connect_releases_example = connect_releases broker (ok []) quiet tt (λ k. refl)

-- A broker that accepts the token.
abbrev accepting : Peer
accepting = record broker {
  sends = λ k. none;
  receives = λ k. ok (record {
    application_properties = (codes "status-code", int32 (pos 200)) ∷ [];
    correlation_id = none;
    value = none;
  });
}

connects : (connect accepting (ok []) none quiet).1 ≡ ok (dialled quiet)
unfolding connect authorized authorize closed_client_on_error dial put_token check_message_response
    check_status acquire lift with_handle send receive lookup same same_int
connects = refl

close_service-connect_example :
    let closed =
      close_service accepting
        (record { is_done = false; conn = some (dialled quiet) })
        (connect accepting (ok []) none quiet).0 in
    (closed.0.is_open ≡ [])
    × ((x : World) → close_service accepting closed.1 x ≡ (x, closed.1, ok tt))
close_service-connect_example =
    close_service-connect accepting (ok []) quiet (dialled quiet) tt (λ k. refl) connects
