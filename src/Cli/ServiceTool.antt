-- ===== src/Cli/ServiceTool.antt =====
-- cmd/iothub-service/main.go: the command line tool for the service side.
pub mod Commands
pub mod Table
pub mod TwinUpdates
use golang_iothub.Base.{
  ℕ, List, [], ◌∷◌, ◌++◌, Option, none, some, Bool, true, false, ◌||◌, not, Bytes, codes, Dict,
  length, map, ltb, if◌then◌else◌, ℤ, pos, negsuc, Result, ok, err, panic, Error, ◌>>=◌,
}
use golang_iothub.Base.Json.{Json}
use golang_iothub.Common.Credentials.{Credentials, blank}
use golang_iothub.Common.Sas.{Crypto, is_blank, sas}
use golang_iothub.Common.AmqpMessage.{AmqpMessage}
use golang_iothub.Service.Registry.{
  SymmetricKey, X509Thumbprint, Authentication, Device, Properties, Twin, Stats, CallResult,
}
use golang_iothub.Service.Rest.{HttpRequest, HttpResponse, Endpoint, Answer}
use golang_iothub.Service.Devices as Devices
use golang_iothub.Service.Devices.{Codec, with_call_connect_timeout, with_call_response_timeout}
use golang_iothub.Service.Keys.{device_connection_string, device_sas}
use golang_iothub.Service.Client as Client
use golang_iothub.Service.Client.{Config, new_client}
use golang_iothub.Service.Send as Send
use golang_iothub.Cli.{Command, args_to_map}
use golang_iothub.Cli.Tools.{twin_values}

-- The global variables that the flags set.
pub record Vars : Type 0 where
  pub uid : Bytes
  pub mid : Bytes
  pub cid : Bytes
  pub exp : ℤ
  pub ack : Bytes
  pub connect_timeout : ℕ
  pub response_timeout : ℕ
  pub auto_generate : Bool
  pub primary_key : Bytes
  pub secondary_key : Bytes
  pub primary_thumbprint : Bytes
  pub secondary_thumbprint : Bytes
  pub debug : Bool
  pub secondary : Bool
  pub uri : Bytes
  pub duration : ℕ

-- `json.MarshalIndent` on the types that are printed.
pub record Printer : Type 0 where
  pub print_device : Device → Result Bytes
  pub print_devices : List Device → Result Bytes
  pub print_twin : Twin → Result Bytes
  pub print_stats : Stats → Result Bytes
  pub print_result : CallResult → Result Bytes
  pub print_object : Dict Json → Result Bytes
  pub print_objects : List (Dict Json) → Result Bytes

-- A watch that ends: the lines that it prints, and the error of the subscription or of `OutputJSON`.
abbrev pub Watched : Type 0
Watched = List Bytes × Error

-- What the tool uses of its environment: the variable SERVICE_CONNECTION_STRING, the packages
-- crypto, time, net/http and encoding/json, the k-th 32 bytes of crypto/rand, the AMQP connection,
-- and what its two subscriptions bring.
pub record Outside : Type 0 where
  pub connection_string : Bytes
  pub crypto : Crypto
  pub clock : ℕ
  pub later : ℤ → ℕ
  pub read_random : ℕ → Result Bytes
  pub random_string : Result Bytes
  pub new_request : Bytes → Bytes → Option Error
  pub perform : HttpRequest → Result HttpResponse
  pub codec : Codec
  pub printer : Printer
  pub unmarshal_payload : Bytes → Result (Dict Json)
  pub connection : Option Error
  pub open_link : Option Error
  pub deliver : AmqpMessage → Result (Unit {0})
  pub events : Watched
  pub feedback : Watched

-- What a handler does besides its result.
pub data Effect : Type 0 where
  request : HttpRequest → Effect
  message : AmqpMessage → Effect
  line : Bytes → Effect

abbrev pub Done : Type 0
Done = List Effect × Result (Unit {0})

abbrev pub invalid_usage : Done
invalid_usage = ([], err Error.invalid_usage)

-- The end of a handler: an error, or the value as one line. Writing to stdout is taken to succeed.
unfoldable pub printed : List Effect → Result Bytes → Done
printed sent (ok s) = (sent ++ line s ∷ [], ok tt)
printed sent (err e) = (sent, err e)
printed sent panic = (sent, panic)

unfoldable pub output_json {ℓ} : {A : Type ℓ} → (A → Result Bytes) → Answer A → Done
unfolding printed
output_json marshal (sent, r) = printed (map request sent) (r >>= marshal)

-- The client's credentials, and what `call` uses of them.
unfoldable pub endpoint : Outside → Credentials → Endpoint
endpoint out creds = record {
  host_name = creds.host_name;
  sas = sas out.crypto out.clock creds creds.host_name 3600000000000;
  random_string = out.random_string;
  new_request = out.new_request;
  perform = out.perform;
}

abbrev blank_device : Bytes → Device
blank_device id = record {
  device_id = id;
  generation_id = [];
  etag = [];
  connection_state = [];
  status = [];
  status_reason = [];
  connection_state_updated_time = [];
  status_updated_time = [];
  last_activity_time = [];
  cloud_to_device_message_count = 0;
  authentication = none;
  capabilities = [];
}

abbrev sas_authentication : Vars → Authentication
sas_authentication v = record {
  symmetric_key = some (record { primary_key = v.primary_key; secondary_key = v.secondary_key });
  x509_thumbprint = none;
  auth_type = codes "sas";
}

abbrev self_signed_authentication : Vars → Authentication
self_signed_authentication v = record {
  symmetric_key = none;
  x509_thumbprint = some (record {
    primary_thumbprint = v.primary_thumbprint;
    secondary_thumbprint = v.secondary_thumbprint;
  });
  auth_type = codes "selfSigned";
}

-- The device that the flags describe: thumbprints take the place of keys.
unfoldable pub described_device : Vars → Bytes → Device
described_device v id =
    let keys : Option Authentication =
      if not (is_blank v.primary_key) || not (is_blank v.secondary_key)
      then some (sas_authentication v)
      else none in
    let thumbprints : Option Authentication =
      if not (is_blank v.primary_thumbprint) || not (is_blank v.secondary_thumbprint)
      then some (self_signed_authentication v)
      else keys in
    record (blank_device id) { authentication = thumbprints }

-- `NewSymmetricKey`, from the bytes of `rand.Read`.
unfoldable pub new_symmetric_key : Crypto → Result Bytes → Result Bytes
new_symmetric_key crypto (ok b) = ok (crypto.encode_to_string b)
new_symmetric_key crypto (err e) = err e
new_symmetric_key crypto panic = panic

module _ (out : Outside) where
  -- `-auto` overwrites the variables of the keys.
  unfoldable pub generated : Vars → Result Vars
  unfolding new_symmetric_key
  generated v =
      let made = (do
        first ← new_symmetric_key out.crypto (out.read_random 0)
        second ← new_symmetric_key out.crypto (out.read_random 1)
        ok (record v { primary_key = first; secondary_key = second })) in
      if v.auto_generate then made else ok v

  -- A handler of the tool: the client's credentials, the variables and the arguments.
  module _ (creds : Credentials) (v : Vars) where
    unfoldable pub device_command : List Bytes → Done
    unfolding output_json
    device_command (id ∷ []) =
        output_json out.printer.print_device (Devices.get_device (endpoint out creds) out.codec id)
    device_command [] = invalid_usage
    device_command (id ∷ a ∷ args) = invalid_usage

    unfoldable pub devices_command : List Bytes → Done
    unfolding output_json
    devices_command [] =
        output_json out.printer.print_devices (Devices.list_devices (endpoint out creds) out.codec)
    devices_command (a ∷ args) = invalid_usage

    unfoldable pub create_described : Bytes → Result Vars → Done
    unfolding output_json described_device
    create_described id (ok v') =
        output_json out.printer.print_device
          (Devices.create_device (endpoint out creds) out.codec (some (described_device v' id)))
    create_described id (err e) = ([], err e)
    create_described id panic = ([], panic)

    unfoldable pub create_device_command : List Bytes → Done
    unfolding create_described generated
    create_device_command (id ∷ []) = create_described id (generated v)
    create_device_command [] = invalid_usage
    create_device_command (id ∷ a ∷ args) = invalid_usage

    unfoldable pub update_device_command : List Bytes → Done
    unfolding output_json described_device
    update_device_command (id ∷ []) =
        output_json out.printer.print_device
          (Devices.update_device (endpoint out creds) out.codec (some (described_device v id)))
    update_device_command [] = invalid_usage
    update_device_command (id ∷ a ∷ args) = invalid_usage

    abbrev only_requests : Answer (Unit {0}) → Done
    only_requests (sent, r) = (map request sent, r)

    unfoldable pub delete_device_command : List Bytes → Done
    delete_device_command (id ∷ []) =
        only_requests (Devices.delete_device (endpoint out creds) out.codec id)
    delete_device_command [] = invalid_usage
    delete_device_command (id ∷ a ∷ args) = invalid_usage

    unfoldable pub stats_command : List Bytes → Done
    unfolding output_json
    stats_command [] =
        output_json out.printer.print_stats (Devices.get_stats (endpoint out creds) out.codec)
    stats_command (a ∷ args) = invalid_usage

    unfoldable pub twin_command : List Bytes → Done
    unfolding output_json
    twin_command (id ∷ []) =
        output_json out.printer.print_twin (Devices.get_twin (endpoint out creds) out.codec id)
    twin_command [] = invalid_usage
    twin_command (id ∷ a ∷ args) = invalid_usage
