-- ===== src/Cli/DeviceTool.antt =====
-- cmd/iothub-device/main.go: the command line tool for devices.
pub mod Prompt
pub mod Commands
pub mod Table
pub mod Clients
use golang_iothub.Base.{
  ℕ, zero, suc, List, [], ◌∷◌, ◌++◌, Option, none, some, Bool, true, false, ◌&&◌, not, Bytes, codes,
  Dict, map, same, if◌then◌else◌, ℤ, pos, Result, ok, err, panic, Error, ◌>>=◌, refuse_if,
}
use golang_iothub.Std.Strconv.{format_int}
use golang_iothub.Base.Json.{Json}
use golang_iothub.Common.Message.{Message}
use golang_iothub.Common.Sas.{is_blank}
use golang_iothub.Device.Mux.Handlers.{Handler}
use golang_iothub.Device.Mux.Methods.{Method}
use golang_iothub.Device.Mux.States.{TwinState}
use golang_iothub.Device.Client as Client
use golang_iothub.Device.Client.{Link, Muxes, Returns}
use golang_iothub.Device.Options as Options
use golang_iothub.Device.Options.{Reference, Config, ClientOption, new_client}
use golang_iothub.Device.Send as Send
use golang_iothub.Cli.{args_to_map}
use golang_iothub.Cli.Tools.{twin_values}

-- The global variables that the flags set.
pub record Vars : Type 0 where
  pub debug : Bool
  pub quite : Bool
  pub transport : Bytes
  pub mid : Bytes
  pub cid : Bytes
  pub tls_cert : Bytes
  pub tls_key : Bytes
  pub device_id : Bytes
  pub hostname : Bytes

-- A command that waits on `errc` and ends: the lines that it prints, and the error that it gets.
abbrev pub Watched : Type 0
Watched = List Bytes × Error

-- What the tool uses of its environment: the variables DEVICE_CONNECTION_STRING and DEBUG, the
-- certificate files, the MQTT transport, what a client made with a configuration meets, its muxes,
-- the handlers that print, and package encoding/json.
pub record Outside : Type 0 where
  pub connection_string : Bytes
  pub debug_set : Bool
  pub load_key_pair : Bytes → Bytes → Result Reference
  pub mqtt : Reference
  pub link : Config → Link
  pub transport_send : Config → Message → Result (Unit {0})
  pub muxes : Muxes
  pub printing : Handler
  pub method : Method
  pub events : Watched
  pub twin_updates : Watched
  pub calls : Watched
  pub marshal : TwinState → Result Bytes
  pub unmarshal_twin : Bytes → Result (TwinState × TwinState)

-- What a handler does besides its result.
pub data Effect : Type 0 where
  message : Message → Effect
  line : Bytes → Effect

abbrev pub Done : Type 0
Done = List Effect × Result (Unit {0})

abbrev pub invalid_usage : Done
invalid_usage = ([], err Error.invalid_usage)

-- `transports[transportFlag]`, and its function; the error's text leaves out the quoted name.
unfoldable pub make_transport : Reference → Bytes → Result Reference
make_transport mqtt name =
    if same name (codes "mqtt")
    then ok mqtt
    else if same name (codes "amqp")
    then err (Error.other (codes "not implemented"))
    else if same name (codes "http")
    then err (Error.other (codes "not implemented"))
    else err (Error.other (codes "unknown transport"))

-- The option of the credentials.
unfoldable pub authentication : Outside → Vars → Result ClientOption
authentication out v =
    if not (is_blank v.tls_cert) && not (is_blank v.tls_key)
    then (if is_blank v.hostname
        then err (Error.other (codes "hostname is required for x509 authentication"))
        else if is_blank v.device_id
        then err (Error.other (codes "device-id is required for x509 authentication"))
        else ok (
            Options.with_x509_from_file out.load_key_pair v.device_id v.hostname v.tls_cert
              v.tls_key))
    else if is_blank out.connection_string
    then err (Error.other (codes "$DEVICE_CONNECTION_STRING is empty"))
    else ok (Options.with_connection_string out.connection_string)

-- `mklog`, with a logger for each prefix.
unfoldable pub mklog : Bool → Reference → Option Reference
mklog debug prefix = if debug then some prefix else none

unfoldable pub make_client : Outside → Vars → Result Config
unfolding authentication make_transport mklog
make_client out v = do
  auth ← authentication out v
  t ← make_transport out.mqtt v.transport
  new_client out.debug_set (
      Options.with_debug v.debug
      ∷ Options.with_logger (mklog v.debug 0)
      ∷ Options.with_transport (some t)
      ∷ auth
      ∷ [])
