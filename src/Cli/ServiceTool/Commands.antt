-- ===== src/Cli/ServiceTool/Commands.antt =====
-- cmd/iothub-service/main.go: the handlers of twins, jobs, methods, messages and keys, `wrap`, and
-- the table of the subcommands.
use golang_iothub.Base.{
  ℕ, zero, suc, List, [], ◌∷◌, Option, none, some, Bytes, codes, Dict, map, if◌then◌else◌, ℤ, pos,
  negsuc, Result, ok, err, panic, Error, ◌>>=◌,
}
use golang_iothub.Base.Json.{Json}
use golang_iothub.Common.Credentials.{Credentials}
use golang_iothub.Common.Sas.{is_blank}
use golang_iothub.Common.AmqpMessage.{AmqpMessage}
use golang_iothub.Service.Registry.{Twin}
use golang_iothub.Service.Devices as Devices
use golang_iothub.Service.Devices.{
  CallOption, with_call_connect_timeout, with_call_response_timeout,
}
use golang_iothub.Service.Keys.{device_connection_string, device_sas}
use golang_iothub.Service.Client as Client
use golang_iothub.Service.Client.{Config, new_client}
use golang_iothub.Service.Send as Send
use golang_iothub.Cli.{args_to_map}
use golang_iothub.Cli.Tools.{twin_values}
use golang_iothub.Cli.ServiceTool.{
  Vars, Watched, Outside, message, line, Done, invalid_usage, output_json, endpoint,
}

abbrev pub desired_twin : Dict Json → Twin
desired_twin desired = record {
  device_id = [];
  etag = [];
  device_etag = [];
  status = [];
  status_reason = [];
  status_update_time = [];
  connection_state = [];
  last_activity_time = [];
  cloud_to_device_message_count = 0;
  authentication_type = [];
  x509_thumbprint = none;
  version = 0;
  tags = [];
  properties = some (record { desired = desired; reported = [] });
  capabilities = [];
}

-- `f.Args()[2:]` of `send`: the properties are nil if there are none.
unfoldable pub properties_of : List Bytes → Result (Option (Dict Bytes))
properties_of [] = ok none
properties_of (a ∷ args) = args_to_map (a ∷ args) >>= λ m. ok (some m)

module _ (out : Outside) where
  unfoldable pub expiry_of : ℤ → ℕ
  expiry_of (pos zero) = 0
  expiry_of (pos (suc n)) = out.later (pos (suc n))
  expiry_of (negsuc n) = out.later (negsuc n)

  abbrev watched : Watched → Done
  watched (lines, e) = (map line lines, err e)

  module _ (creds : Credentials) (v : Vars) where
    unfoldable pub update_twin_of : Bytes → Result (Dict Bytes) → Done
    unfolding output_json twin_values
    update_twin_of id (ok m) = output_json out.printer.print_twin (
        Devices.update_twin (endpoint out creds) out.codec id (some (desired_twin (twin_values m)))
          (codes "*"))
    update_twin_of id (err e) = ([], err e)
    update_twin_of id panic = ([], panic)

    unfoldable pub update_twin_command : List Bytes → Done
    unfolding update_twin_of
    update_twin_command (id ∷ a ∷ b ∷ args) = update_twin_of id (args_to_map (a ∷ b ∷ args))
    update_twin_command [] = invalid_usage
    update_twin_command (id ∷ []) = invalid_usage
    update_twin_command (id ∷ a ∷ []) = invalid_usage

    unfoldable pub call_with : Bytes → Bytes → Result (Dict Json) → Done
    unfolding output_json
    call_with id name (ok payload) = output_json out.printer.print_result (
        Devices.call_method (endpoint out creds) out.codec id name payload (
          with_call_connect_timeout v.connect_timeout
          ∷ with_call_response_timeout v.response_timeout
          ∷ []))
    call_with id name (err e) = ([], err e)
    call_with id name panic = ([], panic)

    unfoldable pub call_command : List Bytes → Done
    unfolding call_with
    call_command (id ∷ name ∷ payload ∷ []) = call_with id name (out.unmarshal_payload payload)
    call_command [] = invalid_usage
    call_command (a ∷ []) = invalid_usage
    call_command (a ∷ b ∷ []) = invalid_usage
    call_command (a ∷ b ∷ c ∷ d ∷ args) = invalid_usage

    abbrev send_options : Option (Dict Bytes) → List Send.SendOption
    send_options props =
        Send.with_send_message_id v.mid
        ∷ Send.with_send_ack v.ack
        ∷ Send.with_send_properties props
        ∷ Send.with_send_user_id v.uid
        ∷ Send.with_send_correlation_id v.cid
        ∷ Send.with_sent_expiry_time (expiry_of v.exp)
        ∷ []

    abbrev only_messages : List AmqpMessage × Result (Unit {0}) → Done
    only_messages (sent, r) = (map message sent, r)

    unfoldable pub send_with_properties : Bytes → Bytes → Result (Option (Dict Bytes)) → Done
    unfolding expiry_of
    send_with_properties id payload (ok props) = only_messages (
        Send.send_event out.connection out.open_link out.deliver id (some payload)
          (send_options props))
    send_with_properties id payload (err e) = ([], err e)
    send_with_properties id payload panic = ([], panic)

    unfoldable pub send_command : List Bytes → Done
    unfolding send_with_properties properties_of
    send_command (id ∷ payload ∷ args) = send_with_properties id payload (properties_of args)
    send_command [] = invalid_usage
    send_command (id ∷ []) = invalid_usage

    unfoldable pub watch_events_command : List Bytes → Done
    watch_events_command [] = watched out.events
    watch_events_command (a ∷ args) = invalid_usage

    unfoldable pub watch_feedback_command : List Bytes → Done
    watch_feedback_command [] = watched out.feedback
    watch_feedback_command (a ∷ args) = invalid_usage

    unfoldable pub jobs_command : List Bytes → Done
    unfolding output_json
    jobs_command [] =
        output_json out.printer.print_objects (Devices.list_jobs (endpoint out creds) out.codec)
    jobs_command (a ∷ args) = invalid_usage

    unfoldable pub job_command : List Bytes → Done
    unfolding output_json
    job_command (id ∷ []) =
        output_json out.printer.print_object (Devices.get_job (endpoint out creds) out.codec id)
    job_command [] = invalid_usage
    job_command (id ∷ a ∷ args) = invalid_usage

    unfoldable pub cancel_job_command : List Bytes → Done
    unfolding output_json
    cancel_job_command (id ∷ []) =
        output_json out.printer.print_object (Devices.cancel_job (endpoint out creds) out.codec id)
    cancel_job_command [] = invalid_usage
    cancel_job_command (id ∷ a ∷ args) = invalid_usage

    unfoldable pub connection_string_command : List Bytes → Done
    unfolding output_json
    connection_string_command (id ∷ []) =
        output_json (λ d. device_connection_string creds (some d) v.secondary)
          (Devices.get_device (endpoint out creds) out.codec id)
    connection_string_command [] = invalid_usage
    connection_string_command (id ∷ a ∷ args) = invalid_usage

    unfoldable pub sas_command : List Bytes → Done
    unfolding output_json
    sas_command (id ∷ []) =
        output_json (λ d. device_sas out.crypto out.clock creds (some d) v.duration v.secondary)
          (Devices.get_device (endpoint out creds) out.codec id)
    sas_command [] = invalid_usage
    sas_command (id ∷ a ∷ args) = invalid_usage

  abbrev pub CommandHandler : Type 0
  CommandHandler = Credentials → Vars → List Bytes → Done

  -- Behind `NewClient`, which leaves credentials.
  unfoldable pub with_client : CommandHandler → Vars → List Bytes → Result Config → Done
  with_client fn v args (ok c) = elim c.creds [ none ↦ ([], panic) | some creds ↦ fn creds v args ]
  with_client fn v args (err e) = ([], err e)
  with_client fn v args panic = ([], panic)

  abbrev options : Vars → List Client.ClientOption
  options v =
      Client.with_logger none
      ∷ Client.with_connection_string out.connection_string
      ∷ Client.with_logger (if v.debug then some 0 else none)
      ∷ Client.with_debug v.debug
      ∷ []

  unfoldable pub wrap : CommandHandler → Vars → List Bytes → Done
  unfolding with_client
  wrap fn v args =
      if is_blank out.connection_string
      then ([], err (Error.other (codes "SERVICE_CONNECTION_STRING is blank")))
      else with_client fn v args (new_client (options v))
