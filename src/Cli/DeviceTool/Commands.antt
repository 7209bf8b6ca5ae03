-- ===== src/Cli/DeviceTool/Commands.antt =====
-- cmd/iothub-device/main.go: the handlers of the subcommands, and `wrap`.
use golang_iothub.Base.{
  ℤ, List, [], ◌∷◌, ◌++◌, Option, none, some, Bool, Bytes, codes, Dict, map, if◌then◌else◌, Result,
  ok, err, panic, Error, ◌>>=◌,
}
use golang_iothub.Std.Strconv.{format_signed}
use golang_iothub.Common.Message.{Message}
use golang_iothub.Device.Mux.States.{TwinState}
use golang_iothub.Device.Client as Client
use golang_iothub.Device.Client.{Link, Muxes, Returns}
use golang_iothub.Device.Options.{Config}
use golang_iothub.Device.Send as Send
use golang_iothub.Cli.{args_to_map}
use golang_iothub.Cli.Tools.{twin_values}
use golang_iothub.Cli.DeviceTool.{
  Vars, Watched, Outside, message, line, Done, invalid_usage, make_client,
}

-- `properties` of `send`: nil if there are no arguments.
unfoldable pub properties_of : List Bytes → Result (Option (Dict Bytes))
properties_of [] = ok none
properties_of (a ∷ args) = args_to_map (a ∷ args) >>= λ m. ok (some m)

abbrev pub sent : List Message × Result (Unit {0}) → Done
sent (msgs, r) = (map message msgs, r)

-- Behind a subscription: its error, or what ends the wait.
unfoldable pub waiting : Returns → Watched → Done
waiting (ok (c, none)) (lines, e) = (map line lines, err e)
waiting (ok (c, some e)) w = ([], err e)
waiting (err e) w = ([], err e)
waiting panic w = ([], panic)

-- What the handler of `direct-method` does with a call: what it prints, the error that it puts
-- into `errc`, and what it returns.
pub record Asked : Type 0 where
  pub lines : List Bytes
  pub reported : Option Error
  pub result : Result TwinState

abbrev refused_call : List Bytes → Error → Error → Asked
refused_call lines shown returned = record {
  lines = lines;
  reported = some shown;
  result = err returned;
}

-- The prompts, and behind them the line that is read from stdin.
unfoldable pub ask : (Bytes → Result TwinState) → Bool → Result Bytes → Bytes → Asked
ask unmarshal quite read b =
    let shown : List Bytes =
      if quite then b ∷ [] else (codes "Payload: " ++ b) ∷ codes "Enter json response: " ∷ [] in
    elim read [
      | panic ↦ record { lines = shown; reported = none; result = panic }
      | err e ↦ refused_call shown e e
      | ok text ↦ elim (unmarshal text) [
        | panic ↦ record { lines = shown; reported = none; result = panic }
        | err e ↦ refused_call shown (Error.other (codes "unable to parse json input")) e
        | ok v ↦ record { lines = shown; reported = none; result = ok v }
      ]
    ]

unfoldable pub answer_call :
    (TwinState → Result Bytes)
    → (Bytes → Result TwinState)
    → Bool
    → Result Bytes
    → TwinState
    → Asked
unfolding ask
answer_call marshal unmarshal quite read p = elim (marshal p) [
  | panic ↦ record { lines = []; reported = none; result = panic }
  | err e ↦ refused_call [] e e
  | ok b ↦ ask unmarshal quite read b
]

-- The lines of the two states, each after its own `Marshal`.
unfoldable pub show_states : Outside → Result (TwinState × TwinState) → Done
show_states out (err e) = ([], err e)
show_states out panic = ([], panic)
show_states out (ok (desired, reported)) = elim (out.marshal desired) [
  | panic ↦ ([], panic)
  | err e ↦ ([], err e)
  | ok d ↦
      let first = line (codes "desired:  " ++ d) in
      elim (out.marshal reported) [
        | panic ↦ (first ∷ [], panic)
        | err e ↦ (first ∷ [], err e)
        | ok r ↦ (first ∷ line (codes "reported: " ++ r) ∷ [], ok tt)
      ]
]

unfoldable pub show_version : Result ℤ → Done
show_version (ok ver) = (line (codes "version: " ++ format_signed ver) ∷ [], ok tt)
show_version (err e) = ([], err e)
show_version panic = ([], panic)

module _ (out : Outside) where
  module _ (v : Vars) (c : Config) where
    unfoldable pub send_with_properties : Bytes → Result (Option (Dict Bytes)) → Done
    send_with_properties payload (ok props) = sent (
        Send.send_event (out.transport_send c) (out.link c).connection (some payload) (
          Send.with_send_properties props
          ∷ Send.with_send_message_id v.mid
          ∷ Send.with_send_correlation_id v.cid
          ∷ []))
    send_with_properties payload (err e) = ([], err e)
    send_with_properties payload panic = ([], panic)

    unfoldable pub device_send_command : List Bytes → Done
    unfolding send_with_properties properties_of
    device_send_command [] = invalid_usage
    device_send_command (payload ∷ args) = send_with_properties payload (properties_of args)

    unfoldable pub device_watch_events_command : List Bytes → Done
    unfolding waiting
    device_watch_events_command [] =
        waiting (Client.subscribe_events (out.link c) (some out.printing) out.muxes) out.events
    device_watch_events_command (a ∷ args) = invalid_usage

    unfoldable pub watch_twin_command : List Bytes → Done
    unfolding waiting
    watch_twin_command [] =
        waiting (Client.subscribe_twin_updates (out.link c) (some out.printing) out.muxes)
          out.twin_updates
    watch_twin_command (a ∷ args) = invalid_usage

    unfoldable pub direct_method_command : List Bytes → Done
    unfolding waiting
    direct_method_command (name ∷ []) =
        waiting (Client.register_method (out.link c) name (some out.method) out.muxes) out.calls
    direct_method_command [] = invalid_usage
    direct_method_command (name ∷ a ∷ args) = invalid_usage

    unfoldable pub device_twin_command : List Bytes → Done
    unfolding show_states
    device_twin_command args =
        show_states out (Client.retrieve_twin_state out.unmarshal_twin (out.link c))

    unfoldable pub report : Result (Dict Bytes) → Done
    unfolding show_version twin_values
    report (ok s) =
        show_version (Client.update_twin_state out.marshal (out.link c) (some (twin_values s)))
    report (err e) = ([], err e)
    report panic = ([], panic)

    unfoldable pub device_update_twin_command : List Bytes → Done
    unfolding report
    device_update_twin_command [] = invalid_usage
    device_update_twin_command (a ∷ args) = report (args_to_map (a ∷ args))

  abbrev pub ToolHandler : Type 0
  ToolHandler = Vars → Config → List Bytes → Done

  unfoldable pub with_device_client : ToolHandler → Vars → List Bytes → Result Config → Done
  with_device_client fn v args (ok c) = fn v c args
  with_device_client fn v args (err e) = ([], err e)
  with_device_client fn v args panic = ([], panic)

  -- `ConnectInBackground` returns nil; how it goes is what the calls of the client meet.
  unfoldable pub wrap_device : ToolHandler → Vars → List Bytes → Done
  unfolding with_device_client make_client
  wrap_device fn v args = with_device_client fn v args (make_client out v)
