-- ===== src/Cli/DeviceTool/Table.antt =====
-- cmd/iothub-device/main.go: the subcommands, and `run`.
use golang_iothub.Base.{◌≤◌, refl, List, [], ◌∷◌, ◌≡◌, Bytes, codes, same}
use golang_iothub.Cli.{Command, Parser, Trace, new_cli, run}
use golang_iothub.Cli.Names.{all_keys, nodup, occurs, claims-le-one}
use golang_iothub.Cli.Sorting.{claims, Rearranges, run-new_cli}
use golang_iothub.Cli.DeviceTool.{Vars, Outside, Effect}
use golang_iothub.Cli.DeviceTool.Commands.{
  ToolHandler, wrap_device, device_send_command, device_watch_events_command, watch_twin_command,
  direct_method_command, device_twin_command, device_update_twin_command,
}

abbrev device_help : Bytes
device_help =
    codes
      "iothub-device helps iothub devices to communicate with the cloud.\nThe $DEVICE_CONNECTION_STRING environment variable is required unless you use x509 authentication."

abbrev common_flags : List Bytes
common_flags =
    codes "debug"
    ∷ codes "transport"
    ∷ codes "tls-cert"
    ∷ codes "tls-key"
    ∷ codes "device-id"
    ∷ codes "hostname"
    ∷ []

module _ (out : Outside) where
  abbrev entry :
      Bytes → Bytes → Bytes → Bytes → ToolHandler out → List Bytes → Command Vars (List Effect)
  entry name alias help desc fn flags = record {
    name = name;
    alias = alias;
    help = help;
    desc = desc;
    handler = wrap_device out fn;
    flags = flags;
  }

  unfoldable pub device_commands : List (Command Vars (List Effect))
  device_commands =
      entry (codes "send") (codes "s") (codes "PAYLOAD [KEY VALUE]...")
        (codes "send a message to the cloud (D2C)") (device_send_command out)
        (codes "mid" ∷ codes "cid" ∷ [])
      ∷ entry (codes "watch-events") (codes "we") []
          (codes "subscribe to messages sent from the cloud (C2D)")
          (device_watch_events_command out) []
      ∷ entry (codes "watch-twin") (codes "wt") [] (codes "subscribe to desired twin state updates")
          (watch_twin_command out) []
      ∷ entry (codes "direct-method") (codes "dm") (codes "NAME")
          (codes "handle the named direct method, reads responses from STDIN")
          (direct_method_command out) (codes "quite" ∷ [])
      ∷ entry (codes "twin-state") (codes "ts") [] (codes "retrieve desired and reported states")
          (device_twin_command out) []
      ∷ entry (codes "update-twin") (codes "ut") (codes "[KEY VALUE]...")
          (codes "updates the twin device deported state, null means delete the key")
          (device_update_twin_command out) []
      ∷ []

  -- `run`, with the sort of `New` and the parser of package flag.
  unfoldable pub run_device_tool :
      (List (Command Vars (List Effect)) → List (Command Vars (List Effect)))
      → Parser Vars
      → Vars
      → List Bytes
      → Trace (List Effect)
  unfolding device_commands
  run_device_tool sorted parse v argv =
      run parse (new_cli sorted device_help common_flags device_commands) v argv

  no_device_clash : (k : Bytes) → claims k device_commands ≤ 1
  unfolding device_commands all_keys nodup occurs same
  no_device_clash k = claims-le-one k device_commands refl

  -- The order of the subcommands does not change a run of the device tool either.
  run_device_tool-sorted :
      (sorted : List (Command Vars (List Effect)) → List (Command Vars (List Effect)))
      (parse : Parser Vars)
      → Rearranges device_commands (sorted device_commands)
      → (v : Vars) (argv : List Bytes)
      → run_device_tool sorted parse v argv ≡ run_device_tool (λ cmds. cmds) parse v argv
  unfolding run_device_tool new_cli
  run_device_tool-sorted sorted parse moved v argv =
      run-new_cli parse sorted device_help common_flags device_commands moved no_device_clash v argv
