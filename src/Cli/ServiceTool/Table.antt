-- ===== src/Cli/ServiceTool/Table.antt =====
-- cmd/iothub-service/main.go: the subcommands, and `run`.
use golang_iothub.Base.{◌≤◌, ◌≡◌, refl, List, [], ◌∷◌, Bytes, codes, same}
use golang_iothub.Cli.{Command, Parser, Trace, new_cli, run}
use golang_iothub.Cli.Sorting.{claims, Rearranges, run-new_cli}
use golang_iothub.Cli.Names.{all_keys, nodup, occurs, claims-le-one}
use golang_iothub.Cli.ServiceTool.{
  Vars, Outside, Effect, device_command, devices_command, create_device_command,
  update_device_command, delete_device_command, stats_command, twin_command,
}
use golang_iothub.Cli.ServiceTool.Commands.{
  CommandHandler, wrap, update_twin_command, call_command, send_command, watch_events_command,
  watch_feedback_command, jobs_command, job_command, cancel_job_command, connection_string_command,
  sas_command,
}

abbrev pub help : Bytes
help =
    codes
      "Helps with interacting and managing your iothub devices. \nThe $SERVICE_CONNECTION_STRING environment variable is required for authentication."

module _ (out : Outside) where
  abbrev command :
      Bytes → Bytes → Bytes → Bytes → CommandHandler out → List Bytes → Command Vars (List Effect)
  command name alias help desc fn flags = record {
    name = name;
    alias = alias;
    help = help;
    desc = desc;
    handler = wrap out fn;
    flags = flags;
  }

  unfoldable pub commands : List (Command Vars (List Effect))
  commands =
      command (codes "send") (codes "s") (codes "DEVICE PAYLOAD [KEY VALUE]...")
        (codes "send a message to the named device (C2D)") (send_command out)
        (codes "ack" ∷ codes "uid" ∷ codes "mid" ∷ codes "cid" ∷ codes "exp" ∷ [])
      ∷ command (codes "watch-events") (codes "we") ([])
          (codes "subscribe to device messages (D2C)") (watch_events_command out) ([])
      ∷ command (codes "watch-feedback") (codes "wf") ([])
          (codes "monitor message feedback send by devices") (watch_feedback_command out) ([])
      ∷ command (codes "call") (codes "c") (codes "DEVICE METHOD PAYLOAD")
          (codes "call a direct method on a device") (call_command out) (codes "c" ∷ codes "r" ∷ [])
      ∷ command (codes "device") (codes "d") (codes "DEVICE") (codes "get device information")
          (device_command out) ([])
      ∷ command (codes "devices") (codes "ds") ([]) (codes "list all available devices")
          (devices_command out) ([])
      ∷ command (codes "create-device") (codes "cd") (codes "DEVICE") (codes "creates a new device")
          (create_device_command out)
          (codes "auto"
            ∷ codes "primary-key"
            ∷ codes "secondary-key"
            ∷ codes "primary-thumbprint"
            ∷ codes "secondary-thumbprint"
            ∷ [])
      ∷ command (codes "update-device") (codes "ud") (codes "DEVICE")
          (codes "updates the named device") (update_device_command out)
          (codes "primary-key"
            ∷ codes "secondary-key"
            ∷ codes "primary-thumbprint"
            ∷ codes "secondary-thumbprint"
            ∷ [])
      ∷ command (codes "delete-device") (codes "dd") (codes "DEVICE")
          (codes "delete the named device") (delete_device_command out) ([])
      ∷ command (codes "twin") (codes "t") ([]) (codes "inspect the named twin device")
          (twin_command out) ([])
      ∷ command (codes "update-twin") (codes "ut") (codes "DEVICE [KEY VALUE]...")
          (codes "update the named twin device") (update_twin_command out) ([])
      ∷ command (codes "stats") (codes "st") ([]) (codes "get statistics about the devices")
          (stats_command out) ([])
      ∷ command (codes "jobs") (codes "js") ([]) (codes "list the last import/export jobs")
          (jobs_command out) ([])
      ∷ command (codes "job") (codes "j") (codes "ID")
          (codes "get the status of a import/export job") (job_command out) ([])
      ∷ command (codes "cancel-job") (codes "cj") ([]) (codes "cancel a import/export job")
          (cancel_job_command out) ([])
      ∷ command (codes "connection-string") (codes "cs") (codes "DEVICE")
          (codes "get a device's connection string") (connection_string_command out)
          (codes "secondary" ∷ [])
      ∷ command (codes "access-signature") (codes "as") (codes "DEVICE")
          (codes "generate a SAS token") (sas_command out)
          (codes "uri" ∷ codes "duration" ∷ codes "secondary" ∷ [])
      ∷ []

  -- `run`, with the sort of `New` and the parser of package flag.
  unfoldable pub run_tool :
      (List (Command Vars (List Effect)) → List (Command Vars (List Effect)))
      → Parser Vars
      → Vars
      → List Bytes
      → Trace (List Effect)
  unfolding commands
  run_tool sorted parse v argv =
      run parse (new_cli sorted help (codes "debug" ∷ []) commands) v argv

  -- No word is the name or the alias of two subcommands of the tool.
  no_clash : (k : Bytes) → claims k commands ≤ 1
  unfolding commands all_keys nodup occurs same
  no_clash k = claims-le-one k commands refl

  -- Whatever order package sort gives the subcommands of the tool, a run does the same: no word is
  -- the name or the alias of two of them.
  run_tool-sorted :
      (sorted : List (Command Vars (List Effect)) → List (Command Vars (List Effect)))
      (parse : Parser Vars)
      → Rearranges commands (sorted commands)
      → (v : Vars) (argv : List Bytes)
      → run_tool sorted parse v argv ≡ run_tool (λ cmds. cmds) parse v argv
  unfolding run_tool new_cli
  run_tool-sorted sorted parse moved v argv =
      run-new_cli parse sorted help (codes "debug" ∷ []) commands moved no_clash v argv
