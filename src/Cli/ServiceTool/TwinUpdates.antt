-- ===== src/Cli/ServiceTool/TwinUpdates.antt =====
-- What `update-twin` asks the service to change.
use mathlib.Core.Option
use golang_iothub.Base.{◌≡◌, ◌∙◌, ap, List, ◌∷◌, none, some, Bytes, codes, Dict, lookup}
use golang_iothub.Base.Json.{Json}
use golang_iothub.Common.Credentials.{Credentials}
use golang_iothub.Service.Devices as Devices
use golang_iothub.Cli.Arguments.{arguments, last_value, args_to_map_lem}
use golang_iothub.Cli.Tools.{property_value, twin_values, lookup-twin_values}
use golang_iothub.Cli.ServiceTool.{Vars, Outside, output_json, endpoint}
use golang_iothub.Cli.ServiceTool.Commands.{desired_twin, update_twin_of, update_twin_command}

-- `update-twin` of a device and key-value pairs, at least one, is `UpdateTwin` of this device with
-- the etag `*`, and prints the twin that it returns. The desired properties that it sends have, for
-- each key, the last value given: null for the word `null` and the text otherwise; they have no
-- other key.
update_twin_command_lem :
    (out : Outside) (creds : Credentials) (v : Vars) (id key value : Bytes)
    (ps : List (Bytes × Bytes))
    → (desired : Dict Json) × (update_twin_command out creds v (id ∷ key ∷ value ∷ arguments ps)
        ≡ output_json out.printer.print_twin (
            Devices.update_twin
              (endpoint out creds)
              out.codec
              id
              (some (desired_twin desired))
              (codes "*")))
      × ((k : Bytes)
          → lookup k desired ≡ Option.map property_value (last_value k ((key, value) ∷ ps) none))
unfolding update_twin_command arguments update_twin_of
update_twin_command_lem out creds v id key value ps =
    let (d, made, values) = args_to_map_lem.0 ((key, value) ∷ ps) in
    (
      twin_values d,
      ap (update_twin_of out creds v id) made,
      λ k. lookup-twin_values k d ∙ ap (Option.map property_value) (values k),
    )
