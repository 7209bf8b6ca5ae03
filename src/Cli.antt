-- ===== src/Cli.antt =====
-- cmd/internal/cli.go: subcommands, and the dispatch of an argument list to one of them.
mod Tests
pub mod Usages
pub mod Sorting
pub mod Names
pub mod Arguments
pub mod Tools
pub mod ServiceTool
pub mod DeviceTool
use golang_iothub.Base.{
  ℕ, zero, suc, ◌+◌, ◌%◌, List, [], ◌∷◌, Option, none, some, Bool, true, false, ◌||◌, Bytes, Dict,
  insert, same, length, ◌==◌, if◌then◌else◌, Result, ok, err, panic, Error,
}

-- Command; `V` is the state of the variables that flags set, `E` what a handler does besides its
-- result. Flags that a `ParseFunc` declares are named.
pub record Command (V E : Type 0) : Type 0 where
  pub name : Bytes
  pub alias : Bytes
  pub help : Bytes
  pub desc : Bytes
  pub handler : V → List Bytes → E × Result (Unit {0})
  pub flags : List Bytes

pub record Cli (V E : Type 0) : Type 0 where
  pub desc : Bytes
  pub cmds : List (Command V E)
  pub main : List Bytes

-- The error of `FlagSet.Parse`: `flag.ErrHelp`, or another.
pub data FlagError : Type 0 where
  help_asked : FlagError
  bad_flag : Error → FlagError

-- What `FlagSet.Parse` does with the declared flags and an argument list: the variables that it
-- sets, whether it calls `Usage`, and the remaining arguments or an error.
pub record Parsed (V : Type 0) : Type 0 where
  pub vars : V
  pub usage_called : Bool
  pub failure : Option FlagError
  pub args : List Bytes

abbrev pub Parser : Type 0 → Type 0
Parser V = List Bytes → V → List Bytes → Parsed V

-- A usage message on stderr, of the program or of the subcommand that an argument names.
pub data Usage : Type 0 where
  common : Usage
  subcommand : Bytes → Usage

-- What `Run` shows, what its handler does, and what it returns.
pub record Trace (E : Type 0) : Type 0 where
  pub shown : List Usage
  pub done : Option E
  pub result : Result (Unit {0})

abbrev pub shown_if : Bool → Usage → List Usage
shown_if called u = if called then u ∷ [] else []

-- What `Run` returns for an error of `Parse`.
abbrev pub flag_result : FlagError → Result (Unit {0})
flag_result help_asked = err Error.invalid_usage
flag_result (bad_flag e) = err e

unfoldable pub is_usage_error : Result (Unit {0}) → Bool
is_usage_error (err Error.invalid_usage) = true
is_usage_error r = false

module _ {E : Type 0} where
  -- A handler that returns ErrInvalidUsage makes `Run` show the subcommand's usage.
  unfoldable pub handled : Bytes → E × Result (Unit {0}) → Trace E
  unfolding is_usage_error
  handled k (e, r) = record {
    shown = shown_if (is_usage_error r) (subcommand k);
    done = some e;
    result = r;
  }

  abbrev pub usage_only : Trace E
  usage_only = record { shown = common ∷ []; done = none; result = err Error.invalid_usage }

-- `sort.Slice` by name is package sort's.
module _ {V E : Type 0} where
  unfoldable pub new_cli :
      (List (Command V E) → List (Command V E)) → Bytes → List Bytes → List (Command V E) → Cli V E
  new_cli sorted desc main cmds = record { desc = desc; cmds = sorted cmds; main = main }

  unfoldable pub is_called : Bytes → Command V E → Bool
  is_called k cmd = same cmd.name k || same cmd.alias k

  unfoldable pub find_command : Bytes → List (Command V E) → Option (Command V E)
  unfolding is_called
  find_command k [] = none
  find_command k (cmd ∷ cmds) = if is_called k cmd then some cmd else find_command k cmds

  unfoldable pub refused_flags : Usage → Parsed V → FlagError → Trace E
  refused_flags u p e = record {
    shown = shown_if p.usage_called u;
    done = none;
    result = flag_result e;
  }

  -- Behind the second `Parse`, of the subcommand's flags.
  unfoldable pub run_command : Bytes → Command V E → Parsed V → Trace E
  unfolding handled refused_flags
  run_command k cmd p = elim p.failure [
    | none ↦ handled k (cmd.handler p.vars p.args)
    | some e ↦ refused_flags (subcommand k) p e
  ]

  -- Behind the first `Parse`, with the remaining arguments.
  unfoldable pub dispatch : Parser V → List (Command V E) → V → List Bytes → Trace E
  unfolding find_command run_command
  dispatch parse cmds vars [] = usage_only
  dispatch parse cmds vars (k ∷ args) = elim (find_command k cmds) [
    | none ↦ usage_only
    | some cmd ↦ run_command k cmd (parse cmd.flags vars args)
  ]

  unfoldable pub run : Parser V → Cli V E → V → List Bytes → Trace E
  unfolding dispatch refused_flags
  run parse cli vars [] = record { shown = []; done = none; result = panic }
  run parse cli vars (program ∷ argv) =
      let p = parse cli.main vars argv in
      elim p.failure [
        | none ↦ dispatch parse cli.cmds p.vars p.args
        | some e ↦ refused_flags common p e
      ]

-- The loop of `ArgsToMap`: the index behind the last argument is out of range.
unfoldable pub fill_map : List Bytes → Dict Bytes → Result (Dict Bytes)
fill_map [] m = ok m
fill_map (k ∷ []) m = panic
fill_map (k ∷ v ∷ rest) m = fill_map rest (insert k v m)

unfoldable pub args_to_map : List Bytes → Result (Dict Bytes)
unfolding fill_map
args_to_map s = if length s % 2 == 0 then fill_map s [] else err Error.odd_arguments
