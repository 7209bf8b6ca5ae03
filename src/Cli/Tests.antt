-- ===== src/Cli/Tests.antt =====
-- The command line tools at concrete inputs.
use golang_iothub.Base.{
  ℕ, ◌≡◌, ◌≢◌, refl, inl, inr, List, [], ◌∷◌, none, some, Bool, true, false, Bytes, codes, same,
  arith, Bool-cases, if◌then◌else◌, ok, err, Error,
}
use golang_iothub.Cli.{
  Command, Cli, Parser, help_asked, bad_flag, subcommand, run, dispatch, find_command, is_called,
  run_command, handled, is_usage_error,
}
use golang_iothub.Cli.Usages.{ShowsHelp, run_usage}

-- A parser that knows no flag but `-h`.
abbrev asks_help : Bytes → Bool
asks_help s = same s (codes "-h")

abbrev parse_help : {V : Type 0} → Parser V
parse_help flags vars [] = record { vars = vars; usage_called = false; failure = none; args = [] }
parse_help flags vars (a ∷ args) = record {
  vars = vars;
  usage_called = asks_help a;
  failure = if asks_help a then some help_asked else none;
  args = a ∷ args;
}

help_is_shown :
    {V : Type 0} (flags : List Bytes) (vars : V) (argv : List Bytes)
    → (parse_help flags vars argv).failure ≡ some help_asked
    → (parse_help flags vars argv).usage_called ≡ true
help_is_shown flags vars [] h = cc h
help_is_shown flags vars (a ∷ args) h = ground arith

no_bad_flag :
    {V : Type 0} (flags : List Bytes) (vars : V) (argv : List Bytes) (e : Error)
    → (parse_help flags vars argv).failure ≢ some (bad_flag e)
no_bad_flag flags vars [] e h = cc h
no_bad_flag flags vars (a ∷ args) e h = elim (Bool-cases (asks_help a)) [
  | inl f ↦ cc (rw f at h)
  | inr f ↦ cc (rw f at h)
]

parse_help-ShowsHelp : {V : Type 0} → ShowsHelp (parse_help {V = V})
parse_help-ShowsHelp = record {
  help_shown = help_is_shown;
  other_error = λ flags vars argv. no_bad_flag flags vars argv Error.invalid_usage;
}

-- A program of two subcommands, one of which always wants other arguments.
abbrev greet : Command (Unit {0}) ℕ
greet = record {
  name = codes "greet";
  alias = codes "g";
  help = [];
  desc = [];
  handler = λ v args. (1, ok tt);
  flags = [];
}

abbrev picky : Command (Unit {0}) ℕ
picky = record greet {
  name = codes "picky";
  alias = codes "p";
  handler = λ v args. (2, err Error.invalid_usage);
}

abbrev program : Cli (Unit {0}) ℕ
program = record { desc = []; cmds = greet ∷ picky ∷ []; main = [] }

abbrev asked : List Bytes
asked = codes "tool" ∷ codes "p" ∷ []

picky_test : run parse_help program tt asked ≡ record {
  shown = subcommand (codes "p") ∷ [];
  done = some 2;
  result = err Error.invalid_usage;
}
unfolding run dispatch find_command is_called run_command handled is_usage_error same
picky_test = refl

run_usage_example :
    let t = run parse_help program tt asked in
    (t.result ≡ err Error.invalid_usage → t.shown ≢ [])
    × (t.result ≡ ok tt → (t.shown ≡ []) × ((e : ℕ) × (t.done ≡ some e)))
run_usage_example = run_usage parse_help-ShowsHelp program tt asked
