-- ===== src/Cli/Usages.antt =====
-- When `Run` shows a usage message.
use golang_iothub.Base.{
  ◌≡◌, ◌≢◌, refl, sym, subst, inl, inr, List, [], ◌∷◌, some, true, Bytes, Result, ok, err, Error,
  Option-cases,
}
use golang_iothub.Cli.{
  Command, Cli, FlagError, help_asked, bad_flag, Parsed, Parser, Usage, common, subcommand, Trace,
  is_usage_error, handled, usage_only, find_command, refused_flags, run_command, dispatch, run,
}

-- What package flag promises: `Parse` calls `Usage` where it returns `ErrHelp`, and it makes no
-- ErrInvalidUsage of its own.
pub record ShowsHelp {V : Type 0} (parse : Parser V) : Type 0 where
  pub help_shown :
      (flags : List Bytes) (vars : V) (argv : List Bytes)
      → (parse flags vars argv).failure ≡ some help_asked
      → (parse flags vars argv).usage_called ≡ true
  pub other_error :
      (flags : List Bytes) (vars : V) (argv : List Bytes)
      → (parse flags vars argv).failure ≢ some (bad_flag Error.invalid_usage)

module _ {E : Type 0} where
  -- ErrInvalidUsage comes with a usage message, and success with none and with a handler's run.
  abbrev IsHonest : Trace E → Type 0
  IsHonest t =
      (t.result ≡ err Error.invalid_usage → t.shown ≢ [])
      × (t.result ≡ ok tt → (t.shown ≡ []) × ((e : E) × (t.done ≡ some e)))

  usage_only-IsHonest : IsHonest usage_only
  usage_only-IsHonest = (λ h. λ e. cc, λ h. cc)

  handled-IsHonest : (k : Bytes) (r : E × Result (Unit {0})) → IsHonest (handled k r)
  unfolding handled is_usage_error
  handled-IsHonest k (e, r) = (λ h. rw h (λ x. cc), λ h. rw h (refl, (e, refl)))

module _ {V E : Type 0} where
  refused_flags-IsHonest :
      (u : Usage) (p : Parsed V) (e : FlagError)
      → (e ≡ help_asked → p.usage_called ≡ true)
      → e ≢ bad_flag Error.invalid_usage
      → IsHonest {E = E} (refused_flags u p e)
  unfolding refused_flags
  refused_flags-IsHonest u p help_asked shows other = (λ h. rw (shows refl) (λ e. cc), λ h. cc)
  refused_flags-IsHonest u p (bad_flag x) shows other = (λ h. absurd (other (cc h)), λ h. cc)

  run_command-IsHonest :
      (k : Bytes) (cmd : Command V E) (p : Parsed V)
      → (p.failure ≡ some help_asked → p.usage_called ≡ true)
      → p.failure ≢ some (bad_flag Error.invalid_usage)
      → IsHonest (run_command k cmd p)
  unfolding run_command
  run_command-IsHonest k cmd p shows other = elim (Option-cases p.failure) [
    | inl h ↦
        let taken : run_command k cmd p ≡ handled k (cmd.handler p.vars p.args) =
          rw (run_command, h) refl in
        subst IsHonest (sym taken) (handled-IsHonest k (cmd.handler p.vars p.args))
    | inr (e, h) ↦
        let taken : run_command k cmd p ≡ refused_flags (subcommand k) p e =
          rw (run_command, h) refl in
        subst IsHonest (sym taken) (
          refused_flags-IsHonest (subcommand k) p e (λ i. shows (cc (h, i)))
            (λ i. other (cc (h, i))))
  ]

  module _ {parse : Parser V} (rules : ShowsHelp parse) where
    dispatch-IsHonest :
        (cmds : List (Command V E)) (vars : V) (args : List Bytes)
        → IsHonest (dispatch parse cmds vars args)
    unfolding dispatch
    dispatch-IsHonest cmds vars [] = usage_only-IsHonest
    dispatch-IsHonest cmds vars (k ∷ args) = elim (Option-cases (find_command k cmds)) [
      | inl h ↦ rw (dispatch, h) usage_only-IsHonest
      | inr (cmd, h) ↦
          rw (dispatch, h)
            (run_command-IsHonest k cmd (parse cmd.flags vars args)
              (rules.help_shown cmd.flags vars args) (rules.other_error cmd.flags vars args))
    ]

    -- Whenever `Run` returns ErrInvalidUsage, a usage message has been shown; whenever it returns
    -- nil, none has, and a handler has run. Package flag is assumed to call `Usage` where it returns
    -- `ErrHelp`, and not to return ErrInvalidUsage itself.
    pub run_usage :
        (cli : Cli V E) (vars : V) (argv : List Bytes)
        → let t = run parse cli vars argv in
          (t.result ≡ err Error.invalid_usage → t.shown ≢ [])
          × (t.result ≡ ok tt → (t.shown ≡ []) × ((e : E) × (t.done ≡ some e)))
    unfolding run
    run_usage cli vars [] = (λ h. cc, λ h. cc)
    run_usage cli vars (program ∷ argv) =
        let p = parse cli.main vars argv in
        elim (Option-cases p.failure) [
          | inl h ↦
              let taken : run parse cli vars (program ∷ argv)
                  ≡ dispatch parse cli.cmds p.vars p.args =
                rw (run, h) refl in
              subst IsHonest (sym taken) (dispatch-IsHonest cli.cmds p.vars p.args)
          | inr (e, h) ↦
              let taken : run parse cli vars (program ∷ argv) ≡ refused_flags common p e =
                rw (run, h) refl in
              subst IsHonest (sym taken) (
                refused_flags-IsHonest common p e
                  (λ i. rules.help_shown cli.main vars argv (cc (h, i)))
                  (λ i. rules.other_error cli.main vars argv (cc (h, i))))
        ]
