-- ===== src/Cli/Sorting.antt =====
-- The order of the subcommands.
use golang_iothub.Base.{
  ℕ, suc, ◌≤◌, ◌≡◌, refl, ◌∙◌, List, [], ◌∷◌, Bytes, arith, if◌then◌else◌, Option-cases, Bool-cases,
  subst, inl, inr,
}
use golang_iothub.Cli.{Command, Parser, new_cli, is_called, find_command, dispatch, run}

-- What package sort does to a slice: exchanges of elements.
pub data Rearranges {A : Type 0} : List A → List A → Type 0 where
  same_list : (l : List A) → Rearranges l l
  keep : (x : A) (l l' : List A) → Rearranges l l' → Rearranges (x ∷ l) (x ∷ l')
  exchange : (x y : A) (l : List A) → Rearranges (x ∷ y ∷ l) (y ∷ x ∷ l)
  and_after : (a b c : List A) → Rearranges a b → Rearranges b c → Rearranges a c

module _ {V E : Type 0} where
  -- How many subcommands a name or an alias calls.
  unfoldable pub claims : Bytes → List (Command V E) → ℕ
  claims k [] = 0
  claims k (cmd ∷ cmds) = if is_called k cmd then suc (claims k cmds) else claims k cmds

  claims-Rearranges :
      (k : Bytes) {a b : List (Command V E)} → Rearranges a b → claims k a ≡ claims k b
  unfolding claims
  claims-Rearranges k (same_list l) = refl
  claims-Rearranges k (keep x l l' p) = rw (claims-Rearranges k p) refl
  claims-Rearranges k (exchange x y l) = ground arith
  claims-Rearranges k (and_after a b c p q) = claims-Rearranges k p ∙ claims-Rearranges k q

  find_command-Rearranges :
      (k : Bytes) {a b : List (Command V E)}
      → Rearranges a b
      → claims k a ≤ 1
      → find_command k a ≡ find_command k b
  unfolding claims find_command
  find_command-Rearranges k (same_list l) h = refl
  find_command-Rearranges k (keep x l l' p) h = elim (Bool-cases (is_called k x)) [
    | inl e ↦ rw e refl
    | inr e ↦ rw e (find_command-Rearranges k p (rw e at h))
  ]
  find_command-Rearranges k (exchange x y l) h = ground arith
  find_command-Rearranges k (and_after a b c p q) h =
      find_command-Rearranges k p h
      ∙ find_command-Rearranges k q (subst (λ n. n ≤ 1) (claims-Rearranges k p) h)

  dispatch-Rearranges :
      (parse : Parser V) {a b : List (Command V E)}
      → Rearranges a b
      → ((k : Bytes) → claims k a ≤ 1)
      → (vars : V) (args : List Bytes) → dispatch parse b vars args ≡ dispatch parse a vars args
  unfolding dispatch
  dispatch-Rearranges parse p apart vars [] = refl
  dispatch-Rearranges parse p apart vars (k ∷ args) =
      rw (dispatch, find_command-Rearranges k p (apart k)) refl

  -- The order in which the subcommands are sorted does not change what `Run` does, as long as no
  -- argument is the name or the alias of two of them.
  pub run-new_cli :
      (parse : Parser V) (sorted : List (Command V E) → List (Command V E)) (desc : Bytes)
      (main : List Bytes) (cmds : List (Command V E))
      → Rearranges cmds (sorted cmds)
      → ((k : Bytes) → claims k cmds ≤ 1)
      → (vars : V) (argv : List Bytes)
      → run parse (new_cli sorted desc main cmds) vars argv
        ≡ run parse (record { desc = desc; cmds = cmds; main = main }) vars argv
  unfolding run new_cli dispatch
  run-new_cli parse sorted desc main cmds moved apart vars [] = refl
  run-new_cli parse sorted desc main cmds moved apart vars (program ∷ argv) =
      let p = parse main vars argv in
      elim (Option-cases p.failure) [
        | inr (e, h) ↦ rw (run, h) refl
        | inl h ↦ rw (run, h) (dispatch-Rearranges parse moved apart p.vars p.args)
      ]
