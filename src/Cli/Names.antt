-- ===== src/Cli/Names.antt =====
-- Names and aliases that are all different.
use golang_iothub.Base.{
  ◌≤◌, ◌≡◌, refl, subst, List, [], ◌∷◌, Bool, true, false, ◌&&◌, ◌||◌, not, Bytes, same, same_iff,
  arith,
}
use golang_iothub.Cli.{Command, is_called}
use golang_iothub.Cli.Sorting.{claims}

unfoldable pub occurs : Bytes → List Bytes → Bool
occurs k [] = false
occurs k (x ∷ xs) = same x k || occurs k xs

unfoldable pub nodup : List Bytes → Bool
nodup [] = true
nodup (x ∷ xs) = not (occurs x xs) && nodup xs

module _ {V E : Type 0} where
  unfoldable pub all_keys : List (Command V E) → List Bytes
  all_keys [] = []
  all_keys (cmd ∷ cmds) = cmd.name ∷ cmd.alias ∷ all_keys cmds

  -- A word that is no key calls nothing.
  claims-none :
      (k : Bytes) (cmds : List (Command V E)) → occurs k (all_keys cmds) ≡ false → claims k cmds ≡ 0
  unfolding claims is_called occurs all_keys
  claims-none k [] h = refl
  claims-none k (cmd ∷ cmds) h = ground (arith, claims-none k cmds)

  -- What stands behind a subcommand whose names stand nowhere else.
  apart_rest :
      (cmd : Command V E) (cmds : List (Command V E))
      → nodup (all_keys (cmd ∷ cmds)) ≡ true
      → (occurs cmd.name (all_keys cmds) ≡ false)
        × (occurs cmd.alias (all_keys cmds) ≡ false)
        × (nodup (all_keys cmds) ≡ true)
  unfolding occurs all_keys nodup
  apart_rest cmd cmds h = ground arith

  claims-first :
      (k x : Bytes) (cmds : List (Command V E))
      → same x k ≡ true
      → occurs x (all_keys cmds) ≡ false
      → claims k cmds ≡ 0
  claims-first k x cmds e h =
      claims-none k cmds (subst (λ y. occurs y (all_keys cmds) ≡ false) ((same_iff x k).0 e) h)

  pub claims-le-one :
      (k : Bytes) (cmds : List (Command V E)) → nodup (all_keys cmds) ≡ true → claims k cmds ≤ 1
  unfolding claims is_called
  claims-le-one k [] h = omega arith
  claims-le-one k (cmd ∷ cmds) h =
      let (by_name, by_alias, rest) = apart_rest cmd cmds h in
      ground
        (arith, claims-first k cmd.name cmds, claims-first k cmd.alias cmds, claims-le-one k cmds)
