-- ===== src/Base/Maps.antt =====
-- `map[string]V` as an association list. A range loop over a map walks such a list; its order is
-- the list's, which is any order, since the source leaves it open.
use mathlib.Core.Path.{◌≡◌, refl}
use mathlib.Core.List.{List, [], ◌∷◌}
use mathlib.Core.Option.{Option, none, some}
use native.Mathlib.Omega.{arith}
use golang_iothub.Base.Tests.{if◌then◌else◌}
use golang_iothub.Base.Text.{Bytes, same, same_iff}

abbrev pub Dict {ℓ} : Type ℓ → Type ℓ
Dict V = List (Bytes × V)

module _ {ℓ} {V : Type ℓ} where
  -- `v, ok := m[key]`.
  unfoldable pub lookup : Bytes → Dict V → Option V
  lookup key [] = none
  lookup key ((name, held) ∷ rest) = if same name key then some held else lookup key rest

  -- `m[key] = v`.
  unfoldable pub insert : Bytes → V → Dict V → Dict V
  insert key new [] = (key, new) ∷ []
  insert key new ((name, held) ∷ rest) =
      if same name key then (name, new) ∷ rest else (name, held) ∷ insert key new rest

  -- `delete(m, key)`.
  unfoldable pub erase : Bytes → Dict V → Dict V
  erase key [] = []
  erase key ((name, held) ∷ rest) =
      if same name key then erase key rest else (name, held) ∷ erase key rest

  pub lookup-insert :
      (key asked : Bytes) (new : V) (dict : Dict V)
      → lookup asked (insert key new dict)
        ≡ (if same key asked then some new else lookup asked dict)
  unfolding lookup insert
  lookup-insert key asked new [] = refl
  lookup-insert key asked new ((name, held) ∷ rest) =
      let later = lookup-insert key asked new rest in
      ground (arith, same_iff name asked, same_iff name key, same_iff key asked)

  pub lookup-erase :
      (key asked : Bytes) (dict : Dict V)
      → lookup asked (erase key dict) ≡ (if same key asked then none else lookup asked dict)
  unfolding lookup erase
  lookup-erase key asked [] = ground arith
  lookup-erase key asked ((name, held) ∷ rest) =
      let later = lookup-erase key asked rest in
      ground (arith, same_iff name asked, same_iff name key, same_iff key asked)

  -- No key stands twice: what every Go map satisfies.
  abbrev pub Distinct : Dict V → Type ℓ
  Distinct [] = Unit
  Distinct ((k, v) ∷ m) = (lookup k m ≡ none) × Distinct m
