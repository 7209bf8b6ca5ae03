-- ===== src/Cli/Tools.antt =====
-- What the handlers of cmd/iothub-device and cmd/iothub-service have in common.
use golang_iothub.Base.{
  ◌≡◌, refl, [], ◌∷◌, Bytes, codes, Dict, lookup, same, if◌then◌else◌, Bool-cases, inl, inr,
}
use mathlib.Core.Option
use golang_iothub.Base.Json.{Json, null, text}

-- The value of a twin's property: the word `null` deletes it.
unfoldable pub property_value : Bytes → Json
property_value v = if same v (codes "null") then null else text v

-- The loop of `updateTwin` over the map of its arguments.
unfoldable pub twin_values : Dict Bytes → Dict Json
unfolding property_value
twin_values [] = []
twin_values ((k, v) ∷ rest) = (k, property_value v) ∷ twin_values rest

pub lookup-twin_values :
    (k : Bytes) (m : Dict Bytes) → lookup k (twin_values m) ≡ Option.map property_value (lookup k m)
unfolding lookup twin_values
lookup-twin_values k [] = refl
lookup-twin_values k ((name, v) ∷ m) = elim (Bool-cases (same name k)) [
  | inl e ↦ rw e refl
  | inr e ↦ rw e (lookup-twin_values k m)
]
