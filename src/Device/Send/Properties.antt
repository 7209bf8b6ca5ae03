-- ===== src/Device/Send/Properties.antt =====
-- The property options: what they leave under each key, for every order of a range loop.
use golang_iothub.Base.{
  ◌≡◌, refl, [], ◌∷◌, Option, none, some, arith, Bytes, Dict, lookup, insert, lookup-insert,
  Distinct, same_iff, ok,
}
use golang_iothub.Common.Message.{Message}
use golang_iothub.Device.Send.{or_new, copy_into, with_send_properties}

-- The first if there is one, else the second.
abbrev pub first_of_two {ℓ} : {A : Type ℓ} → Option A → Option A → Option A
first_of_two none o = o
first_of_two (some a) o = some a

lookup-copy_into :
    (d m : Dict Bytes) (k : Bytes)
    → Distinct m
    → lookup k (copy_into d m) ≡ first_of_two (lookup k m) (lookup k d)
unfolding lookup copy_into
lookup-copy_into d [] k h = refl
lookup-copy_into d ((j, v) ∷ m) k h =
    ground (arith, lookup-copy_into (insert j v d) m k h.1, lookup-insert j k v d, same_iff j k)

-- `WithSendProperties` gives every key of its map the map's value and leaves the other properties
-- and every other field of the message alone, in whatever order the range loop visits the map.
with_send_properties-lookup :
    (m : Option (Dict Bytes)) (msg : Message)
    → Distinct (or_new m)
    → (d : Dict Bytes) × (with_send_properties m msg ≡ ok (record msg { properties = some d }))
      × ((k : Bytes)
          → lookup k d ≡ first_of_two (lookup k (or_new m)) (lookup k (or_new msg.properties)))
unfolding with_send_properties
with_send_properties-lookup m msg h = (
  copy_into (or_new msg.properties) (or_new m),
  refl,
  λ k. lookup-copy_into (or_new msg.properties) (or_new m) k h,
)
