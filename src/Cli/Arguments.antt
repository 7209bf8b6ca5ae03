-- ===== src/Cli/Arguments.antt =====
-- `ArgsToMap`.
use golang_iothub.Base.{
  ◌%◌, ◌≡◌, refl, List, [], ◌∷◌, Option, none, some, Bytes, Dict, insert, lookup, lookup-insert,
  same, length, arith, if◌then◌else◌, ok, err, Error,
}
use golang_iothub.Cli.{fill_map, args_to_map}

-- The arguments of key-value pairs.
unfoldable pub arguments : List (Bytes × Bytes) → List Bytes
arguments [] = []
arguments ((k, v) ∷ ps) = k ∷ v ∷ arguments ps

-- The last value that is given for a key, or what was there before.
unfoldable pub last_value : Bytes → List (Bytes × Bytes) → Option Bytes → Option Bytes
last_value k [] before = before
last_value k ((name, v) ∷ ps) before = last_value k ps (if same name k then some v else before)

even_length : (ps : List (Bytes × Bytes)) → length (arguments ps) % 2 ≡ 0
unfolding arguments
even_length [] = refl
even_length (p ∷ ps) = let rest = even_length ps in omega arith

fill_map-arguments :
    (ps : List (Bytes × Bytes)) (m : Dict Bytes)
    → (d : Dict Bytes) × (fill_map (arguments ps) m ≡ ok d)
      × ((k : Bytes) → lookup k d ≡ last_value k ps (lookup k m))
unfolding arguments last_value fill_map
fill_map-arguments [] m = (m, refl, λ k. refl)
fill_map-arguments ((name, v) ∷ ps) m =
    let (d, filled, values) = fill_map-arguments ps (insert name v m) in
    (d, filled, λ k. rw (values k, lookup-insert name k v m) refl)

-- `ArgsToMap` of key-value pairs is a map in which each key has the last value given for it, and no
-- other key is there; it refuses an odd number of arguments.
pub args_to_map_lem :
    ((ps : List (Bytes × Bytes))
      → (d : Dict Bytes) × (args_to_map (arguments ps) ≡ ok d)
        × ((k : Bytes) → lookup k d ≡ last_value k ps none))
    × ((s : List Bytes) → length s % 2 ≡ 1 → args_to_map s ≡ err Error.odd_arguments)
unfolding args_to_map lookup
args_to_map_lem = (
  λ ps.
      let (d, filled, values) = fill_map-arguments ps [] in
      (d, rw (args_to_map, even_length ps) filled, values),
  λ s odd. rw (args_to_map, odd) refl,
)
