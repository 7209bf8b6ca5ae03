-- ===== src/Device/Mux/Methods.antt =====
-- iotdevice/mux.go: methodMux, the dispatcher of direct methods.
pub mod Registry
pub mod Responses
use golang_iothub.Base.{
  ℕ, [], ◌∷◌, ◌++◌, Option, none, some, Bool, false, Bytes, codes, Dict, lookup, insert, erase,
  Result, ok, err, panic, Error, ◌>>=◌,
}
use golang_iothub.Base.Json.{Json}

-- `map[string]interface{}`; `none` is a nil map.
abbrev pub Body : Type 0
Body = Option (Dict Json)

-- A DirectMethodHandler, as the function that it computes.
abbrev pub Method : Type 0
Method = Body → Result Body

pub record MethodMux : Type 0 where
  pub on : Bool
  pub m : Option (Dict Method)

abbrev pub empty_mux : MethodMux
empty_mux = record { on = false; m = none }

-- A nil map reads as an empty one.
abbrev pub entries : Option (Dict Method) → Dict Method
entries none = []
entries (some d) = d

-- The mux behind the call, and its error.
unfoldable pub handle : Bytes → Option Method → MethodMux → Result (MethodMux × Option Error)
handle method none m = panic
handle method (some fn) m =
    let d = entries m.m in
    elim (lookup method d) [
      | some f ↦ ok (record m { m = some d }, some (Error.already_registered method))
      | none ↦ ok (record m { m = some (insert method fn d) }, none)
    ]

unfoldable pub remove : Bytes → MethodMux → MethodMux
remove method m = elim m.m [ none ↦ m | some d ↦ record m { m = some (erase method d) } ]

-- Packages encoding/json and fmt: bodies read and written, and `%q`.
pub record Codec : Type 0 where
  pub unmarshal : Bytes → Result Body
  pub marshal : Dict Json → Result Bytes
  pub quote : Bytes → Bytes
  pub error_text : Error → Bytes

unfoldable pub json_err : Codec → Error → Result (ℕ × Bytes)
json_err codec e = ok (500, codes "{\"error\":" ++ (codec.quote (codec.error_text e) ++ codes "}"))

-- `if v == nil { v = map[string]interface{}{} }`.
abbrev pub or_empty : Body → Dict Json
or_empty none = []
or_empty (some v) = v

-- What the handler makes of the request body, before the status is known.
unfoldable pub answer : Codec → Method → Bytes → Result Bytes
answer codec f b = do v ← codec.unmarshal b; v' ← f v; codec.marshal (or_empty v')

unfoldable pub reply : Codec → Result Bytes → Result (ℕ × Bytes)
unfolding json_err
reply codec (ok body) = ok (200, body)
reply codec (err e) = json_err codec e
reply codec panic = panic

-- Status code and body, or the error of a dispatch that fails.
unfoldable pub dispatch : Codec → MethodMux → Bytes → Bytes → Result (ℕ × Bytes)
dispatch codec m method b = elim (lookup method (entries m.m)) [
  | none ↦ err (Error.not_registered method)
  | some f ↦ reply codec (answer codec f b)
]
