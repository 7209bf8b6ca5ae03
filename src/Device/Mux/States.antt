-- ===== src/Device/Mux/States.antt =====
-- iotdevice/mux.go: stateMux. Its `Dispatch` calls every handler in a goroutine of its own.
pub mod History
use mathlib.Core.List.{Perm, perm_middle}
use mathlib.Core.List.Perm
use golang_iothub.Base.{
  ◌≡◌, sym, subst, List, [], ◌∷◌, ◌++◌, map, Option, none, some, Bool, Bytes, Dict, Result, ok, err,
  panic, Error, arith, ◌>>=◌, length,
}
use golang_iothub.Base.Json.{Json}
use golang_iothub.Device.Mux.Handlers.{
  Handler, remove_from, without, remove_from_lem, without_hit, ptreq,
}

-- `map[string]interface{}`; `none` is a nil map.
abbrev pub TwinState : Type 0
TwinState = Option (Dict Json)

pub record StateMux : Type 0 where
  pub on : Bool
  pub s : List Handler

unfoldable pub add : Option Handler → StateMux → Result StateMux
add none m = panic
add (some fn) m = ok (record m { s = m.s ++ fn ∷ [] })

unfoldable pub remove : Handler → StateMux → Result StateMux
remove fn m = remove_from (length m.s) fn m.s >>= λ s. ok (record m { s = s })

-- Goroutines that end in some order: each time one of those that are left.
pub data Finishes {ℓ} {A : Type ℓ} : List A → List A → Type ℓ where
  done : Finishes [] []
  finish :
      (xs ys : List A) (x : A) {pending calls : List A}
      → pending ≡ xs ++ x ∷ ys
      → Finishes (xs ++ ys) calls
      → Finishes pending (x ∷ calls)

-- The calls that `Dispatch` starts, before it waits for all of them; none where the body is no
-- JSON object. `unmarshal` is `json.Unmarshal` into a TwinState.
unfoldable pub started : (Bytes → Result TwinState) → StateMux → Bytes → List (Handler × TwinState)
started unmarshal m b = elim (unmarshal b) [
  | ok v ↦ map (λ fn. (fn, v)) m.s
  | err e ↦ []
  | panic ↦ []
]

-- `Dispatch`, with the calls in the order in which they end.
abbrev pub Dispatches :
    (Bytes → Result TwinState) → StateMux → Bytes → List (Handler × TwinState) → Type 0
Dispatches unmarshal m b calls = Finishes (started unmarshal m b) calls

pub Finishes-perm {ℓ} :
    {A : Type ℓ} {pending calls : List A} → Finishes pending calls → Perm calls pending
Finishes-perm done = Perm.nil
Finishes-perm (finish xs ys x {calls = cs} e rest) =
    subst (λ p. Perm (x ∷ cs) p) (sym e)
      (Perm.trans (Perm.cons x (Finishes-perm rest)) (Perm.symm (perm_middle xs ys)))

-- Registering a handler and removing it again leaves the mux as the removal alone does: without
-- the handlers of that code, and with the others in order.
remove-add :
    (fn : Handler) (m : StateMux)
    → ((add (some fn) m >>= remove fn) ≡ remove fn m)
      × (remove fn m ≡ ok (record m { s = without fn m.s }))
unfolding add remove ptreq
remove-add fn m =
    let last : without fn (m.s ++ fn ∷ []) ≡ without fn m.s =
      without_hit fn fn m.s (ground arith) in
    (
      rw (remove_from_lem fn (m.s ++ fn ∷ []), remove_from_lem fn m.s, last),
      rw (remove_from_lem fn m.s),
    )
