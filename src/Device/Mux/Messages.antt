-- ===== src/Device/Mux/Messages.antt =====
-- iotdevice/mux.go: messageMux. `once` is in Device/Once; the flag it guards is `on`.
pub mod History
pub mod Overlap
use golang_iothub.Base.{
  ◌≡◌, refl, List, [], ◌∷◌, ◌++◌, map, Option, none, some, Bool, false, Result, ok, panic, ◌>>=◌,
  length,
}
use golang_iothub.Common.Message.{Message, empty_message}
use golang_iothub.Device.Mux.Handlers.{Handler, remove_from, ptreq}

pub record MessageMux : Type 0 where
  pub on : Bool
  pub s : List Handler

abbrev pub empty_mux : MessageMux
empty_mux = record { on = false; s = [] }

unfoldable pub add : Option Handler → MessageMux → Result MessageMux
add none m = panic
add (some fn) m = ok (record m { s = m.s ++ fn ∷ [] })

unfoldable pub remove : Handler → MessageMux → Result MessageMux
remove fn m = remove_from (length m.s) fn m.s >>= λ s. ok (record m { s = s })

-- The calls that `Dispatch` makes, in order: `fn(msg)` in the loop, one after the other.
unfoldable pub dispatch : MessageMux → Message → List (Handler × Message)
dispatch m msg = map (λ fn. (fn, msg)) m.s
