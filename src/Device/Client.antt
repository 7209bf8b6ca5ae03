-- ===== src/Device/Client.antt =====
-- iotdevice/client.go: what subscribes handlers and reads and writes the twin. Each call runs here
-- alone: `once` and the muxes stand as one step each, their interleavings are in Device/Once.
pub mod Subscriptions
use golang_iothub.Base.{
  ℕ, ◌≡◌, refl, List, [], ◌∷◌, Option, none, some, Bool, true, false, Bytes, Dict, same, lookup,
  codes, ℤ, pos, if◌then◌else◌, Result, ok, err, panic, Error, ◌>>=◌, ◌>>◌,
}
use golang_iothub.Base.Json.{Json}
use golang_iothub.Base.Json
use golang_iothub.Device.Mux.Handlers.{Handler}
use golang_iothub.Device.Mux.Messages.{MessageMux}
use golang_iothub.Device.Mux.Messages
use golang_iothub.Device.Mux.States.{StateMux, TwinState}
use golang_iothub.Device.Mux.States
use golang_iothub.Device.Mux.Methods
use golang_iothub.Device.Mux.Methods.{MethodMux, Method, handle}

-- What the client asks of its connection and its transport: the error of `ConnectionError`, and
-- what each call of the transport returns.
pub record Link : Type 0 where
  pub connection : Option Error
  pub subscribe_events : Option Error
  pub subscribe_twin_updates : Option Error
  pub register_direct_methods : Option Error
  pub retrieve_twin_properties : Result Bytes
  pub update_twin_properties : Bytes → Result ℤ

-- The muxes of a Client.
pub record Muxes : Type 0 where
  pub cm_mux : MessageMux
  pub tu_mux : StateMux
  pub dm_mux : MethodMux

-- `once` on a flag, in a call that meets no other: the flag behind it, and its error.
unfoldable pub once : Bool → Option Error → Bool × Option Error
once true fn = (true, none)
once false (some e) = (false, some e)
once false none = (true, none)

abbrev pub Returns : Type 0
Returns = Result (Muxes × Option Error)

-- The error of `once` is dropped.
unfoldable pub subscribe_events : Link → Option Handler → Muxes → Returns
subscribe_events link fn c = elim link.connection [
  | some e ↦ ok (c, some e)
  | none ↦
      let (on, _) = once c.cm_mux.on link.subscribe_events in
      Messages.add fn (record c.cm_mux { on = on }) >>= λ m. ok (record c { cm_mux = m }, none)
]

unfoldable pub unsubscribe_events : Handler → Muxes → Result Muxes
unsubscribe_events fn c = Messages.remove fn c.cm_mux >>= λ m. ok (record c { cm_mux = m })

-- Behind `once`, with its error.
unfoldable pub add_state_handler : Option Error → Option Handler → Muxes → Returns
add_state_handler (some e) fn c = ok (c, some e)
add_state_handler none fn c =
    States.add fn (record c.tu_mux { on = true }) >>= λ m. ok (record c { tu_mux = m }, none)

unfoldable pub subscribe_twin_updates : Link → Option Handler → Muxes → Returns
unfolding add_state_handler
subscribe_twin_updates link fn c = elim link.connection [
  | some e ↦ ok (c, some e)
  | none ↦ add_state_handler (once c.tu_mux.on link.subscribe_twin_updates).1 fn c
]

unfoldable pub unsubscribe_twin_updates : Handler → Muxes → Result Muxes
unsubscribe_twin_updates fn c = States.remove fn c.tu_mux >>= λ m. ok (record c { tu_mux = m })

unfoldable pub register_named : Link → Bytes → Option Method → Muxes → Returns
register_named link name fn c = elim (once c.dm_mux.on link.register_direct_methods).1 [
  | some e ↦ ok (c, some e)
  | none ↦
      handle name fn (record c.dm_mux { on = true }) >>= λ r. ok (record c { dm_mux = r.0 }, r.1)
]

unfoldable pub register_method : Link → Bytes → Option Method → Muxes → Returns
unfolding register_named
register_method link name fn c = elim link.connection [
  | some e ↦ ok (c, some e)
  | none ↦ if same name [] then ok (c, some Error.name_is_blank) else register_named link name fn c
]

unfoldable pub unregister_method : Bytes → Muxes → Muxes
unregister_method name c = record c { dm_mux = Methods.remove name c.dm_mux }

-- `TwinState.Version`: 0 where `$version` is no number. `truncated` is `int` of the float64 that a
-- number is decoded to.
unfoldable version_of : (Bytes → ℤ) → Option Json → ℤ
version_of truncated (some (Json.number n)) = truncated n
version_of truncated (some Json.null) = pos 0
version_of truncated (some (Json.boolean b)) = pos 0
version_of truncated (some (Json.text t)) = pos 0
version_of truncated (some (Json.array items)) = pos 0
version_of truncated (some (Json.object members)) = pos 0
version_of truncated none = pos 0

-- A nil map has no entries.
unfoldable pub version : (Bytes → ℤ) → TwinState → ℤ
unfolding version_of
version truncated none = pos 0
version truncated (some s) = version_of truncated (lookup (codes "$version") s)

-- The error that a call returns first, if the client is not connected.
unfoldable pub connected : Link → Result (Unit {0})
connected link = elim link.connection [ some e ↦ err e | none ↦ ok tt ]

-- `unmarshal` is `json.Unmarshal` into the two states.
unfoldable pub retrieve_twin_state :
    (Bytes → Result (TwinState × TwinState)) → Link → Result (TwinState × TwinState)
unfolding connected
retrieve_twin_state unmarshal link =
    connected link >> (link.retrieve_twin_properties >>= λ b. unmarshal b)

-- `marshal` is `json.Marshal`.
unfoldable pub update_twin_state : (TwinState → Result Bytes) → Link → TwinState → Result ℤ
unfolding connected
update_twin_state marshal link s =
    connected link >> (marshal s >>= λ b. link.update_twin_properties b)
