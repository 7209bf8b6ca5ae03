-- ===== src/Device/Mux/States/History.antt =====
-- The stateMux against the history of its calls.
use mathlib.Core.List.{Perm}
use golang_iothub.Base.{
  ◌≡◌, refl, ap, ◌∙◌, List, [], ◌∷◌, ◌++◌, map, some, false, Bytes, keep_if, Result, ok, err, panic,
  ◌>>=◌, Result-cases, inl, inr,
}
use golang_iothub.Device.Mux.Handlers.{Handler, without, remove_from_lem}
use golang_iothub.Device.Mux.Messages as Messages
use golang_iothub.Device.Mux.Messages.{MessageMux}
use golang_iothub.Device.Mux.Messages.History.{
  Op, adds, removes, survivors, step, run, run-survivors,
}
use golang_iothub.Device.Mux.States.{
  StateMux, TwinState, add, remove, started, Dispatches, Finishes, done, finish, Finishes-perm,
}

abbrev pub empty_mux : StateMux
empty_mux = record { on = false; s = [] }

step_states : StateMux → Op → Result StateMux
step_states m (adds fn) = add (some fn) m
step_states m (removes fn) = remove fn m

pub run_states : StateMux → List Op → Result StateMux
unfolding step_states
run_states m [] = ok m
run_states m (op ∷ ops) = step_states m op >>= λ m'. run_states m' ops

abbrev alike : StateMux → MessageMux
alike m = record { on = m.on; s = m.s }

abbrev back : MessageMux → StateMux
back m = record { on = m.on; s = m.s }

-- Both muxes keep their handlers in the same way.
run_states-run :
    (ops : List Op) (m : StateMux) → run_states m ops ≡ (run (alike m) ops >>= λ k. ok (back k))
unfolding run_states step_states run step add remove Messages.add Messages.remove
run_states-run [] m = refl
run_states-run (adds fn ∷ ops) m = run_states-run ops (record m { s = m.s ++ fn ∷ [] })
run_states-run (removes fn ∷ ops) m =
    rw (remove_from_lem fn m.s) (run_states-run ops (record m { s = without fn m.s }))

-- The calls that a dispatch of a body owes to handlers: none, if it is no twin state.
abbrev pub owed_calls : Result TwinState → List Handler → List (Handler × TwinState)
owed_calls (ok v) handlers = map (λ h. (h, v)) handlers
owed_calls (err e) handlers = []
owed_calls panic handlers = []

started-owed_calls :
    (unmarshal : Bytes → Result TwinState) (b : Bytes) (m : StateMux)
    → started unmarshal m b ≡ owed_calls (unmarshal b) m.s
unfolding started
started-owed_calls unmarshal b m = elim (Result-cases (unmarshal b)) [
  | inl (v, e) ↦ rw (started, e) refl
  | inr (inl (x, e)) ↦ rw (started, e) refl
  | inr (inr e) ↦ rw (started, e) refl
]

-- Goroutines can end in the order in which they were started.
finishes_in_order : {A : Type 0} (pending : List A) → Finishes pending pending
finishes_in_order [] = done
finishes_in_order (x ∷ pending) = finish [] pending x refl (finishes_in_order pending)

-- After any history of additions and removals, which never panics, and in whatever order its
-- goroutines end, a `Dispatch` of a body that is a twin state calls the handlers that were added and
-- not removed later with that state, each once for every time it was added, and no other; of a body
-- that is none it calls nothing. The order in which the handlers were added is one in which it may
-- end. A removal hits every handler that points to the same code.
pub Dispatches-run_states :
    (unmarshal : Bytes → Result TwinState) (ops : List Op) (b : Bytes)
    → (m : StateMux) × (run_states empty_mux ops ≡ ok m)
      × ((calls : List (Handler × TwinState))
          → Dispatches unmarshal m b calls
          → Perm calls (owed_calls (unmarshal b) (survivors ops)))
      × Dispatches unmarshal m b (owed_calls (unmarshal b) (survivors ops))
unfolding keep_if
Dispatches-run_states unmarshal ops b =
    let m : StateMux = record empty_mux { s = survivors ops } in
    (
      m,
      run_states-run ops empty_mux
          ∙ ap (λ r. r >>= λ k. ok (back k)) (run-survivors ops (alike empty_mux)),
      λ calls d. rw (started-owed_calls unmarshal b m) at (Finishes-perm d),
      rw (started-owed_calls unmarshal b m)
          (finishes_in_order (owed_calls (unmarshal b) (survivors ops))),
    )
