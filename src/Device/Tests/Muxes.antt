-- ===== src/Device/Tests/Muxes.antt =====
-- The muxes and `once` at concrete inputs.
use mathlib.Core.List.{Perm}
use golang_iothub.Base.{
  ◌≡◌, ◌≤◌, refl, List, [], ◌∷◌, map, none, some, true, codes, ok, Result, Bytes, ℕ, zero, suc,
  Option, sym, get_elem?, ◌==◌, arith,
}
use golang_iothub.Common.Message.{empty_message}
use golang_iothub.Device.Once.{
  System, returned, calling, Reach, here, next, init, quick_off, lock, check_off, fn_succeeds,
  store, unlock, leaving, storing, locked, waiting, move,
}
use golang_iothub.Device.Once.Invariant.{once_safe}
use golang_iothub.Device.Mux.Handlers.{Handler, ptreq}
use golang_iothub.Device.Mux.Messages.Overlap.{interrupted, interrupted_skips}
use golang_iothub.Device.Mux.Messages.{MessageMux, empty_mux, dispatch}
use golang_iothub.Device.Mux.Messages.History.{Op, adds, removes, run, survivors, dispatch-run}
use golang_iothub.Device.Mux.States.History
use golang_iothub.Device.Mux.States.{StateMux, TwinState, Dispatches}
use golang_iothub.Device.Mux.States.History.{run_states, owed_calls, Dispatches-run_states}
use golang_iothub.Device.Mux.Methods
use golang_iothub.Device.Mux.Methods.{Method, MethodMux, Codec, answer, entries, handle}
use golang_iothub.Device.Mux.Methods.Registry
use golang_iothub.Device.Mux.Methods.Registry.{handles, owner, registered, run-owner}

-- Goroutine 0 runs `once` alone, and `fn` succeeds.
abbrev at_wait : System
at_wait = move init 0 waiting

abbrev at_lock : System
at_lock = record (move at_wait 0 locked) { holder = some 0 }

abbrev at_call : System
at_call = move at_lock 0 calling

abbrev at_store : System
at_store = record (move at_call 0 storing) { successes = 1 }

abbrev at_leave : System
at_leave = record (move at_store 0 (leaving true)) { on = true }

abbrev at_end : System
at_end = record (move at_leave 0 (returned true)) { holder = none }

solo : Reach init at_end
solo =
    next
      (next
        (next
          (next (next (next here (quick_off 0 refl refl refl)) (lock 0 refl refl refl))
            (check_off 0 refl refl refl))
          (fn_succeeds 0 refl refl))
        (store 0 refl refl))
      (unlock 0 true refl refl)

once_safe_example : at_end.successes ≤ 1
once_safe_example = (once_safe solo).1

abbrev first : Handler
first = record { code = 1; closure = 1 }

abbrev second_copy : Handler
second_copy = record { code = 1; closure = 2 }

abbrev other : Handler
other = record { code = 2; closure = 1 }

abbrev history : List Op
history = adds first ∷ adds other ∷ adds second_copy ∷ removes first ∷ adds first ∷ []

dispatch-run_example :
    (m : MessageMux) × (run empty_mux history ≡ ok m)
    × (dispatch m empty_message ≡ map (λ h. (h, empty_message)) (survivors history))
dispatch-run_example = dispatch-run history empty_message

abbrev third : Handler
third = record { code = 3; closure = 1 }

abbrev three : MessageMux
three = record { on = true; s = first ∷ other ∷ third ∷ [] }

some-injective : {a b : Handler} → ◌≡◌ {A = Option Handler} (some a) (some b) → a ≡ b
some-injective e = cc e

only_first : (i : ℕ) (h : Handler) → get_elem? three.s i ≡ some h → ptreq h first ≡ (i == 0)
unfolding ptreq
only_first zero h e = rw (sym (some-injective e)) refl
only_first (suc zero) h e = rw (sym (some-injective e)) refl
only_first (suc (suc zero)) h e = rw (sym (some-injective e)) refl
only_first (suc (suc (suc i))) h e = cc e

-- The first handler is removed once it has been called: the second is passed over.
interrupted_skips_example :
    interrupted 1 first three empty_message
    ≡ ok (map (λ h. (h, empty_message)) (first ∷ third ∷ third ∷ []))
interrupted_skips_example =
    interrupted_skips 1 0 first three empty_message (omega arith) (omega arith) only_first

abbrev no_fields : Bytes → Result TwinState
no_fields b = ok (some [])

Dispatches-run_states_example :
    (m : StateMux) × (run_states History.empty_mux history ≡ ok m)
    × ((calls : List (Handler × TwinState))
        → Dispatches no_fields m [] calls
        → Perm calls (owed_calls (ok (some [])) (survivors history)))
    × Dispatches no_fields m [] (owed_calls (ok (some [])) (survivors history))
Dispatches-run_states_example = Dispatches-run_states no_fields history []

abbrev echo : Method
echo v = ok v

run-owner_example :
    (m : MethodMux) × (Registry.run Methods.empty_mux (handles (codes "m") echo ∷ []) ≡ ok m)
    × (registered (codes "m") m
        ≡ owner
            (codes "m")
            (registered (codes "m") Methods.empty_mux)
            (handles (codes "m") echo ∷ []))
run-owner_example = run-owner (handles (codes "m") echo ∷ []) Methods.empty_mux (codes "m")

abbrev echoing : MethodMux
echoing = record { on = true; m = some ((codes "m", echo) ∷ []) }

abbrev plain_codec : Codec
plain_codec = record {
  unmarshal = λ b. ok none;
  marshal = λ d. ok (codes "{}");
  quote = λ s. s;
  error_text = λ e. [];
}
