-- ===== src/Cli/DeviceTool/Prompt/Tests.antt =====
-- Two calls of `direct-method`, of which the first is answered.
use golang_iothub.Base.{ℕ, ◌≡◌, refl, [], ◌∷◌, some, none, true, Bytes, codes, Result, ok}
use golang_iothub.Device.Mux.States.{TwinState}
use golang_iothub.Cli.DeviceTool.Prompt.{
  locked, prompted, finishing, returned, called, prompt, line, System, move, call, lock, ask, read,
  unlock, init, Reach, here, next, behind_marshal, behind_line, behind_unmarshal,
}
use golang_iothub.Cli.DeviceTool.Prompt.Moves.{Answered, inside}
use golang_iothub.Cli.DeviceTool.Prompt.Turns.{takes_turns}

abbrev marshal : TwinState → Result Bytes
marshal p = ok (codes "{}")

abbrev unmarshal : Bytes → Result TwinState
unmarshal b = ok (some [])

abbrev s_called : System
s_called = move (move (init marshal unmarshal) 0 (called none)) 1 (called none)

abbrev s_locked : System
s_locked = record (move s_called 0 (locked none)) { mu = some 0 }

abbrev s_prompted : System
s_prompted = record (move s_locked 0 (prompted none)) { log = prompt 0 none ∷ [] }

abbrev s_read : System
s_read = record (move s_prompted 0 (finishing none (ok (some [])))) {
  log = line 0 (ok (codes "{}")) ∷ prompt 0 none ∷ [];
}

abbrev s_returned : System
s_returned = record (move s_read 0 (returned none (ok (some [])))) { mu = none }

called_reached : Reach marshal unmarshal s_called
called_reached = next (next here (call 0 none refl refl)) (call 1 none refl refl)

returned_reached : Reach marshal unmarshal s_returned
unfolding behind_marshal behind_line behind_unmarshal
returned_reached =
    next
      (next (next (next called_reached (lock 0 none refl refl refl)) (ask 0 none refl refl))
        (read 0 none (ok (codes "{}")) refl refl))
      (unlock 0 none (ok (some [])) refl refl)

takes_turns_example :
    ((g h : ℕ) → inside (s_returned.pcs g) ≡ true → inside (s_returned.pcs h) ≡ true → g ≡ h)
    × ((g : ℕ) (p v : TwinState)
        → s_returned.pcs g ≡ returned p (ok v)
        → Answered marshal unmarshal s_returned.log g p v)
takes_turns_example = takes_turns marshal unmarshal s_returned returned_reached
