-- ===== src/Cli/DeviceTool/Prompt.antt =====
-- cmd/iothub-device/main.go: the handler of `direct-method` in one goroutine for each call, over the
-- mutex, stdin and stdout, and the channel of errors that `direct-method` waits on.
pub mod Moves
pub mod Turns
mod Tests
use golang_iothub.Base.{
  ℕ, ◌<◌, ◌≡◌, List, [], ◌∷◌, ◌++◌, Option, none, some, Bytes, codes, length, update, Result, ok,
  err, panic, Error,
}
use golang_iothub.Device.Mux.States.{TwinState}

-- A goroutine before its call, at `mu.Lock()`, behind it, behind its prompt, before it sends an error
-- on `errc`, before the deferred `mu.Unlock()` and at its end.
pub data Pc : Type 0 where
  idle : Pc
  called locked prompted : TwinState → Pc
  reporting : TwinState → Error → Error → Pc
  finishing returned : TwinState → Result TwinState → Pc

-- What stands on the terminal: the prompt for a call, and what `ReadLine` returns to one.
pub data Event : Type 0 where
  prompt : ℕ → TwinState → Event
  line : ℕ → Result Bytes → Event

-- `log` is the terminal, the newest first; `main` is what `<-errc` gave to `direct-method`.
pub record System : Type 0 where
  pub mu : Option ℕ
  pub pcs : ℕ → Pc
  pub log : List Event
  pub errc : List Error
  pub main : Option Error

abbrev pub move : System → ℕ → Pc → System
move s g pc = record s { pcs = update s.pcs g pc }

module _ (marshal : TwinState → Result Bytes) (unmarshal : Bytes → Result TwinState) where
  -- Behind `json.Marshal`: the prompt is printed only where it succeeds.
  unfoldable pub behind_marshal : TwinState → Result Bytes → Pc × (ℕ → List Event)
  behind_marshal p (ok b) = (prompted p, λ g. prompt g p ∷ [])
  behind_marshal p (err e) = (reporting p e e, λ g. [])
  behind_marshal p panic = (finishing p panic, λ g. [])

  unfoldable pub behind_unmarshal : TwinState → Result TwinState → Pc
  behind_unmarshal p (ok v) = finishing p (ok v)
  behind_unmarshal p (err e) = reporting p (Error.other (codes "unable to parse json input")) e
  behind_unmarshal p panic = finishing p panic

  unfoldable pub behind_line : TwinState → Result Bytes → Pc
  unfolding behind_unmarshal
  behind_line p (ok text) = behind_unmarshal p (unmarshal text)
  behind_line p (err e) = reporting p e e
  behind_line p panic = finishing p panic

  pub data Step (s s' : System) : Type 0 where
    call : (g : ℕ) (p : TwinState) → s.pcs g ≡ idle → s' ≡ move s g (called p) → Step s s'
    lock :
        (g : ℕ) (p : TwinState)
        → s.pcs g ≡ called p
        → s.mu ≡ none
        → s' ≡ record (move s g (locked p)) { mu = some g }
        → Step s s'
    ask :
        (g : ℕ) (p : TwinState)
        → s.pcs g ≡ locked p
        → s' ≡ record (move s g (behind_marshal p (marshal p)).0) {
          log = (behind_marshal p (marshal p)).1 g ++ s.log;
        }
        → Step s s'
    -- What `ReadLine` returns is the terminal's.
    read :
        (g : ℕ) (p : TwinState) (r : Result Bytes)
        → s.pcs g ≡ prompted p
        → s' ≡ record (move s g (behind_line p r)) { log = line g r ∷ s.log }
        → Step s s'
    report :
        (g : ℕ) (p : TwinState) (shown e : Error)
        → s.pcs g ≡ reporting p shown e
        → length s.errc < 1
        → s' ≡ record (move s g (finishing p (err e))) { errc = s.errc ++ shown ∷ [] }
        → Step s s'
    unlock :
        (g : ℕ) (p : TwinState) (r : Result TwinState)
        → s.pcs g ≡ finishing p r
        → s' ≡ record (move s g (returned p r)) { mu = none }
        → Step s s'
    ends :
        (e : Error) (rest : List Error)
        → s.main ≡ none
        → s.errc ≡ e ∷ rest
        → s' ≡ record s { main = some e; errc = rest }
        → Step s s'

  abbrev pub init : System
  init = record { mu = none; pcs = λ g. idle; log = []; errc = []; main = none }

  pub data Reach : System → Type 0 where
    here : Reach init
    next : {s s' : System} → Reach s → Step s s' → Reach s'
