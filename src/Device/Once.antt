-- ===== src/Device/Once.antt =====
-- iotdevice/mux.go: `once`, the double-checked locking behind the three muxes, run by any number
-- of goroutines. A step is one atomic access or one call; the scheduler picks who steps, and
-- whether `fn` fails.
pub mod Invariant
use golang_iothub.Base.{ℕ, suc, ◌≡◌, Option, none, some, Bool, true, false, update}

-- Where a goroutine stands: before the quick check, behind it, holding the mutex, in the call of
-- `fn`, before the store that a successful call is followed by, before the deferred unlock with
-- what it will return, and returned.
pub data Pc : Type 0 where
  start waiting locked calling storing : Pc
  leaving returned : Bool → Pc

pub record System : Type 0 where
  -- `*i == 1`: the word is 0 at first, and nothing but 1 is stored.
  pub on : Bool
  pub holder : Option ℕ
  pub pcs : ℕ → Pc
  -- How often `fn` has succeeded.
  pub successes : ℕ

abbrev pub move : System → ℕ → Pc → System
move s t pc = record s { pcs = update s.pcs t pc }

-- `returned true` is a nil error.
pub data Step (s s' : System) : Type 0 where
  quick_on : (t : ℕ) → s.pcs t ≡ start → s.on ≡ true → s' ≡ move s t (returned true) → Step s s'
  quick_off : (t : ℕ) → s.pcs t ≡ start → s.on ≡ false → s' ≡ move s t waiting → Step s s'
  lock :
      (t : ℕ)
      → s.pcs t ≡ waiting
      → s.holder ≡ none
      → s' ≡ record (move s t locked) { holder = some t }
      → Step s s'
  check_on : (t : ℕ) → s.pcs t ≡ locked → s.on ≡ true → s' ≡ move s t (leaving true) → Step s s'
  check_off : (t : ℕ) → s.pcs t ≡ locked → s.on ≡ false → s' ≡ move s t calling → Step s s'
  fn_fails : (t : ℕ) → s.pcs t ≡ calling → s' ≡ move s t (leaving false) → Step s s'
  fn_succeeds :
      (t : ℕ)
      → s.pcs t ≡ calling
      → s' ≡ record (move s t storing) { successes = suc s.successes }
      → Step s s'
  store :
      (t : ℕ) → s.pcs t ≡ storing → s' ≡ record (move s t (leaving true)) { on = true } → Step s s'
  unlock :
      (t : ℕ) (r : Bool)
      → s.pcs t ≡ leaving r
      → s' ≡ record (move s t (returned r)) { holder = none }
      → Step s s'

pub data Reach (s : System) : System → Type 0 where
  here : Reach s s
  next : {t u : System} → Reach s t → Step t u → Reach s u

abbrev pub init : System
init = record { on = false; holder = none; pcs = λ _. start; successes = 0 }
