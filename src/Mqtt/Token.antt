-- ===== src/Mqtt/Token.antt =====
-- iotdevice/transport/mqtt/mqtt.go: `contextToken`, which waits for the library's token or for the
-- context. A step is one call or one operation on the channel `done`.
pub mod Outcome
pub mod Ending
mod Tests
use golang_iothub.Base.{ℕ, ◌≡◌, Option, none, some, Bool, true, false, Error, context_done}

-- The goroutine: at `WaitTimeout`, at the `select` behind a timeout, before `close(done)`, and
-- returned.
pub data Waiter : Type 0 where
  polling checking closing ended : Waiter

-- The caller: at the `select`, behind `<-done` before `t.Error()`, and returned with an error or
-- nil.
pub data Caller : Type 0 where
  selecting woken : Caller
  returned : Option Error → Caller

-- `token` is what the token has completed with, a nil error or one; `is_cancelled` is whether the
-- context is done; `is_done` whether `done` is closed.
pub record Wait : Type 0 where
  pub token : Option (Option Error)
  pub is_cancelled : Bool
  pub is_done : Bool
  pub waiter : Waiter
  pub caller : Caller

pub data Step (s s' : Wait) : Type 0 where
  -- What the library and the owner of the context do.
  completes : (r : Option Error) → s.token ≡ none → s' ≡ record s { token = some r } → Step s s'
  cancels : s' ≡ record s { is_cancelled = true } → Step s s'
  -- `WaitTimeout`.
  sees :
      (r : Option Error)
      → s.waiter ≡ polling
      → s.token ≡ some r
      → s' ≡ record s { waiter = closing }
      → Step s s'
  times_out : s.waiter ≡ polling → s' ≡ record s { waiter = checking } → Step s s'
  gives_up :
      s.waiter ≡ checking → s.is_cancelled ≡ true → s' ≡ record s { waiter = ended } → Step s s'
  goes_on :
      s.waiter ≡ checking → s.is_cancelled ≡ false → s' ≡ record s { waiter = polling } → Step s s'
  closes : s.waiter ≡ closing → s' ≡ record s { waiter = ended; is_done = true } → Step s s'
  -- The caller's `select`.
  wakes : s.caller ≡ selecting → s.is_done ≡ true → s' ≡ record s { caller = woken } → Step s s'
  reads :
      (r : Option Error)
      → s.caller ≡ woken
      → s.token ≡ some r
      → s' ≡ record s { caller = returned r }
      → Step s s'
  is_cut :
      s.caller ≡ selecting
      → s.is_cancelled ≡ true
      → s' ≡ record s { caller = returned (some context_done) }
      → Step s s'

pub data Reach (s : Wait) : Wait → Type 0 where
  here : Reach s s
  next : {t u : Wait} → Reach s t → Step t u → Reach s u

abbrev pub init : Wait
init = record {
  token = none;
  is_cancelled = false;
  is_done = false;
  waiter = polling;
  caller = selecting;
}
