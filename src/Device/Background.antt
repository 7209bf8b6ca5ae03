-- ===== src/Device/Background.antt =====
-- iotdevice/client.go: `Connect` and `ConnectInBackground` as goroutines over one client, what
-- `ConnectionError` may return, and `Close`. A goroutine is a number; `connMu` is held by at most
-- one writer, and a step that takes and releases it at once wants it free.
pub mod Safety
pub mod Panics
pub mod Closing
use golang_iothub.Base.{
  ℕ, suc, ◌≡◌, Option, none, some, Bool, true, false, ◌==◌, if◌then◌else◌, update, Error, Result,
  ok,
}

-- A goroutine before its call; one of `ConnectInBackground` before its `Connect`; in the loop of
-- `Connect` (`true` for one in the background); behind it, before `close(c.connCh)`; and at its end.
pub data Pc : Type 0 where
  idle spawned connected finished : Pc
  connecting : Bool → Pc

pub record System : Type 0 where
  -- `connMu`, as a writer.
  pub writer : Option ℕ
  pub conn_ch : Option ℕ
  pub conn_err : Option Error
  -- Channels are numbered as they are made.
  pub next_ch : ℕ
  pub is_closed : ℕ → Bool
  -- `c.done` is closed, and how often `tr.Close()` was called.
  pub done : Bool
  pub transport_closes : ℕ
  pub crashed : Bool
  pub pcs : ℕ → Pc
  -- How many `ConnectInBackground` calls were made, and whether the transport has ever connected.
  pub starts : ℕ
  pub succeeded : Bool

abbrev pub move : System → ℕ → Pc → System
move s g pc = record s { pcs = update s.pcs g pc }

-- `close(c.connCh)`: a nil channel and a closed one panic.
abbrev pub close_channel : Option ℕ → System → System
close_channel none s = record s { crashed = true }
close_channel (some ch) s =
    if s.is_closed ch
    then record s { crashed = true }
    else record s { is_closed = update s.is_closed ch true }

abbrev pub is_nil : Option Error → Bool
is_nil none = true
is_nil (some e) = false

-- One attempt stores what the transport returned.
abbrev pub store : Option Error → System → System
store r s = record s { conn_err = r; succeeded = if is_nil r then true else s.succeeded }

pub data Step (s s' : System) : Type 0 where
  start_background :
      (g : ℕ)
      → s.pcs g ≡ idle
      → s.writer ≡ none
      → s' ≡ record (move s g spawned) {
        conn_ch = some s.next_ch;
        next_ch = suc s.next_ch;
        starts = suc s.starts;
      }
      → Step s s'
  start_foreground :
      (g : ℕ)
      → s.pcs g ≡ idle
      → s.writer ≡ none
      → s' ≡ record (move s g (connecting false)) { writer = some g }
      → Step s s'
  begin :
      (g : ℕ)
      → s.pcs g ≡ spawned
      → s.writer ≡ none
      → s' ≡ record (move s g (connecting true)) { writer = some g }
      → Step s s'
  retry :
      (g : ℕ) (b : Bool) (r : Option Error) → s.pcs g ≡ connecting b → s' ≡ store r s → Step s s'
  settle :
      (g : ℕ) (b : Bool) (r : Option Error)
      → s.pcs g ≡ connecting b
      → s' ≡ record (store r (move s g (if b then connected else finished))) { writer = none }
      → Step s s'
  -- The transport panics in a foreground call, which unlocks and stores nothing; in the background
  -- the panic ends the program.
  connect_panics :
      (g : ℕ)
      → s.pcs g ≡ connecting false
      → s' ≡ record (move s g finished) { writer = none }
      → Step s s'
  close_conn_ch :
      (g : ℕ)
      → s.pcs g ≡ connected
      → s.writer ≡ none
      → s' ≡ close_channel s.conn_ch (move s g finished)
      → Step s s'

pub data Reach (s : System) : System → Type 0 where
  here : Reach s s
  next : {t u : System} → Reach s t → Step t u → Reach s u

abbrev pub init : System
init = record {
  writer = none;
  conn_ch = none;
  conn_err = some Error.not_connected;
  next_ch = 0;
  is_closed = λ _. false;
  done = false;
  transport_closes = 0;
  crashed = false;
  pcs = λ _. idle;
  starts = 0;
  succeeded = false;
}

-- What `ConnectionError` may return in a state, behind its read `w` of `connCh`; `ctx_err` is
-- `ctx.Err()`. Where several cases of the `select` are ready, any may be taken.
pub data Returns (s : System) (ctx_err : Option Error) (w : Option ℕ) : Option Error → Type 0 where
  direct : {r : Option Error} → w ≡ none → r ≡ s.conn_err → Returns s ctx_err w r
  established :
      (ch : ℕ) {r : Option Error}
      → w ≡ some ch
      → s.is_closed ch ≡ true
      → r ≡ s.conn_err
      → Returns s ctx_err w r
  canceled :
      (ch : ℕ) (e : Error) {r : Option Error}
      → w ≡ some ch
      → ctx_err ≡ some e
      → r ≡ some e
      → Returns s ctx_err w r
  client_closed :
      (ch : ℕ) {r : Option Error}
      → w ≡ some ch
      → s.done ≡ true
      → r ≡ some Error.closed
      → Returns s ctx_err w r

abbrev pub closing : System → System
closing s = record s { done = true; transport_closes = suc s.transport_closes }

-- `Close`; `tr_close` is what the transport's `Close` returns.
unfoldable pub close : Result (Unit {0}) → System → System × Result (Unit {0})
close tr_close s = if s.done then (s, ok tt) else (closing s, tr_close)
