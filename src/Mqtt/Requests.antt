-- ===== src/Mqtt/Requests.antt =====
-- iotdevice/transport/mqtt/mqtt.go: `request`, and the handler of twin responses that
-- `enableTwinResponses` subscribes, run by any number of goroutines. A step is one access under
-- `tr.mu`, one atomic operation or one call; the scheduler and the hub pick which.
pub mod Delivery
pub mod Own
pub mod Fresh
pub mod Routing
use golang_iothub.Base.{
  ℕ, suc, ◌+◌, ◌%◌, ◌^◌, ◌≡◌, List, [], ◌∷◌, Option, none, some, Bool, true, false, ◌&&◌, Bytes, ℤ,
  pos, negsuc, lt, if◌then◌else◌, Result, ok, err, panic, Error, update,
}

-- `resp`.
pub record Resp : Type 0 where
  pub code : ℤ
  pub body : Bytes
  pub ver : ℤ

-- A message under $iothub/twin/res, as `parseTwinPropsTopic` reads its topic.
pub record Arrival : Type 0 where
  pub rc : ℤ
  pub rid : ℤ
  pub ver : ℤ
  pub payload : Bytes

-- Where a call of `request` stands: before `enableTwinResponses`, behind it, behind `AddUint32`
-- with its number, behind the store into `tr.resp`, behind a successful `send`, before the
-- deferred delete with what it will return, and returned, in `refused` before it had a number.
pub data Phase : Type 0 where
  idle enabled : Phase
  numbered registered waiting : ℕ → Phase
  leaving returned : ℕ → Result Resp → Phase
  refused : Error → Phase

-- `table` is `tr.resp`, from request numbers to the calls that wait on the channel there;
-- `buffer` is what the channel of a call holds, which has room for one response.
pub record System : Type 0 where
  pub is_enabled : Bool
  pub rid : ℕ
  pub table : ℕ → Option ℕ
  pub buffer : ℕ → Option Resp
  pub pcs : ℕ → Phase
  -- How many numbers were given out, and the responses that the handler passed on, under the
  -- numbers that they came with.
  pub issued : ℕ
  pub delivered : List (ℕ × Resp)

abbrev pub move : System → ℕ → Phase → System
move s t pc = record s { pcs = update s.pcs t pc }

abbrev pub resp_of : Arrival → Resp
resp_of m = record { code = m.rc; body = m.payload; ver = m.ver }

-- The subscribed handler: the loop over `tr.resp`, whose keys are distinct, finds the number or
-- does not. A channel that is full is the panic.
unfoldable pub deliver : Arrival → System → Result System
deliver m s = elim m.rid [
  | negsuc _ ↦ ok s
  | pos r ↦ elim (s.table r) [
    | none ↦ ok s
    | some c ↦ elim (s.buffer c) [
      | some _ ↦ panic
      | none ↦ ok (record s {
        buffer = update s.buffer c (some (resp_of m));
        delivered = (r, resp_of m) ∷ s.delivered;
      })
    ]
  ]
]

-- What `request` makes of the response that it receives.
unfoldable pub check_code : Resp → Result Resp
check_code r =
    if lt r.code (pos 200) && lt (pos 299) r.code then err (Error.request_failed r.code) else ok r

pub data Step (s s' : System) : Type 0 where
  enable_again : (t : ℕ) → s.pcs t ≡ idle → s.is_enabled ≡ true → s' ≡ move s t enabled → Step s s'
  enable_first :
      (t : ℕ)
      → s.pcs t ≡ idle
      → s.is_enabled ≡ false
      → s' ≡ record (move s t enabled) { is_enabled = true }
      → Step s s'
  enable_fails :
      (t : ℕ) (e : Error)
      → s.pcs t ≡ idle
      → s.is_enabled ≡ false
      → s' ≡ move s t (refused e)
      → Step s s'
  take_number :
      (t : ℕ)
      → s.pcs t ≡ enabled
      → s' ≡ record (move s t (numbered ((s.rid + 1) % 2 ^ 32))) {
        rid = (s.rid + 1) % 2 ^ 32;
        issued = suc s.issued;
      }
      → Step s s'
  register :
      (t r : ℕ)
      → s.pcs t ≡ numbered r
      → s' ≡ record (move s t (registered r)) { table = update s.table r (some t) }
      → Step s s'
  send_succeeds : (t r : ℕ) → s.pcs t ≡ registered r → s' ≡ move s t (waiting r) → Step s s'
  send_fails :
      (t r : ℕ) (e : Error) → s.pcs t ≡ registered r → s' ≡ move s t (leaving r (err e)) → Step s s'
  receive :
      (t r : ℕ) (x : Resp)
      → s.pcs t ≡ waiting r
      → s.buffer t ≡ some x
      → s' ≡ record (move s t (leaving r (check_code x))) { buffer = update s.buffer t none }
      → Step s s'
  time_out :
      (t r : ℕ)
      → s.pcs t ≡ waiting r
      → s' ≡ move s t (leaving r (err Error.request_timed_out))
      → Step s s'
  cancel :
      (t r : ℕ)
      → s.pcs t ≡ waiting r
      → s' ≡ move s t (leaving r (err Error.context_done))
      → Step s s'
  delete :
      (t r : ℕ) (o : Result Resp)
      → s.pcs t ≡ leaving r o
      → s' ≡ record (move s t (returned r o)) { table = update s.table r none }
      → Step s s'
  arrive : (m : Arrival) → deliver m s ≡ ok s' → Step s s'

pub data Reach (s : System) : System → Type 0 where
  here : Reach s s
  next : {t u : System} → Reach s t → Step t u → Reach s u

abbrev pub init : System
init = record {
  is_enabled = false;
  rid = 0;
  table = λ _. none;
  buffer = λ _. none;
  pcs = λ _. idle;
  issued = 0;
  delivered = [];
}

-- The number of a call, from `AddUint32` on.
abbrev pub number : Phase → Option ℕ
number idle = none
number enabled = none
number (numbered r) = some r
number (registered r) = some r
number (waiting r) = some r
number (leaving r o) = some r
number (returned r o) = some r
number (refused e) = none
