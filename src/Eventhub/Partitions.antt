-- ===== src/Eventhub/Partitions.antt =====
-- eventhub/client.go: `SubscribePartitions`, one goroutine that receives for each partition and the
-- loop that hands messages on, over the channels `msgc` and `errc`. A step is one call or one
-- operation on a channel; the scheduler and the hub pick which.
pub mod Started
pub mod Order
pub mod Progress
pub mod Channels
pub mod Leaks
pub mod Draining
mod Tests
use golang_iothub.Base.{
  ℕ, suc, ◌<◌, ◌≡◌, ◌+◌, ◌/◌, List, [], ◌∷◌, ◌++◌, length, Bytes, codes, update, Result, ok, err,
  panic, Error,
}
use golang_iothub.Std.Strconv.{format_int}
use golang_iothub.Common.AmqpMessage.{AmqpMessage}

-- `/{name}/ConsumerGroups/{group}/Partitions/{id}`.
unfoldable pub source_address : Bytes → Bytes → Bytes → Bytes
source_address name group id =
    codes "/" ++ (name ++ (codes "/ConsumerGroups/" ++ (group ++ (codes "/Partitions/" ++ id))))

-- The filter of a receiver; `now` is `time.Now().UnixNano()`.
unfoldable pub selector : ℕ → Bytes
selector now =
    codes "amqp.annotation.x-opt-enqueuedtimeutc > '" ++ (format_int (now / 1000000) ++ codes "'")

-- Where the goroutine of a partition stands: not started, at `Receive`, before `msgc <- msg` with a
-- message that it has accepted, before `errc <- err`, and returned.
pub data Worker : Type 0 where
  absent receiving stopped : Worker
  holding : AmqpMessage → Worker
  failing : Error → Worker

-- Where the caller stands: at the loop that opens receivers, at the `select`, and returned.
pub data Main : Type 0 where
  opening serving : Main
  returned : Error → Main

-- `workers` gives the goroutine of each partition; a message in `msgc` is kept with the partition
-- that it came from. `handed` is what `f` was called with, in order; `received` is what each
-- goroutine has received.
pub record System : Type 0 where
  pub main : Main
  pub opened : ℕ
  pub workers : ℕ → Worker
  pub msgc : List (ℕ × AmqpMessage)
  pub errc : List Error
  pub handed : List (ℕ × AmqpMessage)
  pub received : ℕ → List AmqpMessage

abbrev pub move : System → ℕ → Worker → System
move s i w = record s { workers = update s.workers i w }

-- With `n` partitions. The context is cancelled by a `Receive` that fails.
pub data Step (n : ℕ) (s s' : System) : Type 0 where
  open_next :
      s.main ≡ opening
      → s.opened < n
      → s' ≡ record (move s s.opened receiving) { opened = suc s.opened }
      → Step n s s'
  open_fails :
      (e : Error)
      → s.main ≡ opening
      → s.opened < n
      → s' ≡ record s { main = returned e }
      → Step n s s'
  all_open : s.main ≡ opening → s.opened ≡ n → s' ≡ record s { main = serving } → Step n s s'
  receives :
      (i : ℕ) (m : AmqpMessage)
      → s.workers i ≡ receiving
      → s'
        ≡ record (move s i (holding m)) { received = update s.received i (s.received i ++ m ∷ []) }
      → Step n s s'
  receive_fails :
      (i : ℕ) (e : Error) → s.workers i ≡ receiving → s' ≡ move s i (failing e) → Step n s s'
  passes :
      (i : ℕ) (m : AmqpMessage)
      → s.workers i ≡ holding m
      → length s.msgc < n
      → s' ≡ record (move s i receiving) { msgc = s.msgc ++ (i, m) ∷ [] }
      → Step n s s'
  reports :
      (i : ℕ) (e : Error)
      → s.workers i ≡ failing e
      → length s.errc < n
      → s' ≡ record (move s i stopped) { errc = s.errc ++ e ∷ [] }
      → Step n s s'
  hands_on :
      (x : ℕ × AmqpMessage) (rest : List (ℕ × AmqpMessage))
      → s.main ≡ serving
      → s.msgc ≡ x ∷ rest
      → s' ≡ record s { msgc = rest; handed = s.handed ++ x ∷ [] }
      → Step n s s'
  finishes :
      (e : Error) (rest : List Error)
      → s.main ≡ serving
      → s.errc ≡ e ∷ rest
      → s' ≡ record s { main = returned e; errc = rest }
      → Step n s s'

pub data Reach (n : ℕ) (s : System) : System → Type 0 where
  here : Reach n s s
  next : {t u : System} → Reach n s t → Step n t u → Reach n s u

abbrev pub init : System
init = record {
  main = opening;
  opened = 0;
  workers = λ _. absent;
  msgc = [];
  errc = [];
  handed = [];
  received = λ _. [];
}

-- `getPartitionIDs` comes first: the number of partitions, and the state that the loop starts in.
unfoldable pub start : Result (List Bytes) → Result (ℕ × System)
start (ok ids) = ok (length ids, init)
start (err e) = err e
start panic = panic
