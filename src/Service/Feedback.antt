-- ===== src/Service/Feedback.antt =====
-- iotservice/client.go: `SubscribeFeedback`.
pub mod Order
mod Tests
use golang_iothub.Base.{
  ℕ, zero, suc, List, [], ◌∷◌, ◌++◌, Option, none, some, Bytes, Result, ok, err, panic, Error,
  ◌>>=◌,
}
use golang_iothub.Amqp.{Peer, World, tick, acquire, release}
use golang_iothub.Eventhub.{Client}
use golang_iothub.Service.Connect.{connect}

-- `Feedback`; the time is the number that stands for it.
pub record Feedback : Type 0 where
  pub original_message_id : Bytes
  pub description : Bytes
  pub device_generation_id : Bytes
  pub device_id : Bytes
  pub enqueued_time_utc : ℕ
  pub status_code : Bytes

-- `[]*Feedback`.
abbrev pub Records : Type 0
Records = List (Option Feedback)

-- The k-th call is a `Receive` that ends with the `Data` of a message or an error; `unmarshal` is
-- `json.Unmarshal` into the records.
pub record Inbox : Type 0 where
  pub receives : ℕ → Result (List Bytes)
  pub unmarshal : Bytes → Result Records

-- `msg.Data[0]`.
unfoldable pub first_data : List Bytes → Result Bytes
first_data [] = panic
first_data (b ∷ rest) = ok b

-- What one round of the loop reads.
unfoldable pub batch : Inbox → ℕ → Result Records
batch inbox k = do parts ← inbox.receives k; b ← first_data parts; inbox.unmarshal b

-- A run of the loop: the calls made, the records that `fn` was started with, in order, and what
-- the loop ends with, `none` while it runs.
pub record Served : Type 0 where
  pub world : World
  pub started : Records
  pub outcome : Option (Result (Unit {0}))

-- The rest of a round; `again` are the rounds that follow.
unfoldable pub hand_over : (World → Records → Served) → World → Records → Result Records → Served
hand_over again w started (ok v) = again w (started ++ v)
hand_over again w started (err e) = record { world = w; started = started; outcome = some (err e) }
hand_over again w started panic = record { world = w; started = started; outcome = some panic }

-- As many rounds as the fuel.
unfoldable pub serve : Inbox → ℕ → World → Records → Served
unfolding hand_over
serve inbox zero w started = record { world = w; started = started; outcome = none }
serve inbox (suc fuel) w started =
    hand_over (λ w' s. serve inbox fuel w' s) (tick w) started (batch inbox w.calls)

-- The deferred close of the receiver, once the loop ends.
unfoldable pub closed_after : ℕ → Served → Served
closed_after h s = elim s.outcome [ none ↦ s | some r ↦ record s { world = release h s.world } ]

-- Behind `NewReceiver`.
unfoldable pub with_receiver : Inbox → ℕ → World × Result ℕ → Served
unfolding closed_after serve
with_receiver inbox fuel (w, ok h) = closed_after h (serve inbox fuel w [])
with_receiver inbox fuel (w, err e) = record { world = w; started = []; outcome = some (err e) }
with_receiver inbox fuel (w, panic) = record { world = w; started = []; outcome = some panic }

-- Behind `Connect`.
unfoldable pub with_connection : Peer → Inbox → ℕ → World × Result Client → Served
unfolding with_receiver
with_connection peer inbox fuel (w, ok eh) = with_receiver inbox fuel (acquire peer w)
with_connection peer inbox fuel (w, err e) = record {
  world = w;
  started = [];
  outcome = some (err e);
}
with_connection peer inbox fuel (w, panic) = record {
  world = w;
  started = [];
  outcome = some panic;
}

-- `SubscribeFeedback`, with as many rounds as the fuel.
unfoldable pub subscribe_feedback : Peer → Inbox → Result Bytes → Option Client → ℕ → World → Served
unfolding with_connection
subscribe_feedback peer inbox sas conn fuel w =
    with_connection peer inbox fuel (connect peer sas conn w)
