-- ===== src/Eventhub.antt =====
-- eventhub/client.go: the AMQP client of the service side.
pub mod Closing
pub mod Partitions
pub mod Refresh
pub mod Random
use golang_iothub.Base.{
  ℕ, ◌≡◌, refl, List, [], ◌∷◌, Option, none, some, Bool, true, false, Bytes, codes, lookup, ℤ, pos,
  same, same_int, if◌then◌else◌, Result, ok, err, panic, Error,
}
use golang_iothub.Amqp.{
  Value, int32, text, foreign, Item, strings, foreign_item, Reply, Peer, World, Run, lift, and_then,
  ◌>>=◌, ◌>>◌, acquire, close, with_handle, send, receive, random_string,
}

-- `Client`: its connection, its session, and whether `done` is closed.
pub record Client : Type 0 where
  pub conn : ℕ
  pub sess : ℕ
  pub is_done : Bool

-- `if err != nil { h.Close() }`, whose own error is dropped.
unfoldable pub closed_on_error {ℓ} : {A : Type ℓ} → Peer → ℕ → World × Result A → World × Result A
closed_on_error peer h (w, ok a) = (w, ok a)
closed_on_error peer h (w, err e) = ((close peer h w).0, err e)
closed_on_error peer h (w, panic) = (w, panic)

unfoldable pub session_client : ℕ → ℕ → Run Client
session_client conn sess = lift (ok (record { conn = conn; sess = sess; is_done = false }))

unfoldable pub open_session : Peer → ℕ → Run Client
unfolding and_then closed_on_error session_client
open_session peer conn w =
    and_then (closed_on_error peer conn (acquire peer w)) (session_client conn)

unfoldable pub dial : Peer → Run Client
unfolding and_then open_session
dial peer w = and_then (acquire peer w) (open_session peer)

-- The error of a status that is not 200, with its description if that is a string.
unfoldable pub describe : Option Value → Bytes
describe (some (text rd)) = rd
describe (some (int32 n)) = []
describe (some foreign) = []
describe none = []

unfoldable pub check_status : Option Value → Option Value → Result (Unit {0})
unfolding describe
check_status (some (int32 rc)) rd =
    if same_int rc (pos 200) then ok tt else err (Error.bad_status rc (describe rd))
check_status (some (text v)) rd = err Error.no_status
check_status (some foreign) rd = err Error.no_status
check_status none rd = err Error.no_status

unfoldable pub check_message_response : Reply → Result (Unit {0})
unfolding check_status
check_message_response msg =
    check_status (lookup (codes "status-code") msg.application_properties)
      (lookup (codes "status-description") msg.application_properties)

unfoldable pub put_token : Peer → Run (Unit {0})
unfolding ◌>>=◌ ◌>>◌
put_token peer =
    with_handle peer
      λ _. with_handle peer λ _. do send peer; msg ← receive peer; lift (check_message_response msg)

-- `msg.Properties.CorrelationID != mid`: nil properties are the panic.
unfoldable pub check_correlation : Bytes → Option Value → Result (Unit {0})
check_correlation mid (some (text id)) =
    if same id mid then ok tt else err Error.correlation_mismatch
check_correlation mid (some (int32 n)) = err Error.correlation_mismatch
check_correlation mid (some foreign) = err Error.correlation_mismatch
check_correlation mid none = panic

unfoldable pub ids_of : Reply → Result (List Bytes)
ids_of msg = elim msg.value [
  | none ↦ err Error.no_value
  | some val ↦ elim (lookup (codes "partition_ids") val) [
    | some (strings ids) ↦ ok ids
    | some foreign_item ↦ err Error.no_partition_ids
    | none ↦ err Error.no_partition_ids
  ]
]

unfoldable pub partition_ids : Peer → Run (List Bytes)
unfolding ◌>>=◌ ◌>>◌
partition_ids peer = do
  _ ← random_string peer
  with_handle peer λ _. with_handle peer λ _. do
    mid ← random_string peer
    send peer
    msg ← receive peer
    lift (check_message_response msg)
    lift (check_correlation mid msg.correlation_id)
    lift (ids_of msg)

-- `Close`, and the client behind it: a session whose close fails keeps the connection open.
unfoldable pub close_client : Peer → Client → World → World × Client × Result (Unit {0})
unfolding ◌>>◌ ◌>>=◌
close_client peer c w =
    if c.is_done
    then (w, c, ok tt)
    else (let r = (close peer c.sess >> close peer c.conn) w in
        (r.0, record c { is_done = true }, r.1))
