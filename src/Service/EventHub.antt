-- ===== src/Service/EventHub.antt =====
-- iotservice/client.go: `connectToEventHub`, the connection that `SubscribeEvents` reads from.
pub mod Leaks
mod Tests
use golang_iothub.Base.{
  ℕ, zero, suc, ◌+◌, ◌-◌, List, [], ◌∷◌, ◌++◌, Option, none, some, Bytes, codes, length, slice,
  Result, ok, err, panic, Error, if◌then◌else◌, ltb, take,
}
use golang_iothub.Std.Strings.{index}
use golang_iothub.Common.Credentials.{Credentials}
use golang_iothub.Amqp.{
  Detach, message, failed, redirected, Peer, World, Run, lift, and_then, ◌>>=◌, ◌>>◌, acquire,
  close, deferred, with_handle, first_read,
}

-- `user[:len(user)-18]`.
unfoldable pub trimmed_user : Credentials → Result Bytes
trimmed_user creds =
    let user = creds.shared_access_key_name ++ (codes "@sas.root." ++ creds.host_name) in
    if ltb (length user) 18 then panic else ok (take (length user - 18) user)

-- `strings.Index(group, ":5671/")+6`, where -1 makes 5.
unfoldable pub group_start : Option ℕ → ℕ
group_start none = 5
group_start (some i) = i + 6

-- `group[strings.Index(group, ":5671/")+6 : len(group)-1]`.
unfoldable pub group_of : Bytes → Result Bytes
unfolding group_start
group_of [] = panic
group_of (c ∷ s) =
    let address : Bytes = c ∷ s in
    slice (group_start (index address (codes ":5671/"))) (length address - 1) address

-- What the first connection has led to: no error where one is expected, an error that is no
-- redirect, a second connection with its consumer group, or a second `Dial` that failed.
pub data Switch : Type 0 where
  unexpected : Switch
  refused : Error → Switch
  switched : ℕ → Bytes → Switch
  redial_failed : Error → Switch

-- `conn, err = amqp.Dial(addr, …)`.
unfoldable pub redialled : Bytes → World × Result ℕ → World × Result Switch
redialled group (w, ok conn) = (w, ok (switched conn group))
redialled group (w, err e) = (w, ok (redial_failed e))
redialled group (w, panic) = (w, panic)

unfoldable pub redial : Peer → Result Bytes → Run Switch
unfolding redialled
redial peer (ok group) w = redialled group (acquire peer w)
redial peer (err e) w = (w, err e)
redial peer panic w = (w, panic)

-- An entry that is no string makes its type assertion panic.
unfoldable pub redirect : Peer → Detach → Run Switch
unfolding redial
redirect peer message w = (w, ok unexpected)
redirect peer (failed e) w = (w, ok (refused e))
redirect peer (redirected none host) w = (w, panic)
redirect peer (redirected (some address) none) w = (w, panic)
redirect peer (redirected (some address) (some host)) w = redial peer (group_of address) w

-- The session and the receiver, whose closes are deferred.
unfoldable pub switch_over : Peer → Run Switch
switch_over peer =
    with_handle peer λ _. with_handle peer λ _. first_read peer >>= λ d. redirect peer d

-- The return, and then the deferred close of `conn` if `err` is not nil: `err` is nil where no
-- redirect came, and `conn` is nil where the second `Dial` failed.
unfoldable pub settle : Peer → ℕ → World × Result Switch → World × Result (ℕ × Bytes)
settle peer first (w, ok unexpected) = (w, err Error.redirect_expected)
settle peer first (w, ok (refused e)) = ((close peer first w).0, err e)
settle peer first (w, ok (switched conn group)) = (w, ok (conn, group))
settle peer first (w, ok (redial_failed e)) = (w, panic)
settle peer first (w, err e) = ((close peer first w).0, err e)
settle peer first (w, panic) = ((close peer first w).0, panic)

unfoldable pub over_connection : Peer → ℕ → Run (ℕ × Bytes)
unfolding settle switch_over
over_connection peer first w = settle peer first (switch_over peer w)

-- `sas` is what `c.creds.SAS` returns.
unfoldable pub connect_to_event_hub : Peer → Credentials → Result Bytes → Run (ℕ × Bytes)
unfolding ◌>>=◌ over_connection
connect_to_event_hub peer creds sas = do
  user ← lift (trimmed_user creds)
  pass ← lift sas
  first ← acquire peer
  over_connection peer first

-- `SubscribeEvents`; `subscribe` is `eventhub.SubscribePartitions` over the session and the group.
unfoldable pub subscribe_events :
    (ℕ → Bytes → Run (Unit {0})) → Peer → Credentials → Result Bytes → Run (Unit {0})
unfolding ◌>>=◌
subscribe_events subscribe peer creds sas = do
  r ← connect_to_event_hub peer creds sas
  deferred r.0 (with_handle peer λ sess. subscribe sess r.1)
