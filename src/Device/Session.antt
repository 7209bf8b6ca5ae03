-- ===== src/Device/Session.antt =====
-- iotdevice/client.go: a client over a transport, whose state its calls pass on: `Connect` in the
-- foreground and `SendEvent`, each run alone.
pub mod Connecting
pub mod Attempts
use golang_iothub.Base.{
  ℕ, zero, suc, List, [], ◌∷◌, Option, none, some, Bool, true, false, Bytes, if◌then◌else◌, Result,
  ok, err, panic, Error,
}
use golang_iothub.Common.Message.{Message}
use golang_iothub.Device.Connect.{ConnOption, apply_conn_options, is_retried}
use golang_iothub.Device.Send.{SendOption}
use golang_iothub.Device.Send
use golang_iothub.Device.Transport.{Transport}

-- The fields of Client that these calls use; `conn_ch` is nil.
pub record Session (S C : Type 0) : Type 0 where
  pub creds : C
  pub tr : S
  pub conn_err : Option Error

abbrev pub error_of : Result (Unit {0}) → Option Error
error_of (ok u) = none
error_of (err e) = some e
error_of panic = none

-- The options of `Connect`, over a `connection` that is zero.
abbrev pub ignores : List ConnOption → Bool
ignores opts = (apply_conn_options opts (record { ignore_net_errors = false })).ignore_net_errors

module _ {S C : Type 0} (tp : Transport S C) where
  -- The loop on fuel: the transport behind it, and what its last `Connect` returned.
  unfoldable pub connect_loop : ℕ → Bool → C → S → Option (S × Result (Unit {0}))
  unfolding is_retried
  connect_loop zero ignore creds s = none
  connect_loop (suc fuel) ignore creds s =
      let made = tp.connect creds s in
      let again = connect_loop fuel ignore creds made.0 in
      if is_retried (λ e. tp.is_network_error (some e)) ignore (error_of made.1)
      then again
      else some made

  -- `c.connErr` behind the loop; a panic leaves it.
  unfoldable pub stored : Session S C → S × Result (Unit {0}) → Session S C × Result (Unit {0})
  stored c (s, ok u) = (record c { tr = s; conn_err = none }, ok u)
  stored c (s, err e) = (record c { tr = s; conn_err = some e }, err e)
  stored c (s, panic) = (record c { tr = s }, panic)

  unfoldable pub connect :
      ℕ → List ConnOption → Session S C → Option (Session S C × Result (Unit {0}))
  unfolding connect_loop stored
  connect fuel opts c = elim (connect_loop fuel (ignores opts) c.creds c.tr) [
    | none ↦ none
    | some made ↦ some (stored c made)
  ]

  -- The transport behind what `SendEvent` hands over.
  unfoldable pub sent : List Message → S → S
  sent [] s = s
  sent (m ∷ ms) s = sent ms (tp.send m s).0

  unfoldable pub send_event :
      Option Bytes → List SendOption → Session S C → Session S C × Result (Unit {0})
  unfolding sent Send.send_event
  send_event payload opts c =
      let (handed, r) = Send.send_event (λ m. (tp.send m c.tr).1) c.conn_err payload opts in
      (record c { tr = sent handed c.tr }, r)
