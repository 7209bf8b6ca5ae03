-- ===== src/Device/Transport.antt =====
-- iotdevice/transport/transport.go: the Transport interface. A transport is a state and the
-- operations on it; the muxes that it is given and the context are left out.
use golang_iothub.Base.{◌≡◌, ◌≢◌, Option, Bool, true, false, Bytes, ℤ, Result, ok, err, Error}
use golang_iothub.Common.Message.{Message}

pub record Transport (S C : Type 0) : Type 0 where
  pub connect : C → S → S × Result (Unit {0})
  pub is_network_error : Option Error → Bool
  pub send : Message → S → S × Result (Unit {0})
  pub register_direct_methods : S → S × Result (Unit {0})
  pub subscribe_events : S → S × Result (Unit {0})
  pub subscribe_twin_updates : S → S × Result (Unit {0})
  pub retrieve_twin_properties : S → S × Result Bytes
  pub update_twin_properties : Bytes → S → S × Result ℤ
  pub close : S → S × Result (Unit {0})

-- What a client may count on, of a transport that says whether it is connected: it connects once,
-- stays as it is where that fails, sends nothing before, and is closed once.
pub record IsTransport (S C : Type 0) (tp : Transport S C) (is_connected : S → Bool) : Type 0 where
  pub connect_again :
      (c : C) (s : S)
      → is_connected s ≡ true
      → ((tp.connect c s).1 ≡ err Error.already_connected)
        × (is_connected (tp.connect c s).0 ≡ true)
  pub connect_ok :
      (c : C) (s : S) → (tp.connect c s).1 ≡ ok tt → is_connected (tp.connect c s).0 ≡ true
  pub connect_failed :
      (c : C) (s : S)
      → is_connected s ≡ false
      → (tp.connect c s).1 ≢ ok tt
      → is_connected (tp.connect c s).0 ≡ false
  pub send_unconnected :
      (m : Message) (s : S)
      → is_connected s ≡ false
      → ((tp.send m s).0 ≡ s) × ((tp.send m s).1 ≢ ok tt)
  pub send_keeps : (m : Message) (s : S) → is_connected (tp.send m s).0 ≡ is_connected s
  pub close_twice : (s : S) → tp.close (tp.close s).0 ≡ ((tp.close s).0, ok tt)
