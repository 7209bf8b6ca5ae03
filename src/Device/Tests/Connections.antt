-- ===== src/Device/Tests/Connections.antt =====
-- Connecting and closing at concrete inputs.
use golang_iothub.Base.{
  ◌≡◌, ◌==◌, if◌then◌else◌, refl, none, some, true, false, arith, codes, ok, Error, [], Bytes,
}
use golang_iothub.Device.Connect.{Attempts}
use golang_iothub.Device.Background.{
  System, Step, Reach, here, next, init, move, spawned, connecting, connected, finished,
  start_background, begin, settle, close_conn_ch, established,
}
use golang_iothub.Device.Background.Safety.{single_background_safe, Returns-succeeded}
use golang_iothub.Device.Background.Panics.{double_background_panics}
use golang_iothub.Device.Options.{Config, ClientOption, custom_creds, start}

abbrev refused : Attempts
refused = record { outcome = λ k. some (Error.other []); is_network_error = λ e. false }

-- Goroutine 0 connects in the background and closes the channel.
abbrev s_spawned : System
s_spawned = record (move init 0 spawned) { conn_ch = some 0; next_ch = 1; starts = 1 }

abbrev s_connecting : System
s_connecting = record (move s_spawned 0 (connecting true)) { writer = some 0 }

abbrev s_connected : System
s_connected = record (move s_connecting 0 connected) {
  writer = none;
  conn_err = none;
  succeeded = true;
}

abbrev s_finished : System
s_finished = record (move s_connected 0 finished) {
  is_closed = λ q. if 0 == q then true else false;
}

reached : Reach init s_finished
reached =
    next
      (next (next (next here (start_background 0 refl refl refl)) (begin 0 refl refl refl))
        (settle 0 true none refl refl))
      (close_conn_ch 0 refl refl refl)

single_background_safe_example : s_finished.crashed ≡ false
single_background_safe_example = single_background_safe reached (omega arith)

Returns-succeeded_example : s_finished.succeeded ≡ true
Returns-succeeded_example =
    Returns-succeeded {ctx_err = none} {w = some 0} reached (established 0 refl refl refl)

-- Two goroutines behind their `Connect`.
abbrev both_connected : System
both_connected = record s_connected { pcs = λ g. connected; next_ch = 2; starts = 2 }

double_background_panics_example :
    (t : System) × (u : System) × Step both_connected t × Step t u × (u.crashed ≡ true)
double_background_panics_example =
    double_background_panics both_connected 0 1 (λ e. absurd (omega arith)) refl refl refl

abbrev text : Bytes
text = codes "HostName=h;DeviceId=d;SharedAccessKey=k"

abbrev with_tr : Config
with_tr = record (start false) { tr = some 7 }

abbrev with_custom : ClientOption
with_custom c = ok (record c { creds = some (custom_creds 1) })

abbrev complete : Config
complete = record with_tr { creds = some (custom_creds 1) }
