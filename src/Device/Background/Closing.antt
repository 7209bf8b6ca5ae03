-- ===== src/Device/Background/Closing.antt =====
-- `Close` of the device client.
use golang_iothub.Base.{◌≡◌, refl, ap, true, false, if◌then◌else◌, Result, ok}
use golang_iothub.Device.Background.{System, closing, close}

close_done :
    (tr_close : Result (Unit {0})) (s : System) → s.done ≡ true → close tr_close s ≡ (s, ok tt)
unfolding close
close_done tr_close s e = ap (λ b. if b then (s, ok tt) else (closing s, tr_close)) e

close_open :
    (tr_close : Result (Unit {0})) (s : System)
    → s.done ≡ false
    → close tr_close s ≡ (closing s, tr_close)
unfolding close
close_open tr_close s e = ap (λ b. if b then (s, ok tt) else (closing s, tr_close)) e

-- The first `Close` marks the client as closed, closes the transport once and returns its result;
-- any later one changes nothing and reports success, whatever the transport would return.
close-close :
    (tr_close again : Result (Unit {0})) (s : System)
    → (s.done ≡ false
        → (close tr_close s ≡ (closing s, tr_close))
          × (close again (close tr_close s).0 ≡ (closing s, ok tt)))
      × (s.done ≡ true → close tr_close s ≡ (s, ok tt))
close-close tr_close again s = (
  λ e. (close_open tr_close s e, rw (close_open tr_close s e) (close_done again (closing s) refl)),
  close_done tr_close s,
)
