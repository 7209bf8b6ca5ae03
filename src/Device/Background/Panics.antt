-- ===== src/Device/Background/Panics.antt =====
-- Where the goroutines of two `ConnectInBackground` calls meet.
use golang_iothub.Base.{
  ℕ, ◌≡◌, ◌≢◌, refl, ap, ◌∙◌, sym, subst, Option, none, some, true, arith, Bool-cases, inl, inr,
}
use golang_iothub.Device.Background.{
  Pc, connected, finished, System, move, close_channel, Step, close_conn_ch,
}

-- Closing a channel leaves the goroutines, the mutex and the client's channel alone.
close_channel_keeps :
    (o : Option ℕ) (s : System)
    → ((close_channel o s).pcs ≡ s.pcs)
      × ((close_channel o s).writer ≡ s.writer)
      × ((close_channel o s).conn_ch ≡ s.conn_ch)
close_channel_keeps none s = (refl, refl, refl)
close_channel_keeps (some ch) s = elim (Bool-cases (s.is_closed ch)) [
  | inl e ↦ (rw e, rw e, rw e)
  | inr e ↦ (rw e, rw e, rw e)
]

-- The same channel closed twice, whatever moves in between.
close_twice :
    (o : Option ℕ) (s : System) (h : ℕ) (pc : Pc)
    → (close_channel o (move (close_channel o s) h pc)).crashed ≡ true
close_twice none s h pc = refl
close_twice (some ch) s h pc = ground arith

-- Two background connections of one client: when both goroutines have left `Connect`, each can go
-- on to close the channel, and behind both the program has panicked, since both close the channel
-- that the client holds by then.
pub double_background_panics :
    (s : System) (g h : ℕ)
    → g ≢ h
    → s.pcs g ≡ connected
    → s.pcs h ≡ connected
    → s.writer ≡ none
    → (t : System) × (u : System) × Step s t × Step t u × (u.crashed ≡ true)
double_background_panics s g h ne a b w =
    let o = s.conn_ch in
    let t = close_channel o (move s g finished) in
    let (pcs, writer, conn_ch) = close_channel_keeps o (move s g finished) in
    let still : t.pcs h ≡ connected = ap (λ f. f h) pcs ∙ ground arith in
    (
      t,
      close_channel t.conn_ch (move t h finished),
      close_conn_ch g a w refl,
      close_conn_ch h still (writer ∙ w) refl,
      subst (λ c. (close_channel c (move t h finished)).crashed ≡ true) (sym conn_ch)
          (close_twice o (move s g finished) h finished),
    )
