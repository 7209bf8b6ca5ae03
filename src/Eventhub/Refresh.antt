-- ===== src/Eventhub/Refresh.antt =====
-- eventhub/client.go: `PutTokenContinuously`.
use golang_iothub.Base.{List, [], ◌∷◌, Result, ok, err, panic, inl, inr, ◌∙◌, arith, Result-cases}
use golang_iothub.Amqp.{Peer, World, Run, lift, ◌>>=◌}
use golang_iothub.Amqp.Balance.{Below, All-mono, Balanced, lift-Balanced, >>=-Balanced}
use golang_iothub.Eventhub.{put_token}
use golang_iothub.Eventhub.Closing.{put_token-Balanced}

-- What the goroutine's `select` receives, one after the other: an hour has passed, or `stopCh` is
-- closed.
pub data Event : Type 0 where
  hour stop : Event

-- Where the goroutine stands: at its `select`, or returned.
pub data Keeper : Type 0 where
  waiting ended : Keeper

-- Behind a `PutToken` in the goroutine, whose error ends it.
unfoldable pub behind_put : Run Keeper → World × Result (Unit {0}) → World × Result Keeper
behind_put again (w, ok u) = again w
behind_put again (w, err e) = (w, ok ended)
behind_put again (w, panic) = (w, panic)

unfoldable pub keep : Peer → List Event → Run Keeper
unfolding behind_put
keep peer [] w = (w, ok waiting)
keep peer (stop ∷ es) w = (w, ok ended)
keep peer (hour ∷ es) w = behind_put (keep peer es) (put_token peer w)

-- The call, and its goroutine for as long as the events tell.
unfoldable pub put_token_continuously : Peer → List Event → Run Keeper
unfolding ◌>>=◌
put_token_continuously peer es = put_token peer >>= λ _. keep peer es

behind_put-Balanced :
    (put : Run (Unit {0})) (again : Run Keeper)
    → Balanced put
    → Balanced again
    → Balanced (λ w. behind_put again (put w))
unfolding behind_put
behind_put-Balanced put again hp ha = record {
  keeps = λ w b.
      let (same, more) = hp.keeps w b in
      let b' : Below (put w).0 = rw same (All-mono w.calls (put w).0.calls w.is_open more b) in
      elim (Result-cases (put w).1) [
        | inl (a, e) ↦
            let (same', more') = ha.keeps (put w).0 b' in
            rw (behind_put, e) (same' ∙ same, omega (arith, more, more'))
        | inr (inl (x, e)) ↦ rw (behind_put, e) (same, more)
        | inr (inr e) ↦ rw (behind_put, e) (same, more)
      ];
}

keep-Balanced : (peer : Peer) (es : List Event) → Balanced (keep peer es)
unfolding keep lift
keep-Balanced peer [] = lift-Balanced (ok waiting)
keep-Balanced peer (stop ∷ es) = lift-Balanced (ok ended)
keep-Balanced peer (hour ∷ es) =
    behind_put-Balanced (put_token peer) (keep peer es) (put_token-Balanced peer)
      (keep-Balanced peer es)

-- However many hours pass, and whatever the broker answers, `PutTokenContinuously` and its
-- goroutine leave open what was open before them, and no more.
put_token_continuously-Balanced :
    (peer : Peer) (es : List Event) → Balanced (put_token_continuously peer es)
unfolding put_token_continuously
put_token_continuously-Balanced peer es =
    >>=-Balanced (put_token peer) (λ _. keep peer es) (put_token-Balanced peer)
      (λ _. keep-Balanced peer es)
