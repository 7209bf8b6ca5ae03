-- ===== src/Service/Feedback/Order.antt =====
-- What `SubscribeFeedback` hands to its handler, and when it returns.
use golang_iothub.Base.{
  ℕ, zero, suc, ◌+◌, ◌<◌, ◌≡◌, refl, sym, subst, List, [], ◌∷◌, ◌++◌, append_assoc, append-nil,
  Option, none, some, Bytes, Result, ok, err, panic, arith,
}
use golang_iothub.Amqp.{Peer, World}
use golang_iothub.Amqp.Balance.{Below, acquire_opened}
use golang_iothub.Eventhub.{Client}
use golang_iothub.Service.Connect.{connect, release-opened}
use golang_iothub.Service.Feedback.{
  Records, Inbox, batch, Served, hand_over, serve, closed_after, with_receiver, with_connection,
  subscribe_feedback,
}

-- The records of the first `n` of a sequence of messages.
unfoldable pub gathered : (ℕ → Records) → ℕ → Records
gathered records zero = []
gathered records (suc n) = records zero ++ gathered (λ k. records (suc k)) n

-- How a round ends the loop.
abbrev pub failure : Result Records → Option (Result (Unit {0}))
failure (ok v) = none
failure (err e) = some (err e)
failure panic = some panic

ended :
    (again : World → Records → Served) (w : World) (started : Records) (r : Result Records)
    {o : Result (Unit {0})}
    → failure r ≡ some o
    → hand_over again w started r ≡ record { world = w; started = started; outcome = some o }
unfolding hand_over
ended again w started (ok v) h = cc h
ended again w started (err e) h = rw (sym h) refl
ended again w started panic h = rw (sym h) refl

-- `n` messages, and then a round that fails.
serve_lem :
    (inbox : Inbox) (records : ℕ → Records) (o : Result (Unit {0})) (n more c : ℕ) (js : List ℕ)
    (started : Records)
    → ((k : ℕ) → k < n → batch inbox (c + k) ≡ ok (records k))
    → failure (batch inbox (c + n)) ≡ some o
    → serve inbox (suc (n + more)) (record { calls = c; is_open = js }) started ≡ record {
      world = record { calls = suc (c + n); is_open = js };
      started = started ++ gathered records n;
      outcome = some o;
    }
unfolding serve gathered
serve_lem inbox records o zero more c js started good bad =
    let here : c + 0 ≡ c = omega arith in
    let bad' : failure (batch inbox c) ≡ some o =
      subst (λ k. failure (batch inbox k) ≡ some o) here bad in
    let fuel : 0 + more ≡ more = omega arith in
    rw (here, fuel, append-nil started)
      (ended (λ w' s. serve inbox more w' s) (record { calls = suc c; is_open = js }) started
        (batch inbox c) bad')
serve_lem inbox records o (suc n) more c js started good bad =
    let here : c + 0 ≡ c = omega arith in
    let first : batch inbox c ≡ ok (records 0) =
      subst (λ k. batch inbox k ≡ ok (records 0)) here (good 0 (omega arith)) in
    let along : c + suc n ≡ suc c + n = omega arith in
    let rest =
      serve_lem inbox (λ k. records (suc k)) o n more (suc c) js (started ++ records 0)
        (λ k l.
          subst (λ j. batch inbox j ≡ ok (records (suc k))) (omega arith)
            (good (suc k) (omega arith)))
        (subst (λ j. failure (batch inbox j) ≡ some o) along bad) in
    let fuel : suc n + more ≡ suc (n + more) = omega arith in
    rw
      (
        along,
        fuel,
        first,
        sym (append_assoc started (records 0) (gathered (λ k. records (suc k)) n)),
      )
      rest

-- Over a connection and a receiver that open: if each of the first `n` messages has records and
-- the round behind them fails, then `SubscribeFeedback` has started its handler with exactly the
-- records of these messages, in order, returns what that round failed with, after `n + 1` rounds,
-- however much fuel is left, and has closed its receiver.
pub subscribe_feedback_outcome :
    (peer : Peer) (inbox : Inbox) (sas : Result Bytes) (conn : Option Client) (w v : World)
    (eh : Client) (records : ℕ → Records) (o : Result (Unit {0})) (n more : ℕ)
    → connect peer sas conn w ≡ (v, ok eh)
    → Below v
    → peer.opens v.calls ≡ none
    → ((k : ℕ) → k < n → batch inbox (suc v.calls + k) ≡ ok (records k))
    → failure (batch inbox (suc v.calls + n)) ≡ some o
    → subscribe_feedback peer inbox sas conn (suc (n + more)) w ≡ record {
      world = record { calls = suc (suc (suc v.calls + n)); is_open = v.is_open };
      started = gathered records n;
      outcome = some o;
    }
unfolding subscribe_feedback with_connection with_receiver closed_after
subscribe_feedback_outcome peer inbox sas conn w v eh records o n more c below opens good bad =
    let made = acquire_opened peer v opens in
    let run = serve_lem inbox records o n more (suc v.calls) (v.calls ∷ v.is_open) [] good bad in
    let shut = release-opened v.calls v.is_open below in rw (c, made, run, shut) refl
