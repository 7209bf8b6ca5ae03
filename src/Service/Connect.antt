-- ===== src/Service/Connect.antt =====
-- iotservice/client.go: `Connect`, and what it leaves open.
use golang_iothub.Base.{
  ℕ, suc, ◌<◌, ◌≡◌, refl, ap, sym, subst, ◌∙◌, ◌⊎◌, inl, inr, List, ◌∷◌, Option, none, some, false,
  not, ◌==◌, arith, All, Bytes, keep_if, Result, ok, err, panic, Error, Option-cases,
}
use golang_iothub.Amqp.{Peer, World, Run, tick, lift, and_then, ◌>>=◌, ◌>>◌, close, release}
use golang_iothub.Amqp.Balance.{
  Below, Balanced, All-mono, keep_if-fresh, opened, acquire_opened, acquire_refused, lift-Balanced,
  >>=-Balanced,
}
use golang_iothub.Eventhub.{
  Client, closed_on_error, session_client, open_session, dial, put_token, close_client,
}
use golang_iothub.Eventhub.Closing.{put_token-Balanced}

-- `defer func() { if err != nil { eh.Close() } }()`.
unfoldable pub closed_client_on_error {ℓ} :
    {A : Type ℓ} → Peer → Client → World × Result A → World × Result A
closed_client_on_error peer eh (w, ok a) = (w, ok a)
closed_client_on_error peer eh (w, err e) = ((close_client peer eh w).0, err e)
closed_client_on_error peer eh (w, panic) = (w, panic)

-- Behind `Dial`; `sas` is what `c.creds.SAS` returns.
unfoldable pub authorize : Peer → Result Bytes → Client → Run Client
unfolding ◌>>=◌ ◌>>◌
authorize peer sas eh = do _ ← lift sas; put_token peer; lift (ok eh)

unfoldable pub authorized : Peer → Result Bytes → Client → Run Client
unfolding closed_client_on_error authorize
authorized peer sas eh w = closed_client_on_error peer eh (authorize peer sas eh w)

-- The client's connection behind the call, which the client stores.
unfoldable pub connect : Peer → Result Bytes → Option Client → Run Client
unfolding and_then authorized
connect peer sas (some eh) w = (w, ok eh)
connect peer sas none w = and_then (dial peer w) (authorized peer sas)

authorize-Balanced :
    (peer : Peer) (sas : Result Bytes) (eh : Client) → Balanced (authorize peer sas eh)
unfolding authorize ◌>>◌
authorize-Balanced peer sas eh =
    >>=-Balanced _ _ (lift-Balanced _)
      λ _. >>=-Balanced _ _ (put_token-Balanced peer) λ _. lift-Balanced _

-- Closing the last thing opened.
pub release-opened :
    (h : ℕ) (js : List ℕ) → All (λ j. j < h) js → keep_if (λ j. not (j == h)) (h ∷ js) ≡ js
unfolding keep_if
release-opened h js below = ground (arith, keep_if-fresh h js below)

abbrev pub dialled : World → Client
dialled w = record { conn = w.calls; sess = suc w.calls; is_done = false }

close-release : (peer : Peer) (h : ℕ) (w : World) → (close peer h w).0 ≡ release h w
unfolding close
close-release peer h w = elim (Option-cases (peer.closes w.calls)) [
  | inl f ↦ rw (close, f) refl
  | inr (e, f) ↦ rw (close, f) refl
]

session-cases :
    (peer : Peer) (w : World)
    → Below w
    → ((x : World) × (e : Error) × (open_session peer w.calls (opened w) ≡ (x, err e))
        × (x.is_open ≡ w.is_open))
      ⊎ (open_session peer w.calls (opened w) ≡ (opened (opened w), ok (dialled w)))
unfolding open_session and_then closed_on_error session_client lift
session-cases peer w b = elim (Option-cases (peer.opens (suc w.calls))) [
  | inr (e, f) ↦
      let x : World = (close peer w.calls (tick (opened w))).0 in
      inl (
        x,
        e,
        ap (λ r. and_then (closed_on_error peer w.calls r) (session_client w.calls))
            (acquire_refused peer (opened w) f),
        ap (λ y. y.is_open) (close-release peer w.calls (tick (opened w)))
            ∙ release-opened w.calls w.is_open b,
      )
  | inl f ↦ inr (
      ap (λ r. and_then (closed_on_error peer w.calls r) (session_client w.calls))
        (acquire_opened peer (opened w) f))
]

dial-cases :
    (peer : Peer) (w : World)
    → Below w
    → ((x : World) × (e : Error) × (dial peer w ≡ (x, err e)) × (x.is_open ≡ w.is_open))
      ⊎ (dial peer w ≡ (opened (opened w), ok (dialled w)))
unfolding dial and_then
dial-cases peer w b = elim (Option-cases (peer.opens w.calls)) [
  | inr (e, f) ↦
      inl (tick w, e, ap (λ r. and_then r (open_session peer)) (acquire_refused peer w f), refl)
  | inl f ↦
      let step : dial peer w ≡ open_session peer w.calls (opened w) =
        ap (λ r. and_then r (open_session peer)) (acquire_opened peer w f) in
      elim (session-cases peer w b) [
        | inl (x, e, g, same) ↦ inl (x, e, step ∙ g, same)
        | inr g ↦ inr (step ∙ g)
      ]
]

close-ok :
    (peer : Peer) (h : ℕ) (w : World)
    → peer.closes w.calls ≡ none
    → close peer h w ≡ (release h w, ok tt)
unfolding close
close-ok peer h w f = rw (close, f) refl

-- The connection and the session that `Dial` opens, before what was open.
abbrev pub both : World → List ℕ
both w = suc w.calls ∷ w.calls ∷ w.is_open

pub closed_both :
    (peer : Peer) (w x : World)
    → Below w
    → ((k : ℕ) → peer.closes k ≡ none)
    → x.is_open ≡ both w
    → (close_client peer (dialled w) x).0.is_open ≡ w.is_open
unfolding close_client ◌>>◌ ◌>>=◌ and_then
closed_both peer w x b closes h =
    let first : close peer (suc w.calls) x ≡ (release (suc w.calls) x, ok tt) =
      close-ok peer (suc w.calls) x (closes x.calls) in
    let b' : All (λ j. j < suc w.calls) (w.calls ∷ w.is_open) =
      (omega arith, All-mono w.calls (suc w.calls) w.is_open (omega arith) b) in
    ap (λ r. (and_then r (λ _. close peer w.calls)).0.is_open) first
    ∙ ap (λ y. y.is_open) (close-release peer w.calls (release (suc w.calls) x))
    ∙ ap (λ js. keep_if (λ j. not (j == w.calls)) (keep_if (λ j. not (j == suc w.calls)) js)) h
    ∙ ap (keep_if (λ j. not (j == w.calls))) (release-opened (suc w.calls) (w.calls ∷ w.is_open) b')
    ∙ release-opened w.calls w.is_open b

-- What is open once `Connect` has ended with `r`.
abbrev Ends : World → World × Result Client → Type 0
Ends w r =
    ((e : Error) → r.1 ≡ err e → r.0.is_open ≡ w.is_open)
    × ((eh : Client) → r.1 ≡ ok eh → (eh ≡ dialled w) × (r.0.is_open ≡ both w))

closed-Ends :
    (peer : Peer) (w : World) (r : World × Result Client)
    → Below w
    → ((k : ℕ) → peer.closes k ≡ none)
    → r.0.is_open ≡ both w
    → ((eh : Client) → r.1 ≡ ok eh → eh ≡ dialled w)
    → Ends w (closed_client_on_error peer (dialled w) r)
unfolding closed_client_on_error
closed-Ends peer w (x, ok eh) b closes h same = (λ e g. cc, λ eh' g. (same eh' g, h))
closed-Ends peer w (x, err y) b closes h same = (λ e g. closed_both peer w x b closes h, λ eh g. cc)
closed-Ends peer w (x, panic) b closes h same = (λ e g. cc, λ eh g. cc)

-- What follows a step returns its own client, or there is none.
then_lift :
    {A : Type 0} (r : World × Result A) (eh eh' : Client)
    → (and_then r (λ _. lift (ok eh))).1 ≡ ok eh'
    → eh' ≡ eh
unfolding and_then lift
then_lift (x, ok a) eh eh' h = cc h
then_lift (x, err e) eh eh' h = cc h
then_lift (x, panic) eh eh' h = cc h

authorize-eq-ok :
    (peer : Peer) (sas : Result Bytes) (eh eh' : Client) (x : World)
    → (authorize peer sas eh x).1 ≡ ok eh'
    → eh' ≡ eh
unfolding authorize ◌>>=◌ ◌>>◌ and_then lift
authorize-eq-ok peer (ok s) eh eh' x h = then_lift (put_token peer x) eh eh' h
authorize-eq-ok peer (err e) eh eh' x h = cc h
authorize-eq-ok peer panic eh eh' x h = cc h

-- A client that is not connected: if no close fails, `Connect` leaves nothing of its own open where
-- it returns an error, whatever fails, and exactly the new connection and its session where it
-- succeeds, held by the client that it returns.
pub connect_releases :
    (peer : Peer) (sas : Result Bytes) (w : World)
    → Below w
    → ((k : ℕ) → peer.closes k ≡ none)
    → let r = connect peer sas none w in
      ((e : Error) → r.1 ≡ err e → r.0.is_open ≡ w.is_open)
      × ((eh : Client) → r.1 ≡ ok eh → (eh ≡ dialled w) × (r.0.is_open ≡ both w))
unfolding connect and_then authorized
connect_releases peer sas w b closes = elim (dial-cases peer w b) [
  | inl (x, e, f, same) ↦
      subst (Ends w) (sym (ap (λ r. and_then r (authorized peer sas)) f)) (λ y g. same, λ eh g. cc)
  | inr f ↦
      let b' : Below (opened (opened w)) = (
        omega arith,
        (omega arith, All-mono w.calls (suc (suc w.calls)) w.is_open (omega arith) b),
      ) in
      let (same, _) = (authorize-Balanced peer sas (dialled w)).keeps (opened (opened w)) b' in
      subst (Ends w) (sym (ap (λ r. and_then r (authorized peer sas)) f)) (
        closed-Ends peer w (authorize peer sas (dialled w) (opened (opened w))) b closes same
          (λ eh. authorize-eq-ok peer sas (dialled w) eh (opened (opened w))))
]
