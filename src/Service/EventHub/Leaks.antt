-- ===== src/Service/EventHub/Leaks.antt =====
-- The connections that `connectToEventHub` leaves open.
use golang_iothub.Base.{
  ℕ, suc, ◌≤◌, ◌≡◌, ◌≢◌, refl, ap, sym, subst, ◌∙◌, ◌⊎◌, inl, inr, ◌∷◌, none, some, arith, Bytes,
  keep_if, Result, ok, err, panic, Error, Option-cases,
}
use golang_iothub.Common.Credentials.{Credentials}
use golang_iothub.Amqp.{
  Detach, message, failed, redirected, Peer, World, Run, tick, lift, and_then, ◌>>=◌, acquire,
  close, release, with_handle, first_read,
}
use golang_iothub.Amqp.Balance.{
  Below, All-mono, keep_if-fresh, opened, acquire_opened, acquire_refused, with_handle_opened,
  with_handle_refused,
}
use golang_iothub.Service.EventHub.{
  trimmed_user, group_of, Switch, unexpected, refused, switched, redial_failed, redialled, redial,
  redirect, switch_over, settle, over_connection, connect_to_event_hub,
}

-- What has been opened on the way to a result: the second connection, if it stands there.
abbrev After : Result Switch → World → World → Type 0
After (ok (switched c g)) w w' = (w'.is_open ≡ c ∷ w.is_open) × (w.calls ≤ c)
After (ok unexpected) w w' = w'.is_open ≡ w.is_open
After (ok (refused e)) w w' = w'.is_open ≡ w.is_open
After (ok (redial_failed e)) w w' = w'.is_open ≡ w.is_open
After (err e) w w' = w'.is_open ≡ w.is_open
After panic w w' = w'.is_open ≡ w.is_open

redialled-After :
    (peer : Peer) (g : Bytes) (w : World) → let r = redialled g (acquire peer w) in After r.1 w r.0
unfolding redialled acquire
redialled-After peer g w = elim (Option-cases (peer.opens w.calls)) [
  | inl h ↦
      subst (λ r. After (redialled g r).1 w (redialled g r).0) (sym (acquire_opened peer w h))
        (refl, omega arith)
  | inr (e, h) ↦
      subst (λ r. After (redialled g r).1 w (redialled g r).0) (sym (acquire_refused peer w h)) refl
]

redial-After :
    (peer : Peer) (g : Result Bytes) (w : World) → let r = redial peer g w in After r.1 w r.0
unfolding redial
redial-After peer (ok g) w = redialled-After peer g w
redial-After peer (err e) w = refl
redial-After peer panic w = refl

redirect-After :
    (peer : Peer) (d : Detach) (w : World) → let r = redirect peer d w in After r.1 w r.0
unfolding redirect
redirect-After peer message w = refl
redirect-After peer (failed e) w = refl
redirect-After peer (redirected none host) w = refl
redirect-After peer (redirected (some a) none) w = refl
redirect-After peer (redirected (some a) (some h)) w = redial-After peer (group_of a) w

-- Closing what was opened before the second connection.
release-After :
    (r : Result Switch) (w x : World)
    → Below w
    → After r (opened w) x
    → After r w (release w.calls x)
unfolding keep_if
release-After (ok (switched c g)) w x b (h, l) =
    (rw h (ground (arith, keep_if-fresh w.calls w.is_open b)), omega arith)
release-After (ok unexpected) w x b h = rw h (ground (arith, keep_if-fresh w.calls w.is_open b))
release-After (ok (refused e)) w x b h = rw h (ground (arith, keep_if-fresh w.calls w.is_open b))
release-After (ok (redial_failed e)) w x b h =
    rw h (ground (arith, keep_if-fresh w.calls w.is_open b))
release-After (err e) w x b h = rw h (ground (arith, keep_if-fresh w.calls w.is_open b))
release-After panic w x b h = rw h (ground (arith, keep_if-fresh w.calls w.is_open b))

tick-After : (r : Result Switch) (w x : World) → After r (tick w) x → After r w x
tick-After (ok (switched c g)) w x (h, l) = (h, omega arith)
tick-After (ok unexpected) w x h = h
tick-After (ok (refused e)) w x h = h
tick-After (ok (redial_failed e)) w x h = h
tick-After (err e) w x h = h
tick-After panic w x h = h

-- What holds of a run that may open the second connection.
abbrev Moves : Run Switch → Type 0
Moves m = (w : World) → Below w → After (m w).1 w (m w).0

with_handle-Moves :
    (peer : Peer) (body : ℕ → Run Switch)
    → ((h : ℕ) → Moves (body h))
    → Moves (with_handle peer body)
with_handle-Moves peer body hb w b = elim (Option-cases (peer.opens w.calls)) [
  | inr (e, f) ↦ subst (λ r. After r.1 w r.0) (sym (with_handle_refused peer body w f)) refl
  | inl f ↦
      let b' : Below (opened w) =
        (omega arith, All-mono w.calls (suc w.calls) w.is_open (omega arith) b) in
      let r = body w.calls (opened w) in
      subst (λ r. After r.1 w r.0) (sym (with_handle_opened peer body w f))
        (release-After r.1 w r.0 b (hb w.calls (opened w) b'))
]

read-Moves : (peer : Peer) → Moves (first_read peer >>= λ d. redirect peer d)
unfolding first_read ◌>>=◌ and_then
read-Moves peer w b =
    let r = redirect peer (peer.detaches w.calls) (tick w) in
    tick-After r.1 w r.0 (redirect-After peer (peer.detaches w.calls) (tick w))

switch_over-Moves : (peer : Peer) → Moves (switch_over peer)
unfolding switch_over
switch_over-Moves peer = with_handle-Moves peer _ λ _. with_handle-Moves peer _ λ _. read-Moves peer

-- What `connectToEventHub` that ends with `r` leaves open.
abbrev Leaves : World → World × Result (ℕ × Bytes) → Type 0
Leaves w r =
    ((c : ℕ) (g : Bytes)
      → r.1 ≡ ok (c, g)
      → (c ≢ w.calls) × (r.0.is_open ≡ c ∷ w.calls ∷ w.is_open))
    × ((e : Error)
        → r.1 ≡ err e
        → (r.0.is_open ≡ w.is_open)
          ⊎ ((e ≡ Error.redirect_expected) × (r.0.is_open ≡ w.calls ∷ w.is_open)))

close-release : (peer : Peer) (h : ℕ) (w : World) → (close peer h w).0 ≡ release h w
unfolding close
close-release peer h w = elim (Option-cases (peer.closes w.calls)) [
  | inl f ↦ rw (close, f) refl
  | inr (e, f) ↦ rw (close, f) refl
]

closed_first :
    (peer : Peer) (w x : World)
    → Below w
    → x.is_open ≡ w.calls ∷ w.is_open
    → (close peer w.calls x).0.is_open ≡ w.is_open
unfolding keep_if
closed_first peer w x b h =
    ap (λ y. y.is_open) (close-release peer w.calls x)
    ∙ rw h (ground (arith, keep_if-fresh w.calls w.is_open b))

settle-Leaves :
    (peer : Peer) (w x : World) (r : Result Switch)
    → Below w
    → After r (opened w) x
    → Leaves w (settle peer w.calls (x, r))
unfolding settle
settle-Leaves peer w x (ok unexpected) b h = (λ c g e. cc, λ e f. inr (cc f, h))
settle-Leaves peer w x (ok (refused y)) b h = (λ c g e. cc, λ e f. inl (closed_first peer w x b h))
settle-Leaves peer w x (ok (switched d k)) b h = (
  λ c g e.
      let same : d ≡ c = cc e in
      rw (← same) (λ at_first. absurd (omega (arith, at_first, h.1)), h.0),
  λ e f. cc,
)
settle-Leaves peer w x (ok (redial_failed y)) b h = (λ c g e. cc, λ e f. cc)
settle-Leaves peer w x (err y) b h = (λ c g e. cc, λ e f. inl (closed_first peer w x b h))
settle-Leaves peer w x panic b h = (λ c g e. cc, λ e f. cc)

dialled-Leaves :
    (peer : Peer) (w : World)
    → Below w
    → Leaves w (and_then (acquire peer w) (over_connection peer))
unfolding and_then over_connection
dialled-Leaves peer w b = elim (Option-cases (peer.opens w.calls)) [
  | inr (e, f) ↦
      subst (λ r. Leaves w (and_then r (over_connection peer))) (sym (acquire_refused peer w f))
        (λ c g h. cc, λ x h. inl refl)
  | inl f ↦
      let b' : Below (opened w) =
        (omega arith, All-mono w.calls (suc w.calls) w.is_open (omega arith) b) in
      let r = switch_over peer (opened w) in
      subst (λ r. Leaves w (and_then r (over_connection peer))) (sym (acquire_opened peer w f))
        (settle-Leaves peer w r.0 r.1 b (switch_over-Moves peer (opened w) b'))
]

-- Whether the user and the password are made or not.
guarded-Leaves :
    (peer : Peer) (user pass : Result Bytes) (w : World)
    → Below w
    → Leaves w
        ((lift user >>= λ _. lift pass >>= λ _. acquire peer >>= λ h. over_connection peer h) w)
unfolding lift ◌>>=◌ and_then
guarded-Leaves peer (err x) pass w b = (λ c g h. cc, λ e h. inl refl)
guarded-Leaves peer panic pass w b = (λ c g h. cc, λ e h. cc)
guarded-Leaves peer (ok u) (err x) w b = (λ c g h. cc, λ e h. inl refl)
guarded-Leaves peer (ok u) panic w b = (λ c g h. cc, λ e h. cc)
guarded-Leaves peer (ok u) (ok p) w b = dialled-Leaves peer w b

-- Where `connectToEventHub` succeeds, two connections stay open, the one that it returns and the first, which nothing refers
-- to. Where it fails, nothing stays open, except the first connection if no redirect came.
pub connect_to_event_hub_leaks :
    (peer : Peer) (creds : Credentials) (sas : Result Bytes) (w : World)
    → Below w
    → let r = connect_to_event_hub peer creds sas w in
      ((c : ℕ) (g : Bytes)
        → r.1 ≡ ok (c, g)
        → (c ≢ w.calls) × (r.0.is_open ≡ c ∷ w.calls ∷ w.is_open))
      × ((e : Error)
          → r.1 ≡ err e
          → (r.0.is_open ≡ w.is_open)
            ⊎ ((e ≡ Error.redirect_expected) × (r.0.is_open ≡ w.calls ∷ w.is_open)))
unfolding connect_to_event_hub
connect_to_event_hub_leaks peer creds sas w b = guarded-Leaves peer (trimmed_user creds) sas w b
