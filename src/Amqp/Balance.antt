-- ===== src/Amqp/Balance.antt =====
-- Code that closes by `defer` whatever it opens leaves nothing open.
use golang_iothub.Base.{
  ℕ, suc, ◌≤◌, ◌<◌, ◌≡◌, refl, ap, ◌∙◌, List, [], ◌∷◌, none, some, not, ◌==◌, arith, All, keep_if,
  Result, ok, err, Error, Option-cases, Result-cases, inl, inr,
}
use golang_iothub.Amqp.{
  Peer, World, Run, tick, lift, and_then, ◌>>=◌, acquire, release, deferred, with_handle, send,
  receive, random_string,
}

-- What is open was opened by an earlier call.
abbrev pub Below : World → Type 0
Below w = All (λ j. j < w.calls) w.is_open

-- Open after it is what was open before it.
pub record Balanced {ℓ} {A : Type ℓ} (m : Run A) : Type 0 where
  pub keeps : (w : World) → Below w → ((m w).0.is_open ≡ w.is_open) × (w.calls ≤ (m w).0.calls)

pub All-mono : (a b : ℕ) (js : List ℕ) → a ≤ b → All (λ j. j < a) js → All (λ j. j < b) js
All-mono a b [] l h = tt
All-mono a b (j ∷ js) l h = (omega (arith, h.0), All-mono a b js l h.1)

pub keep_if-fresh :
    (h : ℕ) (js : List ℕ) → All (λ j. j < h) js → keep_if (λ j. not (j == h)) js ≡ js
unfolding keep_if
keep_if-fresh h [] below = refl
keep_if-fresh h (j ∷ js) below = ground (arith, below.0, keep_if-fresh h js below.1)

abbrev pub opened : World → World
opened w = record { calls = suc w.calls; is_open = w.calls ∷ w.is_open }

pub acquire_opened :
    (peer : Peer) (w : World) → peer.opens w.calls ≡ none → acquire peer w ≡ (opened w, ok w.calls)
unfolding acquire
acquire_opened peer w h = rw (h, acquire)

pub acquire_refused :
    (peer : Peer) (w : World) {e : Error}
    → peer.opens w.calls ≡ some e
    → acquire peer w ≡ (tick w, err e)
unfolding acquire
acquire_refused peer w h = rw (h, acquire)

module _ {ℓ} {A : Type ℓ} where
  pub lift-Balanced : (r : Result A) → Balanced (lift r)
  unfolding lift
  lift-Balanced r = record { keeps = λ w b. (refl, omega arith) }

  pub >>=-Balanced {κ} :
      {B : Type κ} (m : Run A) (f : A → Run B)
      → Balanced m
      → ((a : A) → Balanced (f a))
      → Balanced (m >>= f)
  unfolding ◌>>=◌ and_then
  >>=-Balanced m f hm hf = record {
    keeps = λ w b.
        let (same, more) = hm.keeps w b in
        let b' : Below (m w).0 = rw same (All-mono w.calls (m w).0.calls w.is_open more b) in
        elim (Result-cases (m w).1) [
          | inl (a, e) ↦
              let (same', more') = (hf a).keeps (m w).0 b' in
              rw (◌>>=◌, and_then, e) (same' ∙ same, omega (arith, more, more'))
          | inr (inl (x, e)) ↦ rw (◌>>=◌, and_then, e) (same, more)
          | inr (inr e) ↦ rw (◌>>=◌, and_then, e) (same, more)
        ];
  }

  pub with_handle_opened :
      (peer : Peer) (body : ℕ → Run A) (w : World)
      → peer.opens w.calls ≡ none
      → let r = body w.calls (opened w) in with_handle peer body w ≡ (release w.calls r.0, r.1)
  unfolding with_handle ◌>>=◌ and_then deferred
  with_handle_opened peer body w h =
      ap (λ r. and_then r (λ id. deferred id (body id))) (acquire_opened peer w h)

  pub with_handle_refused :
      (peer : Peer) (body : ℕ → Run A) (w : World) {e : Error}
      → peer.opens w.calls ≡ some e
      → with_handle peer body w ≡ (tick w, err e)
  unfolding with_handle ◌>>=◌ and_then
  with_handle_refused peer body w h =
      ap (λ r. and_then r (λ id. deferred id (body id))) (acquire_refused peer w h)

  pub with_handle-Balanced :
      (peer : Peer) (body : ℕ → Run A)
      → ((h : ℕ) → Balanced (body h))
      → Balanced (with_handle peer body)
  unfolding keep_if
  with_handle-Balanced peer body hb = record {
    keeps = λ w b. elim (Option-cases (peer.opens w.calls)) [
      | inr (e, h) ↦ rw (with_handle_refused peer body w h) (refl, omega arith)
      | inl h ↦
          let b' : Below (opened w) =
            (omega arith, All-mono w.calls (suc w.calls) w.is_open (omega arith) b) in
          let (same, more) = (hb w.calls).keeps (opened w) b' in
          rw (with_handle_opened peer body w h)
            (rw same (ground (arith, keep_if-fresh w.calls w.is_open b)), omega (arith, more))
    ];
  }

pub send-Balanced : (peer : Peer) → Balanced (send peer)
unfolding send
send-Balanced peer = record {
  keeps = λ w b. elim (Option-cases (peer.sends w.calls)) [
    | inl h ↦ rw (h, send) (refl, omega arith)
    | inr (e, h) ↦ rw (h, send) (refl, omega arith)
  ];
}

pub receive-Balanced : (peer : Peer) → Balanced (receive peer)
unfolding receive
receive-Balanced peer = record { keeps = λ w b. (refl, omega arith) }

pub random_string-Balanced : (peer : Peer) → Balanced (random_string peer)
unfolding random_string
random_string-Balanced peer = record { keeps = λ w b. (refl, omega arith) }
