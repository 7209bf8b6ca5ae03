-- ===== src/Mqtt/Requests/Routing.antt =====
-- With fewer than 2^32 requests, a response finds the request that it answers.
use mathlib.Core.List.{Mem}
use golang_iothub.Base.{
  ℕ, ◌^◌, ◌≤◌, ◌<◌, ◌≡◌, refl, sym, subst, ◌∷◌, none, some, pos, arith, Error, inl, inr, update, ok,
  err, panic, ap,
}
use golang_iothub.Mqtt.Requests.{
  Resp, Arrival, enabled, waiting, leaving, refused, System, move, resp_of, deliver, check_code,
  Step, enable_again, enable_first, enable_fails, take_number, register, send_succeeds, send_fails,
  receive, time_out, cancel, delete, arrive, Reach, here, next, init, number,
}
use golang_iothub.Mqtt.Requests.Delivery.{deliver-cases}
use golang_iothub.Mqtt.Requests.Own.{Reach-Inv}
use golang_iothub.Mqtt.Requests.Fresh.{
  open_number, Fresh, init-Fresh, moved, taken, stored, deleted, buffers_free,
}

-- What a response that arrives leaves alone.
delivered_kept :
    (m : Arrival) (s s' : System)
    → deliver m s ≡ ok s'
    → (s'.rid ≡ s.rid) × (s'.issued ≡ s.issued) × (s'.pcs ≡ s.pcs) × (s'.table ≡ s.table)
delivered_kept m s s' d = elim (deliver-cases m s) [
  | inl e ↦ let same : s ≡ s' = cc (e, d) in rw (← same) (refl, refl, refl, refl)
  | inr (inl (r, c, f, _, e)) ↦
      let changed : System = record s {
        buffer = update s.buffer c (some (resp_of m));
        delivered = (r, resp_of m) ∷ s.delivered;
      } in
      let same : changed ≡ s' = cc (e, d) in rw (← same) (refl, refl, refl, refl)
  | inr (inr (r, c, x, _, f, g, e)) ↦ cc (e, d)
]

issued_mono : {s s' : System} → Step s s' → s.issued ≤ s'.issued
issued_mono (enable_again t a b e) = rw e (omega arith)
issued_mono (enable_first t a b e) = rw e (omega arith)
issued_mono (enable_fails t x a b e) = rw e (omega arith)
issued_mono (take_number t a e) = rw e (omega arith)
issued_mono (register t r a e) = rw e (omega arith)
issued_mono (send_succeeds t r a e) = rw e (omega arith)
issued_mono (send_fails t r x a e) = rw e (omega arith)
issued_mono (receive t r x a b e) = rw e (omega arith)
issued_mono (time_out t r a e) = rw e (omega arith)
issued_mono (cancel t r a e) = rw e (omega arith)
issued_mono (delete t r o a e) = rw e (omega arith)
issued_mono {s} {s'} (arrive m d) =
    let (_, same, _, _) = delivered_kept m s s' d in omega (arith, same)

Step-Fresh : {s s' : System} → Step s s' → s'.issued < 2 ^ 32 → Fresh s → Fresh s'
Step-Fresh {s} (enable_again t a b e) small v =
    subst Fresh (sym e)
      (moved s t v enabled (λ q h. cc (ap number a, h)) (λ q h. cc (ap open_number a, h)))
Step-Fresh {s} (enable_first t a b e) small v = subst Fresh (sym e) (
    buffers_free (move s t enabled) _ refl refl refl refl
      (moved s t v enabled (λ q h. cc (ap number a, h)) (λ q h. cc (ap open_number a, h))))
Step-Fresh {s} (enable_fails t x a b e) small v =
    subst Fresh (sym e)
      (moved s t v (refused x) (λ q h. cc (ap number a, h)) (λ q h. cc (ap open_number a, h)))
Step-Fresh {s} (take_number t a e) small v =
    subst Fresh (sym e) (taken s t v (omega (arith, ap (λ x. x.issued) e)) (ap number a))
Step-Fresh {s} (register t r a e) small v = subst Fresh (sym e) (stored s t v r (ap number a))
Step-Fresh {s} (send_succeeds t r a e) small v =
    subst Fresh (sym e)
      (moved s t v (waiting r) (λ q h. cc (ap number a, h)) (λ q h. cc (ap open_number a, h)))
Step-Fresh {s} (send_fails t r x a e) small v =
    subst Fresh (sym e) (
      moved s t v (leaving r (err x)) (λ q h. cc (ap number a, h))
        (λ q h. cc (ap open_number a, h)))
Step-Fresh {s} (receive t r x a b e) small v = subst Fresh (sym e) (
    buffers_free (move s t (leaving r (check_code x))) _ refl refl refl refl (
      moved s t v (leaving r (check_code x)) (λ q h. cc (ap number a, h))
        (λ q h. cc (ap open_number a, h))))
Step-Fresh {s} (time_out t r a e) small v = subst Fresh (sym e) (
    moved s t v (leaving r (err Error.request_timed_out)) (λ q h. cc (ap number a, h))
      (λ q h. cc (ap open_number a, h)))
Step-Fresh {s} (cancel t r a e) small v = subst Fresh (sym e) (
    moved s t v (leaving r (err Error.context_done)) (λ q h. cc (ap number a, h))
      (λ q h. cc (ap open_number a, h)))
Step-Fresh {s} (delete t r o a e) small v = subst Fresh (sym e) (deleted s t v r o (ap number a))
Step-Fresh {s} {s'} (arrive m d) small v =
    let (rid, issued, pcs, table) = delivered_kept m s s' d in
    buffers_free s s' rid issued pcs table v

pub Reach-Fresh : {s : System} → Reach init s → s.issued < 2 ^ 32 → Fresh s
Reach-Fresh here small = init-Fresh
Reach-Fresh (next r st) small = Step-Fresh st small (Reach-Fresh r (omega (arith, issued_mono st)))

-- While fewer than 2^32 requests were made, no two of them have the same number, and a response
-- that comes under the number of a request that waits goes into that request's channel alone, if
-- the channel is empty; if it is full, the handler panics.
pub deliver-waiting :
    {s : System} (t r : ℕ) (m : Arrival)
    → Reach init s
    → s.issued < 2 ^ 32
    → s.pcs t ≡ waiting r
    → m.rid ≡ pos r
    → ((u : ℕ) → number (s.pcs u) ≡ some r → t ≡ u)
      × (s.buffer t ≡ none
          → deliver m s
            ≡ ok (record s {
              buffer = update s.buffer t (some (resp_of m));
              delivered = (r, resp_of m) ∷ s.delivered;
            }))
      × ((x : Resp) → s.buffer t ≡ some x → deliver m s ≡ panic)
unfolding deliver
deliver-waiting {s} t r m reach small a e =
    let v = Reach-Fresh reach small in
    let entry : s.table r ≡ some t = v.listed t r (ap open_number a) in
    (
      λ u h. v.unique t u r (ap number a) h,
      λ h. rw (e, deliver, entry, h),
      λ x h. rw (e, deliver, entry, h),
    )

-- The handler panics on a response only if an earlier one, of the same number, still stands in the
-- channel of a request of that number.
deliver-panic :
    {s : System} (m : Arrival)
    → Reach init s
    → deliver m s ≡ panic
    → (t r : ℕ) × (x : Resp) × (m.rid ≡ pos r)
      × (number (s.pcs t) ≡ some r)
      × (s.buffer t ≡ some x)
      × Mem (r, x) s.delivered
deliver-panic {s} m reach p = elim (deliver-cases m s) [
  | inl e ↦ cc (e, p)
  | inr (inl (r, c, f, _, e)) ↦ cc (e, p)
  | inr (inr (r, c, x, e, f, g, _)) ↦
      let v = Reach-Inv reach in
      let own = v.routes r c f in
      let (q, own', held) = v.buffered c x g in
      let same : q ≡ r = cc (own, own') in
      (c, r, x, e, own, g, subst (λ n. Mem (n, x) s.delivered) same held)
]
