-- ===== src/Mqtt/Requests/Own.antt =====
-- Every response that a request returns came under the number of that request.
use mathlib.Core.List.{Mem, mem-cons_self, mem-cons_of_mem}
use golang_iothub.Base.{
  ℕ, suc, ◌+◌, ◌%◌, ◌^◌, ℤ, ◌≡◌, refl, sym, subst, List, ◌∷◌, Option, none, some, Bool, true, false,
  ◌==◌, ==_iff, pos, negsuc, lt, arith, ◌&&◌, ap, Bool-cases, inl, inr, update, Result, ok, err,
  Error,
}
use golang_iothub.Mqtt.Requests.{
  Resp, Arrival, Phase, idle, enabled, numbered, registered, waiting, leaving, returned, refused,
  System, move, resp_of, deliver, check_code, Step, enable_again, enable_first, enable_fails,
  take_number, register, send_succeeds, send_fails, receive, time_out, cancel, delete, arrive,
  Reach, here, next, init, number,
}
use golang_iothub.Mqtt.Requests.Delivery.{deliver-cases}

-- What a call returns, once that is known.
abbrev pub outcome : Phase → Option (ℕ × Result Resp)
outcome (leaving r o) = some (r, o)
outcome (returned r o) = some (r, o)
outcome idle = none
outcome enabled = none
outcome (numbered r) = none
outcome (registered r) = none
outcome (waiting r) = none
outcome (refused e) = none

-- A response in hand was delivered under the call's number.
abbrev pub Answered : Phase → List (ℕ × Resp) → Type 0
Answered pc d = (r : ℕ) (x : Resp) → outcome pc ≡ some (r, ok x) → Mem (r, x) d

pub record Inv (s : System) : Type 0 where
  pub routes : (r c : ℕ) → s.table r ≡ some c → number (s.pcs c) ≡ some r
  pub buffered :
      (c : ℕ) (x : Resp)
      → s.buffer c ≡ some x
      → (r : ℕ) × (number (s.pcs c) ≡ some r) × Mem (r, x) s.delivered
  pub answered : (c : ℕ) → Answered (s.pcs c) s.delivered

init-Inv : Inv init
init-Inv = record { routes = λ r c h. cc; buffered = λ c x h. cc; answered = λ c r x h. cc }

-- No code is both under 200 and over 299.
in_no_range : (z : ℤ) → (lt z (pos 200) && lt (pos 299) z) ≡ false
unfolding lt
in_no_range (pos n) = ground arith
in_no_range (negsuc n) = refl

-- A response that arrives is taken, whatever its code is.
pub check_code_lem : (x : Resp) → check_code x ≡ ok x
unfolding check_code
check_code_lem x = rw (in_no_range x.code)

no_some : (x : Resp) → ¬ (◌≡◌ {A = Option Resp} none (some x))
no_some x h = cc

module _ (s : System) (t : ℕ) (v : Inv s) where
  -- One call moves and keeps its number, if it has one.
  number_kept :
      (pc : Phase)
      → ((r : ℕ) → number (s.pcs t) ≡ some r → number pc ≡ some r)
      → (c r : ℕ) → number (s.pcs c) ≡ some r
      → number (update s.pcs t pc c) ≡ some r
  number_kept pc keeps c r h = elim (Bool-cases (t == c)) [
    | inl e ↦ rw e (keeps r (subst (λ u. number (s.pcs u) ≡ some r) (sym ((==_iff t c).0 e)) h))
    | inr e ↦ rw e h
  ]

  moved :
      (pc : Phase)
      → ((r : ℕ) → number (s.pcs t) ≡ some r → number pc ≡ some r)
      → Answered pc s.delivered
      → Inv (move s t pc)
  moved pc keeps answered = record {
    routes = λ r c h. number_kept pc keeps c r (v.routes r c h);
    buffered = λ c x h. let (r, n, m) = v.buffered c x h in (r, number_kept pc keeps c r n, m);
    answered =
        λ c. elim (Bool-cases (t == c)) [ inl e ↦ rw e answered | inr e ↦ rw e (v.answered c) ];
  }

  -- The table loses an entry, or gains the call's own.
  tabled :
      (table : ℕ → Option ℕ)
      → ((r c : ℕ) → table r ≡ some c → number (s.pcs c) ≡ some r)
      → Inv (record s { table = table })
  tabled table routes = record { routes = routes; buffered = v.buffered; answered = v.answered }

  -- A call takes what its channel holds.
  emptied : Inv (record s { buffer = update s.buffer t none })
  emptied = record {
    routes = v.routes;
    buffered = λ c x h. elim (Bool-cases (t == c)) [
      | inl e ↦ absurd (no_some x (rw e at h))
      | inr e ↦ v.buffered c x (rw e at h)
    ];
    answered = v.answered;
  }

  delivered_to :
      (r : ℕ) (x : Resp)
      → s.table r ≡ some t
      → Inv (record s { buffer = update s.buffer t (some x); delivered = (r, x) ∷ s.delivered })
  delivered_to r x h = record {
    routes = v.routes;
    buffered = λ c y g. elim (Bool-cases (t == c)) [
      | inl e ↦
          let own : number (s.pcs c) ≡ some r =
            v.routes r c (subst (λ u. s.table r ≡ some u) ((==_iff t c).0 e) h) in
          let same : x ≡ y = cc (rw e at g) in
          (r, own, subst (λ z. Mem (r, z) ((r, x) ∷ s.delivered)) same mem-cons_self)
      | inr e ↦ let (q, n, m) = v.buffered c y (rw e at g) in (q, n, mem-cons_of_mem _ m)
    ];
    answered = λ c q y g. mem-cons_of_mem _ (v.answered c q y g);
  }

deliver-Inv : (m : Arrival) {s s' : System} → deliver m s ≡ ok s' → Inv s → Inv s'
deliver-Inv m {s} {s'} d v = elim (deliver-cases m s) [
  | inl e ↦ subst Inv (cc (e, d)) v
  | inr (inl (r, c, f, _, e)) ↦ subst Inv (cc (e, d)) (delivered_to s c v r (resp_of m) f)
  | inr (inr (r, c, x, _, f, g, e)) ↦ cc (e, d)
]

-- The flag and the counters play no part in it.
counters_free :
    (s : System) (on : Bool) (rid issued : ℕ)
    → Inv s
    → Inv (record s { is_enabled = on; rid = rid; issued = issued })
counters_free s on rid issued v = record {
  routes = v.routes;
  buffered = v.buffered;
  answered = v.answered;
}

no_answer : (r : ℕ) (e : Error) (d : List (ℕ × Resp)) → Answered (leaving r (err e)) d
no_answer r e d q x h = cc

registered_routes :
    (s : System) (t r : ℕ)
    → Inv s
    → number (s.pcs t) ≡ some r
    → (q c : ℕ) → update s.table r (some t) q ≡ some c
    → number (s.pcs c) ≡ some q
registered_routes s t r v own q c h = elim (Bool-cases (r == q)) [
  | inl i ↦
      let taken : t ≡ c = cc (rw i at h) in
      let same : r ≡ q = (==_iff r q).0 i in cc (own, taken, same)
  | inr i ↦ v.routes q c (rw i at h)
]

deleted_routes :
    (s : System) (r : ℕ)
    → Inv s
    → (q c : ℕ) → update s.table r none q ≡ some c
    → number (s.pcs c) ≡ some q
deleted_routes s r v q c h = elim (Bool-cases (r == q)) [
  | inl i ↦ cc (rw i at h)
  | inr i ↦ v.routes q c (rw i at h)
]

received :
    (s : System) (t r : ℕ) (x : Resp)
    → Inv s
    → number (s.pcs t) ≡ some r
    → s.buffer t ≡ some x
    → Answered (leaving r (check_code x)) s.delivered
received s t r x v own b q y h =
    let (r', own', m) = v.buffered t x b in
    let same : x ≡ y = cc (check_code_lem x, h) in
    let at_q : r' ≡ q = cc (own, own', h) in subst (λ z. Mem z s.delivered) (cc (same, at_q)) m

-- Every step keeps the invariant.
pub Step-Inv : {s s' : System} → Step s s' → Inv s → Inv s'
Step-Inv {s} (enable_again t a b e) v =
    subst Inv (sym e) (moved s t v enabled (λ r h. cc (ap number a, h)) (λ r x h. cc))
Step-Inv {s} (enable_first t a b e) v = subst Inv (sym e) (
    counters_free (move s t enabled) true s.rid s.issued
      (moved s t v enabled (λ r h. cc (ap number a, h)) (λ r x h. cc)))
Step-Inv {s} (enable_fails t x a b e) v =
    subst Inv (sym e) (moved s t v (refused x) (λ r h. cc (ap number a, h)) (λ r x h. cc))
Step-Inv {s} (take_number t a e) v = subst Inv (sym e) (
    counters_free (move s t (numbered ((s.rid + 1) % 2 ^ 32))) s.is_enabled ((s.rid + 1) % 2 ^ 32)
      (suc s.issued) (moved s t v (numbered _) (λ r h. cc (ap number a, h)) (λ r x h. cc)))
Step-Inv {s} (register t r a e) v =
    let v' = moved s t v (registered r) (λ r h. cc (ap number a, h)) (λ r x h. cc) in
    subst Inv (sym e) (
      tabled (move s t (registered r)) t v' (update s.table r (some t))
        (registered_routes (move s t (registered r)) t r v' (ground arith)))
Step-Inv {s} (send_succeeds t r a e) v =
    subst Inv (sym e) (moved s t v (waiting r) (λ r h. cc (ap number a, h)) (λ r x h. cc))
Step-Inv {s} (send_fails t r x a e) v =
    subst Inv (sym e)
      (moved s t v (leaving r (err x)) (λ r h. cc (ap number a, h)) (no_answer r x s.delivered))
Step-Inv {s} (receive t r x a b e) v = subst Inv (sym e) (
    emptied (move s t (leaving r (check_code x))) t (
      moved s t v (leaving r (check_code x)) (λ r h. cc (ap number a, h))
        (received s t r x v (ap number a) b)))
Step-Inv {s} (time_out t r a e) v =
    subst Inv (sym e)
      (moved s t v (leaving r (err _)) (λ r h. cc (ap number a, h)) (no_answer r _ s.delivered))
Step-Inv {s} (cancel t r a e) v =
    subst Inv (sym e)
      (moved s t v (leaving r (err _)) (λ r h. cc (ap number a, h)) (no_answer r _ s.delivered))
Step-Inv {s} (delete t r o a e) v =
    let held = subst (λ p. Answered p s.delivered) a (v.answered t) in
    let v' = moved s t v (returned r o) (λ r h. cc (ap number a, h)) held in
    subst Inv (sym e) (
      tabled (move s t (returned r o)) t v' (update s.table r none)
        (deleted_routes (move s t (returned r o)) r v'))
Step-Inv (arrive m d) v = deliver-Inv m d v

pub Reach-Inv : {s : System} → Reach init s → Inv s
Reach-Inv here = init-Inv
Reach-Inv (next r st) = Step-Inv st (Reach-Inv r)

-- However requests and responses interleave, and even if the 32-bit numbers have wrapped, a
-- request that returns a response returns one that the hub sent under the request's own number.
pub returned-delivered :
    {s : System} (t r : ℕ) (x : Resp)
    → Reach init s
    → s.pcs t ≡ returned r (ok x)
    → Mem (r, x) s.delivered
returned-delivered t r x reach e = (Reach-Inv reach).answered t r x (ap outcome e)
