-- ===== src/Device/Background/Safety.antt =====
-- What the goroutines that connect one client keep, and where they panic.
use golang_iothub.Base.{
  ℕ, suc, ◌≤◌, ◌<◌, ◌≡◌, refl, sym, subst, Option, none, some, Bool, true, false, arith,
  if◌then◌else◌, Bool-cases, Option-cases, inl, inr, update, Error,
}
use golang_iothub.Device.Background.{
  Pc, idle, spawned, connected, finished, connecting, System, move, close_channel, store, Step,
  start_background, start_foreground, begin, retry, settle, connect_panics, close_conn_ch, Reach,
  here, next, init, Returns, direct, established, canceled, client_closed,
}

-- A goroutine that has still to close the channel.
abbrev pub is_pending : Pc → Bool
is_pending idle = false
is_pending spawned = true
is_pending connected = true
is_pending finished = false
is_pending (connecting b) = b

pub record Inv (s : System) : Type 0 where
  pub unused : s.starts ≡ 0 → (g : ℕ) → is_pending (s.pcs g) ≡ false
  pub unique :
      s.starts ≤ 1 → (g h : ℕ) → is_pending (s.pcs g) ≡ true → is_pending (s.pcs h) ≡ true → g ≡ h
  pub opened : s.conn_ch ≡ none → s.starts ≡ 0
  pub still_open :
      s.starts ≤ 1
      → (g ch : ℕ) → is_pending (s.pcs g) ≡ true
      → s.conn_ch ≡ some ch
      → s.is_closed ch ≡ false
  pub fresh : (ch : ℕ) → s.next_ch ≤ ch → s.is_closed ch ≡ false
  pub numbered : (ch : ℕ) → s.conn_ch ≡ some ch → ch < s.next_ch
  pub safe : s.starts ≤ 1 → s.crashed ≡ false
  pub honest : s.conn_err ≡ none → s.succeeded ≡ true

init-Inv : Inv init
init-Inv = record {
  unused = λ _ g. refl;
  unique = λ _ g h e. cc;
  opened = λ _. refl;
  still_open = λ _ g ch e. cc;
  fresh = λ ch _. refl;
  numbered = λ ch e. cc;
  safe = λ _. refl;
  honest = λ e. cc;
}

-- A move of a goroutine that does not make it pending, with the stored error as it may be.
quiet :
    (s : System) (g : ℕ) (pc : Pc) (w : Option ℕ) (r : Option Error) (b : Bool)
    → Inv s
    → (is_pending pc ≡ true → is_pending (s.pcs g) ≡ true)
    → (r ≡ none → b ≡ true)
    → Inv (record (move s g pc) { writer = w; conn_err = r; succeeded = b })
quiet s g pc w r b v p q = record {
  unused = λ z u. ground (arith, v.unused z u, v.unused z g);
  unique =
      λ l u h a c. ground (arith, v.unique l u h, v.unique l g h, v.unique l u g, v.unique l g g);
  opened = v.opened;
  still_open = λ l u ch a e. ground (arith, v.still_open l u ch, v.still_open l g ch);
  fresh = v.fresh;
  numbered = v.numbered;
  safe = v.safe;
  honest = q;
}

stored_honest : (s : System) (r : Option Error) → r ≡ none → (store r s).succeeded ≡ true
stored_honest s r e = ground arith

started :
    (s : System) (g : ℕ)
    → Inv s
    → Inv (record (move s g spawned) {
      conn_ch = some s.next_ch;
      next_ch = suc s.next_ch;
      starts = suc s.starts;
    })
started s g v = record {
  unused = λ z. absurd (omega arith);
  unique = λ l u h a b. ground (arith, v.unused (omega arith) u, v.unused (omega arith) h);
  opened = λ e. cc;
  still_open = λ l u ch a e. ground (arith, v.fresh ch);
  fresh = λ ch l. v.fresh ch (omega arith);
  numbered = λ ch e. ground arith;
  safe = λ l. v.safe (omega arith);
  honest = v.honest;
}

closed_channel :
    (s : System) (g ch : ℕ)
    → Inv s
    → is_pending (s.pcs g) ≡ true
    → s.conn_ch ≡ some ch
    → Inv (close_channel (some ch) (move s g finished))
closed_channel s g ch v p e =
    let after = move s g finished in
    let crash = record after { crashed = true } in
    let shut = record after { is_closed = update s.is_closed ch true } in
    let q : Inv after = quiet s g finished s.writer s.conn_err s.succeeded v (λ h. cc) v.honest in
    elim (Bool-cases (s.is_closed ch)) [
      | inl twice ↦
          subst (λ b. Inv (if b then crash else shut)) (sym twice)
            (record {
              unused = q.unused;
              unique = q.unique;
              opened = q.opened;
              still_open = q.still_open;
              fresh = q.fresh;
              numbered = q.numbered;
              safe = λ l. cc (v.still_open l g ch p e, twice);
              honest = q.honest;
            })
      | inr once ↦
          subst (λ b. Inv (if b then crash else shut)) (sym once)
            (record {
              unused = q.unused;
              unique = q.unique;
              opened = q.opened;
              still_open = λ l u c a h. ground (arith, v.unique l u g);
              fresh = λ c l. ground (arith, v.fresh c l, v.numbered ch e);
              numbered = q.numbered;
              safe = q.safe;
              honest = q.honest;
            })
    ]

close_pending :
    (s : System) (g : ℕ)
    → Inv s
    → is_pending (s.pcs g) ≡ true
    → Inv (close_channel s.conn_ch (move s g finished))
close_pending s g v p = elim (Option-cases s.conn_ch) [
  | inl e ↦ absurd (ground (arith, v.unused (v.opened e) g))
  | inr (ch, e) ↦
      subst (λ c. Inv (close_channel c (move s g finished))) (sym e) (closed_channel s g ch v p e)
]

-- Every step keeps the invariant.
pub Step-Inv : {s s' : System} → Step s s' → Inv s → Inv s'
Step-Inv {s} (start_background g a b e) v = subst Inv (sym e) (started s g v)
Step-Inv {s} (start_foreground g a b e) v =
    subst Inv (sym e)
      (quiet s g (connecting false) (some g) s.conn_err s.succeeded v (λ h. cc) v.honest)
Step-Inv {s} (begin g a b e) v =
    subst Inv (sym e)
      (quiet s g (connecting true) (some g) s.conn_err s.succeeded v (λ _. rw a refl) v.honest)
Step-Inv {s} (retry g b r a e) v = subst Inv (sym e) (record {
  unused = v.unused;
  unique = v.unique;
  opened = v.opened;
  still_open = v.still_open;
  fresh = v.fresh;
  numbered = v.numbered;
  safe = v.safe;
  honest = stored_honest s r;
})
Step-Inv {s} (settle g b r a e) v = subst Inv (sym e) (
    quiet s g (if b then connected else finished) none r (store r s).succeeded v
      (λ h. rw a (ground arith)) (stored_honest s r))
Step-Inv {s} (connect_panics g a e) v =
    subst Inv (sym e) (quiet s g finished none s.conn_err s.succeeded v (λ h. cc) v.honest)
Step-Inv {s} (close_conn_ch g a b e) v = subst Inv (sym e) (close_pending s g v (rw a refl))

Reach-Inv : {s : System} → Reach init s → Inv s
Reach-Inv here = init-Inv
Reach-Inv (next r st) = Step-Inv st (Reach-Inv r)

-- As long as `ConnectInBackground` is called at most once, beside any number of `Connect` calls and
-- however they interleave, no close of the client's channel panics.
pub single_background_safe : {s : System} → Reach init s → s.starts ≤ 1 → s.crashed ≡ false
single_background_safe r l = (Reach-Inv r).safe l

nil_returned :
    {s : System} {ctx_err : Option Error} {w : Option ℕ} {r : Option Error}
    → Returns s ctx_err w r
    → r ≡ none
    → s.conn_err ≡ none
nil_returned (direct a b) e = cc
nil_returned (established ch a b c) e = cc
nil_returned (canceled ch x a b c) e = cc
nil_returned (client_closed ch a b c) e = cc

-- `ConnectionError` returns a nil error only in a state behind some attempt at which the transport
-- did connect: so methods that need the connection go on only then.
pub Returns-succeeded :
    {s : System} {ctx_err : Option Error} {w : Option ℕ}
    → Reach init s
    → Returns s ctx_err w none
    → s.succeeded ≡ true
Returns-succeeded r x = (Reach-Inv r).honest (nil_returned x refl)
