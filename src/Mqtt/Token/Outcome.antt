-- ===== src/Mqtt/Token/Outcome.antt =====
-- What `contextToken` returns, and that its goroutine ends.
use golang_iothub.Base.{◌≡◌, ◌⊎◌, inl, inr, refl, Option, none, some, true, Error, context_done}
use golang_iothub.Mqtt.Token.{
  Waiter, polling, checking, closing, ended, Caller, woken, returned, Wait, Step, completes,
  cancels, sees, times_out, gives_up, goes_on, closes, wakes, reads, is_cut, Reach, here, next,
  init,
}

abbrev pub Completed : Wait → Type 0
Completed s = (r : Option Error) × (s.token ≡ some r)

-- What the caller may return: what the token has completed with, or the error of the context.
abbrev pub Justified : Wait → Option Error → Type 0
Justified s r = (s.token ≡ some r) ⊎ ((r ≡ some context_done) × (s.is_cancelled ≡ true))

pub record Inv (s : Wait) : Type 0 where
  pub closing_lem : s.waiter ≡ closing → Completed s
  pub done_lem : s.is_done ≡ true → Completed s
  pub ended_lem : s.waiter ≡ ended → (s.is_done ≡ true) ⊎ (s.is_cancelled ≡ true)
  pub woken_lem : s.caller ≡ woken → Completed s
  pub returned_lem : (r : Option Error) → s.caller ≡ returned r → Justified s r

-- The goroutine moves.
pub Inv-waiter :
    {s : Wait} (w : Waiter)
    → (w ≡ closing → Completed s)
    → (w ≡ ended → (s.is_done ≡ true) ⊎ (s.is_cancelled ≡ true))
    → Inv s
    → Inv (record s { waiter = w })
Inv-waiter w c d v = record {
  closing_lem = c;
  done_lem = v.done_lem;
  ended_lem = d;
  woken_lem = v.woken_lem;
  returned_lem = v.returned_lem;
}

-- The caller moves.
Inv-caller :
    {s : Wait} (c : Caller)
    → (c ≡ woken → Completed s)
    → ((r : Option Error) → c ≡ returned r → Justified s r)
    → Inv s
    → Inv (record s { caller = c })
Inv-caller c w d v = record {
  closing_lem = v.closing_lem;
  done_lem = v.done_lem;
  ended_lem = v.ended_lem;
  woken_lem = w;
  returned_lem = d;
}

Inv-completes :
    {s : Wait} (r : Option Error) → s.token ≡ none → Inv s → Inv (record s { token = some r })
Inv-completes r h v = record {
  closing_lem = λ _. (r, refl);
  done_lem = λ _. (r, refl);
  ended_lem = v.ended_lem;
  woken_lem = λ _. (r, refl);
  returned_lem = λ q e. elim (v.returned_lem q e) [ inl t ↦ cc (h, t) | inr c ↦ inr c ];
}

Inv-cancels : {s : Wait} → Inv s → Inv (record s { is_cancelled = true })
Inv-cancels v = record {
  closing_lem = v.closing_lem;
  done_lem = v.done_lem;
  ended_lem = λ _. inr refl;
  woken_lem = v.woken_lem;
  returned_lem = λ q e. elim (v.returned_lem q e) [ inl t ↦ inl t | inr c ↦ inr (c.0, refl) ];
}

pub Inv-closes :
    {s : Wait} → s.waiter ≡ closing → Inv s → Inv (record s { waiter = ended; is_done = true })
Inv-closes h v = record {
  closing_lem = λ e. v.closing_lem h;
  done_lem = λ _. v.closing_lem h;
  ended_lem = λ _. inl refl;
  woken_lem = v.woken_lem;
  returned_lem = v.returned_lem;
}

Step-Inv : {s s' : Wait} → Step s s' → Inv s → Inv s'
Step-Inv (completes r h e) v = rw e (Inv-completes r h v)
Step-Inv (cancels e) v = rw e (Inv-cancels v)
Step-Inv (sees r w t e) v = rw e (Inv-waiter closing (λ _. (r, t)) (λ x. cc) v)
Step-Inv (times_out w e) v = rw e (Inv-waiter checking (λ x. cc) (λ x. cc) v)
Step-Inv (gives_up w c e) v = rw e (Inv-waiter ended (λ x. cc) (λ _. inr c) v)
Step-Inv (goes_on w c e) v = rw e (Inv-waiter polling (λ x. cc) (λ x. cc) v)
Step-Inv (closes w e) v = rw e (Inv-closes w v)
Step-Inv (wakes c d e) v = rw e (Inv-caller woken (λ _. v.done_lem d) (λ r x. cc) v)
Step-Inv (reads r c t e) v = rw e (Inv-caller (returned r) (λ x. cc) (λ q x. inl (cc (x, t))) v)
Step-Inv (is_cut c d e) v =
    rw e (Inv-caller (returned (some context_done)) (λ x. cc) (λ q x. inr (cc x, d)) v)

pub Reach-Inv : {s s' : Wait} → Reach s s' → Inv s → Inv s'
Reach-Inv here v = v
Reach-Inv (next r t) v = Step-Inv t (Reach-Inv r v)

pub init-Inv : Inv init
init-Inv = record {
  closing_lem = λ x. cc;
  done_lem = λ x. cc;
  ended_lem = λ x. cc;
  woken_lem = λ x. cc;
  returned_lem = λ r x. cc;
}
