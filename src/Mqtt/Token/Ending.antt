-- ===== src/Mqtt/Token/Ending.antt =====
-- `contextToken` and its goroutine end.
use golang_iothub.Base.{
  ◌≡◌, ◌⊎◌, inl, inr, refl, ◌∙◌, Option, some, true, false, Error, context_done, Bool-cases,
}
use golang_iothub.Mqtt.Token.Outcome.{Completed, Inv, Inv-closes, Inv-waiter, Reach-Inv, init-Inv}
use golang_iothub.Mqtt.Token.{
  Waiter, polling, checking, closing, ended, Caller, selecting, woken, returned, Wait, Step, sees,
  times_out, gives_up, goes_on, closes, wakes, reads, is_cut, Reach, here, next, init,
}

-- A run to the end of both, in which neither the token nor the context changes.
abbrev Ends : Wait → Type 0
Ends s =
    (s' : Wait) × (r : Option Error) × Reach s s'
    × (s'.waiter ≡ ended)
    × (s'.caller ≡ returned r)
    × (s'.token ≡ s.token)
    × (s'.is_cancelled ≡ s.is_cancelled)

step_first : {s t u : Wait} → Step s t → Reach t u → Reach s u
step_first p here = next here p
step_first p (next r q) = next (step_first p r) q

Step-Ends :
    {s t : Wait} → Step s t → t.token ≡ s.token → t.is_cancelled ≡ s.is_cancelled → Ends t → Ends s
Step-Ends p a b (u, r, run, w, c, a', b') = (u, r, step_first p run, w, c, a' ∙ a, b' ∙ b)

woken-Ends : {s : Wait} → Inv s → s.waiter ≡ ended → s.caller ≡ woken → Ends s
woken-Ends v w c =
    let (r, t) = v.woken_lem c in (_, r, next here (reads r c t refl), w, refl, refl, refl)

selecting-Ends : {s : Wait} → Inv s → s.waiter ≡ ended → s.caller ≡ selecting → Ends s
selecting-Ends {s} v w c = elim (v.ended_lem w) [
  | inl d ↦
      let (r, t) = v.done_lem d in
      (_, r, next (next here (wakes c d refl)) (reads r refl t refl), w, refl, refl, refl)
  | inr d ↦ (_, some context_done, next here (is_cut c d refl), w, refl, refl, refl)
]

-- The goroutine has ended.
caller-Ends : {s : Wait} → Inv s → s.waiter ≡ ended → Ends s
caller-Ends {s} v w = go s.caller refl
  where
    go : (c : Caller) → s.caller ≡ c → Ends s
    go selecting h = selecting-Ends v w h
    go woken h = woken-Ends v w h
    go (returned r) h = (s, r, here, w, h, refl, refl)

closing-Ends : {s : Wait} → Inv s → s.waiter ≡ closing → Ends s
closing-Ends {s} v w = Step-Ends (closes w refl) refl refl (caller-Ends (Inv-closes w v) refl)

sees-Ends : {s : Wait} → Inv s → s.waiter ≡ polling → Completed s → Ends s
sees-Ends {s} v w (r, t) =
    Step-Ends (sees r w t refl) refl refl
      (closing-Ends (Inv-waiter closing (λ _. (r, t)) (λ x. cc) v) refl)

gives_up-Ends : {s : Wait} → Inv s → s.waiter ≡ checking → s.is_cancelled ≡ true → Ends s
gives_up-Ends {s} v w c =
    Step-Ends (gives_up w c refl) refl refl
      (caller-Ends (Inv-waiter ended (λ x. cc) (λ _. inr c) v) refl)

times_out-Ends : {s : Wait} → Inv s → s.waiter ≡ polling → s.is_cancelled ≡ true → Ends s
times_out-Ends {s} v w c =
    Step-Ends (times_out w refl) refl refl
      (gives_up-Ends (Inv-waiter checking (λ x. cc) (λ x. cc) v) refl c)

goes_on-Ends :
    {s : Wait} → Inv s → s.waiter ≡ checking → s.is_cancelled ≡ false → Completed s → Ends s
goes_on-Ends {s} v w c t =
    Step-Ends (goes_on w c refl) refl refl
      (sees-Ends (Inv-waiter polling (λ x. cc) (λ x. cc) v) refl t)

-- In whatever state `contextToken` is: once the token has completed or the context is done, it can
-- return and its goroutine can end, by steps of their own.
pub context_token_ends :
    (s : Wait)
    → Reach init s
    → ((r : Option Error) × (s.token ≡ some r)) ⊎ (s.is_cancelled ≡ true)
    → (s' : Wait) × (r : Option Error) × Reach s s'
      × (s'.waiter ≡ ended)
      × (s'.caller ≡ returned r)
      × (s'.token ≡ s.token)
      × (s'.is_cancelled ≡ s.is_cancelled)
context_token_ends s p live = go s.waiter refl live
  where
    v : Inv s
    v = Reach-Inv p init-Inv

    go : (w : Waiter) → s.waiter ≡ w → Completed s ⊎ (s.is_cancelled ≡ true) → Ends s
    go polling h (inl t) = sees-Ends v h t
    go polling h (inr c) = times_out-Ends v h c
    go checking h (inr c) = gives_up-Ends v h c
    go checking h (inl t) = elim (Bool-cases s.is_cancelled) [
      | inl c ↦ gives_up-Ends v h c
      | inr c ↦ goes_on-Ends v h c t
    ]
    go closing h l = closing-Ends v h
    go ended h l = caller-Ends v h
