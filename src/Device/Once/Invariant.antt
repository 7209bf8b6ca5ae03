-- ===== src/Device/Once/Invariant.antt =====
-- What holds between any two steps of `once`.
use golang_iothub.Base.{
  ℕ, suc, ◌≤◌, ◌≡◌, refl, ap, sym, subst, Option, none, some, Bool, true, false, ◌==◌, arith,
  Bool-cases, update, inl, inr,
}
use golang_iothub.Device.Once.{
  Pc, start, waiting, locked, calling, storing, leaving, returned, System, move, Step, quick_on,
  quick_off, lock, check_on, check_off, fn_fails, fn_succeeds, store, unlock, Reach, here, next,
  init,
}

-- The mutex is held exactly between `Lock` and the deferred `Unlock`.
abbrev pub is_inside : Pc → Bool
is_inside start = false
is_inside waiting = false
is_inside locked = true
is_inside calling = true
is_inside storing = true
is_inside (leaving r) = true
is_inside (returned r) = false

-- What a goroutine at a place knows of the flag and of the successes.
abbrev pub Knows : Pc → Bool → ℕ → Type 0
Knows calling on n = (on ≡ false) × (n ≡ 0)
Knows storing on n = (on ≡ false) × (n ≡ 1)
Knows locked on n = (on ≡ false → n ≡ 0)
Knows (leaving r) on n = (on ≡ false → n ≡ 0) × (r ≡ true → on ≡ true)
Knows (returned r) on n = (r ≡ true → on ≡ true)
Knows start on n = Unit
Knows waiting on n = Unit

pub record Inv (s : System) : Type 0 where
  pub inside : (t : ℕ) → is_inside (s.pcs t) ≡ true → s.holder ≡ some t
  pub knows : (t : ℕ) → Knows (s.pcs t) s.on s.successes
  pub free : s.holder ≡ none → s.on ≡ false → s.successes ≡ 0
  pub counted : s.on ≡ true → s.successes ≡ 1
  pub capped : s.successes ≤ 1

init-Inv : Inv init
init-Inv = record {
  inside = λ t h. cc;
  knows = λ t. tt;
  free = λ _ _. refl;
  counted = λ h. cc;
  capped = omega arith;
}

-- A goroutine outside the mutex keeps what it knows: the flag is never reset.
outside_mono :
    (pc : Pc) (on on' : Bool) (n n' : ℕ)
    → is_inside pc ≡ false
    → (on ≡ true → on' ≡ true)
    → Knows pc on n
    → Knows pc on' n'
outside_mono start on on' n n' h m k = tt
outside_mono waiting on on' n n' h m k = tt
outside_mono locked on on' n n' h m k = cc
outside_mono calling on on' n n' h m k = cc
outside_mono storing on on' n n' h m k = cc
outside_mono (leaving r) on on' n n' h m k = cc
outside_mono (returned r) on on' n n' h m k = λ e. m (k e)

-- One goroutine moves; the others keep what they know, if none of them is inside or if the shared
-- state stays as it was.
module _ (s : System) (t : ℕ) (v : Inv s) where
  moved_alone :
      (pc : Pc)
      → (is_inside pc ≡ true → is_inside (s.pcs t) ≡ true)
      → Knows pc s.on s.successes
      → Inv (move s t pc)
  moved_alone pc inside knows = record {
    inside = λ u h. ground (arith, v.inside u, v.inside t);
    knows = λ u. elim (Bool-cases (t == u)) [ inl e ↦ rw e knows | inr e ↦ rw e (v.knows u) ];
    free = v.free;
    counted = v.counted;
    capped = v.capped;
  }

  -- Inside the mutex a goroutine is alone.
  moved_inside :
      (pc : Pc) (on : Bool) (holder : Option ℕ) (n : ℕ)
      → ((u : ℕ) → (t == u) ≡ false → is_inside (s.pcs u) ≡ false)
      → (is_inside pc ≡ true → holder ≡ some t)
      → (s.on ≡ true → on ≡ true)
      → Knows pc on n
      → (holder ≡ none → on ≡ false → n ≡ 0)
      → (on ≡ true → n ≡ 1)
      → n ≤ 1
      → Inv (record { on = on; holder = holder; pcs = update s.pcs t pc; successes = n })
  moved_inside pc on holder n alone held mono knows free counted capped = record {
    inside = λ u h. ground (arith, alone u);
    knows = λ u. elim (Bool-cases (t == u)) [
      | inl e ↦ rw e knows
      | inr e ↦ rw e (outside_mono (s.pcs u) s.on on s.successes n (alone u e) mono (v.knows u))
    ];
    free = free;
    counted = counted;
    capped = capped;
  }

  -- Whoever holds the mutex is the only one inside.
  alone : is_inside (s.pcs t) ≡ true → (u : ℕ) → (t == u) ≡ false → is_inside (s.pcs u) ≡ false
  alone h u e = ground (arith, v.inside u, v.inside t)

  alone_at_lock : s.holder ≡ none → (u : ℕ) → (t == u) ≡ false → is_inside (s.pcs u) ≡ false
  alone_at_lock h u e = ground (arith, v.inside u)

-- What a goroutine knows at its place.
known : (s : System) (t : ℕ) {pc : Pc} → Inv s → s.pcs t ≡ pc → Knows pc s.on s.successes
known s t v e = subst (λ p. Knows p s.on s.successes) e (v.knows t)

entered :
    (s : System) (t : ℕ) {pc : Pc} → s.pcs t ≡ pc → is_inside pc ≡ true → is_inside (s.pcs t) ≡ true
entered s t e h = rw e h

-- Every step keeps the invariant.
pub Step-Inv : {s s' : System} → Step s s' → Inv s → Inv s'
Step-Inv {s} (quick_on t a b e) v =
    subst Inv (sym e) (moved_alone s t v (returned true) (λ h. cc) (λ _. b))
Step-Inv {s} (quick_off t a b e) v = subst Inv (sym e) (moved_alone s t v waiting (λ h. cc) tt)
Step-Inv {s} (lock t a b e) v = subst Inv (sym e) (
    moved_inside s t v locked s.on (some t) s.successes (alone_at_lock s t v b) (λ _. refl) (λ h. h)
      (v.free b) (λ h. cc) v.counted v.capped)
Step-Inv {s} (check_on t a b e) v =
    subst Inv (sym e) (moved_alone s t v (leaving true) (λ _. entered s t a refl) (λ h. cc, λ _. b))
Step-Inv {s} (check_off t a b e) v =
    subst Inv (sym e) (moved_alone s t v calling (λ _. entered s t a refl) (b, known s t v a b))
Step-Inv {s} (fn_fails t a e) v =
    subst Inv (sym e) (
      moved_alone s t v (leaving false) (λ _. entered s t a refl) (λ _. (known s t v a).1, λ h. cc))
Step-Inv {s} (fn_succeeds t a e) v =
    let (off, zero) = known s t v a in
    let inside = entered s t a refl in
    subst Inv (sym e) (
      moved_inside s t v storing s.on s.holder (suc s.successes) (alone s t v inside)
        (λ _. v.inside t inside) (λ h. h) (off, ap suc zero) (λ h. cc (v.inside t inside)) (λ h. cc)
        (omega arith))
Step-Inv {s} (store t a e) v =
    let (off, one) = known s t v a in
    let inside = entered s t a refl in
    subst Inv (sym e) (
      moved_inside s t v (leaving true) true s.holder s.successes (alone s t v inside)
        (λ _. v.inside t inside) (λ _. refl) (λ h. cc, λ _. refl) (λ h. cc (v.inside t inside))
        (λ _. one) (omega arith))
Step-Inv {s} (unlock t r a e) v =
    let inside = entered s t a refl in
    subst Inv (sym e) (
      moved_inside s t v (returned r) s.on none s.successes (alone s t v inside) (λ h. cc) (λ h. h)
        (known s t v a).1 (λ _. (known s t v a).0) v.counted v.capped)

Reach-Inv : {s : System} → Reach init s → Inv s
Reach-Inv here = init-Inv
Reach-Inv (next r st) = Step-Inv st (Reach-Inv r)

-- However the goroutines interleave, no two of them are in `fn` at once, `fn` succeeds at most
-- once, and by the time some goroutine has returned with a nil error it has succeeded.
pub once_safe :
    {s : System}
    → Reach init s
    → ((t u : ℕ) → s.pcs t ≡ calling → s.pcs u ≡ calling → t ≡ u)
      × (s.successes ≤ 1)
      × ((t : ℕ) → s.pcs t ≡ returned true → s.successes ≡ 1)
once_safe {s} r =
    let v = Reach-Inv r in
    (
      λ t u a b. cc (v.inside t (entered s t a refl), v.inside u (entered s u b refl)),
      v.capped,
      λ t a. v.counted (known s t v a refl),
    )
