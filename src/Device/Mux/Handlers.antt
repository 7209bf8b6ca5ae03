-- ===== src/Device/Mux/Handlers.antt =====
-- The handler lists of messageMux and stateMux: their loop `remove`, which is the same text in
-- both, and `ptreq`.
use golang_iothub.Base.{
  ℕ, zero, suc, ◌≤◌, ◌<◌, ◌≡◌, refl, ap, ◌∙◌, List, [], ◌∷◌, ◌++◌, append_assoc, append-nil, none,
  some, Bool, true, false, not, arith, ◌==◌, if◌then◌else◌, take, drop, get_elem?, length, keep_if,
  Result, ok, panic, Bool-cases, inl, inr,
}

-- A function value: the code that it points to, and the variables that it closes over.
pub record Handler : Type 0 where
  pub code : ℕ
  pub closure : ℕ

-- `reflect.ValueOf(f).Pointer()` is the code pointer alone.
unfoldable pub ptreq : Handler → Handler → Bool
ptreq f g = f.code == g.code

-- `for i := len(s) - 1; i >= 0; i--`, on the number of rounds left: `s[i]` is out of range where
-- the list is shorter, and `append(s[:i], s[i+1:]...)` drops that element.
unfoldable pub remove_from : ℕ → Handler → List Handler → Result (List Handler)
remove_from zero fn s = ok s
remove_from (suc i) fn s = elim (get_elem? s i) [
  | none ↦ panic
  | some h ↦ remove_from i fn (if ptreq h fn then take i s ++ drop (suc i) s else s)
]

-- What a removal leaves: the handlers of other code, in order.
abbrev pub without : Handler → List Handler → List Handler
without fn = keep_if (λ h. not (ptreq h fn))

module _ {ℓ} {A : Type ℓ} where
  pub get_elem?-lt : (s : List A) (i : ℕ) → i < length s → (h : A) × (get_elem? s i ≡ some h)
  get_elem?-lt [] i l = absurd (omega arith)
  get_elem?-lt (x ∷ s) zero l = (x, refl)
  get_elem?-lt (x ∷ s) (suc i) l = get_elem?-lt s i (omega arith)

  -- The list is what stands before a place, the element there, and the rest.
  parts_at :
      (s : List A) (i : ℕ) (h : A)
      → get_elem? s i ≡ some h
      → (take (suc i) s ≡ take i s ++ h ∷ []) × (drop i s ≡ h ∷ drop (suc i) s)
  parts_at [] i h e = cc
  parts_at (x ∷ s) zero h e = ground arith
  parts_at (x ∷ s) (suc i) h e = let (p, q) = parts_at s i h e in (rw p, q)

  take-append :
      (s t : List A) (i : ℕ)
      → i ≤ length s
      → (take i (take i s ++ t) ≡ take i s) × (drop i (take i s ++ t) ≡ t)
  take-append s t zero l = (refl, refl)
  take-append [] t (suc i) l = absurd (omega arith)
  take-append (x ∷ s) t (suc i) l = let (p, q) = take-append s t i (omega arith) in (rw p, q)

  length-shrunk : (s t : List A) (i : ℕ) → i ≤ length s → i ≤ length (take i s ++ t)
  length-shrunk s t zero l = omega arith
  length-shrunk [] t (suc i) l = absurd (omega arith)
  length-shrunk (x ∷ s) t (suc i) l = omega (arith, length-shrunk s t i (omega arith))

  pub keep_if-append :
      (p : A → Bool) (xs ys : List A) → keep_if p (xs ++ ys) ≡ keep_if p xs ++ keep_if p ys
  unfolding keep_if
  keep_if-append p [] ys = refl
  keep_if-append p (x ∷ xs) ys = ground (arith, keep_if-append p xs ys)

  take_all : (s : List A) → take (length s) s ≡ s
  take_all [] = refl
  take_all (x ∷ s) = rw (take_all s)

  drop_all : (s : List A) → drop (length s) s ≡ []
  drop_all [] = refl
  drop_all (x ∷ s) = drop_all s

pub without_hit :
    (fn h : Handler) (xs : List Handler)
    → ptreq h fn ≡ true
    → without fn (xs ++ h ∷ []) ≡ without fn xs
unfolding keep_if
without_hit fn h xs e = rw (keep_if-append _ xs (h ∷ []), e) (append-nil _)

without_miss :
    (fn h : Handler) (xs : List Handler)
    → ptreq h fn ≡ false
    → without fn (xs ++ h ∷ []) ≡ without fn xs ++ h ∷ []
unfolding keep_if
without_miss fn h xs e = rw (keep_if-append _ xs (h ∷ []), e)

-- One round, at the element that it looks at.
round :
    (i : ℕ) (fn h : Handler) (s : List Handler)
    → get_elem? s i ≡ some h
    → remove_from (suc i) fn s
      ≡ remove_from i fn (if ptreq h fn then take i s ++ drop (suc i) s else s)
unfolding remove_from
round i fn h s e = rw (e, remove_from)

-- With `i` rounds left the first `i` handlers are still to be looked at.
remove_from-without :
    (i : ℕ) (fn : Handler) (s : List Handler)
    → i ≤ length s
    → remove_from i fn s ≡ ok (without fn (take i s) ++ drop i s)
unfolding keep_if
remove_from-without zero fn s l = unfold remove_from in refl
remove_from-without (suc i) fn s l =
    let (h, e) = get_elem?-lt s i l in
    let (p, q) = parts_at s i h e in
    let s' = take i s ++ drop (suc i) s in
    let (p', q') = take-append s (drop (suc i) s) i (omega arith) in
    elim (Bool-cases (ptreq h fn)) [
      | inl hit ↦
          rw (round i fn h s e, hit)
            (remove_from-without i fn s' (length-shrunk s (drop (suc i) s) i (omega arith))
              ∙ rw (p', q', p, without_hit fn h (take i s) hit) refl)
      | inr miss ↦
          rw (round i fn h s e, miss)
            (remove_from-without i fn s (omega arith)
              ∙ rw (p, q, without_miss fn h (take i s) miss, append_assoc) refl)
    ]

-- The loop never reads out of range, and leaves the handlers that point to other code, in order.
pub remove_from_lem :
    (fn : Handler) (s : List Handler) → remove_from (length s) fn s ≡ ok (without fn s)
remove_from_lem fn s =
    remove_from-without (length s) fn s (omega arith)
    ∙ rw (take_all s, drop_all s) (ap ok (append-nil (without fn s)))
