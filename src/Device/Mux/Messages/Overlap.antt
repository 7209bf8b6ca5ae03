-- ===== src/Device/Mux/Messages/Overlap.antt =====
-- iotdevice/mux.go: a `remove` that runs while `Dispatch` ranges over the list, which the read lock
-- of both allows. Both see one array: the range keeps the array and the length that it began with,
-- and `append(m.s[:i], m.s[i+1:]...)` moves the elements behind `i` within it.
use golang_iothub.Base.{
  ℕ, zero, suc, ◌-◌, ◌≤◌, ◌<◌, ◌≡◌, refl, ap, ◌∙◌, List, [], ◌∷◌, ◌++◌, map, none, some, true,
  false, arith, ◌==◌, ==_iff, Bool-cases, inl, inr, if◌then◌else◌, take, drop, get_elem?, length,
  Result, ok, panic, ◌>>=◌,
}
use golang_iothub.Common.Message.{Message}
use golang_iothub.Device.Mux.Handlers.{Handler, ptreq, get_elem?-lt}
use golang_iothub.Device.Mux.Messages.{MessageMux}

-- The array behind `append(s[:i], s[i+1:]...)`, of a slice of length `len`: its last place keeps
-- what it held.
unfoldable pub shift : ℕ → ℕ → List Handler → List Handler
shift i len a = take i a ++ (drop (suc i) (take len a) ++ drop (len - 1) a)

-- The loop of `remove`, on the number of rounds left: the array and the length of `m.s`.
unfoldable pub remove_in_place : ℕ → Handler → List Handler → ℕ → Result (List Handler × ℕ)
unfolding shift
remove_in_place zero fn a len = ok (a, len)
remove_in_place (suc i) fn a len = elim (get_elem? a i) [
  | none ↦ panic
  | some h ↦
      let hit = ptreq h fn in
      remove_in_place i fn (if hit then shift i len a else a) (if hit then len - 1 else len)
]

-- The calls of a `Dispatch` that a `remove` overtakes behind its first `j` calls.
unfoldable pub interrupted : ℕ → Handler → MessageMux → Message → Result (List (Handler × Message))
unfolding remove_in_place
interrupted j fn m msg = remove_in_place (length m.s) fn m.s (length m.s) >>= λ r.
    ok (map (λ h. (h, msg)) (take j m.s ++ drop j r.0))

module _ {ℓ} {A : Type ℓ} where
  take_whole : (s : List A) → take (length s) s ≡ s
  take_whole [] = refl
  take_whole (x ∷ s) = ap (λ t. x ∷ t) (take_whole s)

  drop-append : (j : ℕ) (s l : List A) → j ≤ length s → drop j (s ++ l) ≡ drop j s ++ l
  drop-append zero s l h = refl
  drop-append (suc j) [] l h = absurd (omega arith)
  drop-append (suc j) (x ∷ s) l h = drop-append j s l (omega arith)

  -- Behind a place that has been closed, everything stands one place earlier.
  drop_closed :
      (k j : ℕ) (s l : List A)
      → k ≤ j
      → j < length s
      → drop j (take k s ++ (drop (suc k) s ++ l)) ≡ drop (suc j) s ++ l
  drop_closed k j [] l h b = absurd (omega arith)
  drop_closed zero j (x ∷ s) l h b = drop-append j s l (omega arith)
  drop_closed (suc k) zero (x ∷ s) l h b = absurd (omega arith)
  drop_closed (suc k) (suc j) (x ∷ s) l h b = drop_closed k j s l (omega arith) (omega arith)

  get_elem?-take :
      (i k : ℕ) (s t : List A) → i < k → k ≤ length s → get_elem? (take k s ++ t) i ≡ get_elem? s i
  get_elem?-take i zero s t h b = absurd (omega arith)
  get_elem?-take i (suc k) [] t h b = absurd (omega arith)
  get_elem?-take zero (suc k) (x ∷ s) t h b = refl
  get_elem?-take (suc i) (suc k) (x ∷ s) t h b = get_elem?-take i k s t (omega arith) (omega arith)

-- Places that are not hit stay as they are.
remove_in_place-misses :
    (hi : ℕ) (fn : Handler) (a : List Handler) (len : ℕ)
    → ((i : ℕ) → i < hi → (h : Handler) × (get_elem? a i ≡ some h) × (ptreq h fn ≡ false))
    → remove_in_place hi fn a len ≡ ok (a, len)
unfolding remove_in_place
remove_in_place-misses zero fn a len miss = refl
remove_in_place-misses (suc i) fn a len miss =
    let (h, e, n) = miss i (omega arith) in
    rw (remove_in_place, e, n) (remove_in_place-misses i fn a len (λ j l. miss j (omega arith)))

module _ (fn : Handler) (s : List Handler) (k : ℕ)
    (only : (i : ℕ) (h : Handler) → get_elem? s i ≡ some h → ptreq h fn ≡ (i == k)) where
  -- Below the one place that is hit, before and after it is closed.
  below :
      (t : List Handler)
      → k ≤ length s
      → (i : ℕ) → i < k
      → (h : Handler) × (get_elem? (take k s ++ t) i ≡ some h) × (ptreq h fn ≡ false)
  below t b i l =
      let (h, e) = get_elem?-lt s i (omega arith) in
      let other : (i == k) ≡ false = ground (arith, ==_iff i k) in
      (h, get_elem?-take i k s t l b ∙ e, only i h e ∙ other)

  remove_in_place_lem :
      (hi : ℕ)
      → k < hi
      → hi ≤ length s
      → remove_in_place hi fn s (length s) ≡ ok (shift k (length s) s, length s - 1)
  unfolding remove_in_place shift
  remove_in_place_lem zero l b = absurd (omega arith)
  remove_in_place_lem (suc i) l b =
      let (h, e) = get_elem?-lt s i (omega arith) in
      elim (Bool-cases (i == k)) [
        | inl c ↦
            let same : i ≡ k = (==_iff i k).0 c in
            let hit : ptreq h fn ≡ true = only i h e ∙ c in
            let rest = drop (suc k) (take (length s) s) ++ drop (length s - 1) s in
            rw (remove_in_place, e, hit, same)
              (remove_in_place-misses k fn (shift k (length s) s) (length s - 1)
                (below rest (omega arith)))
        | inr c ↦
            let miss : ptreq h fn ≡ false = only i h e ∙ c in
            rw (remove_in_place, e, miss)
              (remove_in_place_lem i (ground (arith, ==_iff i k)) (omega arith))
      ]

-- A removal that hits one handler, at a place `k`, and overtakes a `Dispatch` behind its first `j`
-- calls, with `k < j`, so that this handler has been called already, and with a handler at `j` that
-- is not the last: the `Dispatch` passes over that handler, which was not removed, calls those behind
-- it, and then the last on the list once more.
pub interrupted_skips :
    (j k : ℕ) (fn : Handler) (m : MessageMux) (msg : Message)
    → k < j
    → suc j < length m.s
    → ((i : ℕ) (h : Handler) → get_elem? m.s i ≡ some h → ptreq h fn ≡ (i == k))
    → interrupted j fn m msg
      ≡ ok (map (λ h. (h, msg)) (take j m.s ++ (drop (suc j) m.s ++ drop (length m.s - 1) m.s)))
unfolding interrupted shift
interrupted_skips j k fn m msg l b only =
    let array = remove_in_place_lem fn m.s k only (length m.s) (omega arith) (omega arith) in
    let read = drop_closed k j m.s (drop (length m.s - 1) m.s) (omega arith) (omega arith) in
    rw (array, take_whole m.s, read) refl
