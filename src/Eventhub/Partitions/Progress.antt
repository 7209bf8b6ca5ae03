-- ===== src/Eventhub/Partitions/Progress.antt =====
-- Whether the call can return.
use golang_iothub.Base.{
  ℕ, zero, suc, ◌≤◌, ◌<◌, ◌+◌, ◌≡◌, ◌≢◌, ◌↔◌, ap, refl, subst, List, [], ◌∷◌, ◌++◌, length,
  length-append, ◌==◌, Bool-cases, inl, inr, arith, ltb, Error, update_same, context_done,
}
use golang_iothub.Common.AmqpMessage.{AmqpMessage}
use golang_iothub.Eventhub.Partitions.Started.{Started, init-Started, Reach-Started}
use golang_iothub.Eventhub.Partitions.Channels.{capacity, room}
use golang_iothub.Eventhub.Partitions.{
  serving, returned, Worker, absent, receiving, stopped, holding, failing, System, move, Step,
  open_next, open_fails, all_open, receives, receive_fails, passes, reports, hands_on, finishes,
  Reach, here, next, init,
}

pub step_first : {n : ℕ} {s t u : System} → Step n s t → Reach n t u → Reach n s u
step_first p here = next here p
step_first p (next r q) = next (step_first p r) q

-- A run to a state in which the call has returned.
abbrev CanReturn : ℕ → System → Type 0
CanReturn n s = (s' : System) × (e : Error) × Reach n s s' × (s'.main ≡ returned e)

Step-CanReturn : {n : ℕ} {s t : System} → Step n s t → CanReturn n t → CanReturn n s
Step-CanReturn p (u, e, r, m) = (u, e, step_first p r, m)

-- While the call runs, the error of a goroutine that is done waits in the channel.
abbrev Waiting : System → Type 0
Waiting s =
    (i : ℕ) → ((e : Error) → s.main ≢ returned e) → s.workers i ≡ stopped → 0 < length s.errc

error-CanReturn : {n : ℕ} (s : System) → s.main ≡ serving → 0 < length s.errc → CanReturn n s
error-CanReturn {n} s m l = go s.errc refl
  where
    go : (es : List Error) → s.errc ≡ es → CanReturn n s
    go [] h = let nothing : length s.errc ≡ 0 = rw h refl in absurd (omega arith)
    go (e ∷ rest) h = (_, e, next here (finishes e rest m h refl), refl)

module _ {n : ℕ} (i : ℕ) where
  failing-CanReturn :
      (e : Error) (s : System)
      → Reach n init s
      → s.main ≡ serving
      → s.workers i ≡ failing e
      → CanReturn n s
  failing-CanReturn e s r m w =
      let t : System = record (move s i stopped) { errc = s.errc ++ e ∷ [] } in
      let longer : length t.errc ≡ length s.errc + 1 = length-append s.errc (e ∷ []) in
      Step-CanReturn (reports i e w (room n i e s r w) refl) (error-CanReturn t m (omega arith))

  receiving-CanReturn :
      (s : System) → Reach n init s → s.main ≡ serving → s.workers i ≡ receiving → CanReturn n s
  receiving-CanReturn s r m w =
      let p : Step n s (move s i (failing context_done)) = receive_fails i context_done w refl in
      Step-CanReturn p (
        failing-CanReturn context_done (move s i (failing context_done)) (next r p) m
          (update_same s.workers i (failing context_done)))

  passing-CanReturn :
      (x : AmqpMessage) (s : System)
      → Reach n init s
      → s.main ≡ serving
      → s.workers i ≡ holding x
      → length s.msgc < n
      → CanReturn n s
  passing-CanReturn x s r m w l =
      let t : System = record (move s i receiving) { msgc = s.msgc ++ (i, x) ∷ [] } in
      let p : Step n s t = passes i x w l refl in
      Step-CanReturn p (receiving-CanReturn t (next r p) m (update_same s.workers i receiving))

  holding-CanReturn :
      (x : AmqpMessage) (s : System)
      → Reach n init s
      → 0 < n
      → s.main ≡ serving
      → s.workers i ≡ holding x
      → CanReturn n s
  holding-CanReturn x s r pos m w = elim (Bool-cases (ltb (length s.msgc) n)) [
    | inl e ↦ passing-CanReturn x s r m w (ground arith)
    | inr e ↦
        let full : n ≤ length s.msgc = ground arith in
        go (length s.msgc) s.msgc refl full ((capacity n i context_done s r).0)
  ]
    where
      go :
          (k : ℕ) (ms : List (ℕ × AmqpMessage))
          → s.msgc ≡ ms
          → n ≤ length s.msgc
          → length s.msgc ≤ n
          → CanReturn n s
      go k [] h a b = let nothing : length s.msgc ≡ 0 = rw h refl in absurd (omega arith)
      go k (y ∷ rest) h a b =
          let t : System = record s { msgc = rest; handed = s.handed ++ y ∷ [] } in
          let p : Step n s t = hands_on y rest m h refl in
          let longer : length s.msgc ≡ suc (length rest) = rw h refl in
          Step-CanReturn p (passing-CanReturn x t (next r p) m w (omega arith))

-- A goroutine moves and is not done.
move-Waiting : (s : System) (j : ℕ) (w : Worker) → w ≢ stopped → Waiting s → Waiting (move s j w)
move-Waiting s j w goes h i a = elim (Bool-cases (j == i)) [
  | inl e ↦ rw e (λ b. absurd (goes b))
  | inr e ↦ rw e (h i a)
]

Step-Waiting : {n : ℕ} {s s' : System} → Step n s s' → Waiting s → Waiting s'
Step-Waiting {s = s} (open_next m l e) h = rw e (move-Waiting s s.opened receiving (λ x. cc) h)
Step-Waiting (open_fails x m l e) h = rw e (λ i a b. absurd (a x refl))
Step-Waiting (all_open m l e) h = rw e (λ i a b. h i (λ x y. cc (y, m)) b)
Step-Waiting {s = s} (receives j m w e) h = rw e (move-Waiting s j (holding m) (λ x. cc) h)
Step-Waiting {s = s} (receive_fails j x w e) h = rw e (move-Waiting s j (failing x) (λ y. cc) h)
Step-Waiting {s = s} (passes j m w l e) h = rw e (move-Waiting s j receiving (λ x. cc) h)
Step-Waiting {s = s} (reports j x w l e) h =
    let longer : length (s.errc ++ x ∷ []) ≡ length s.errc + 1 = length-append s.errc (x ∷ []) in
    rw (e, longer) (λ i a b. omega arith)
Step-Waiting (hands_on x rest m c e) h = rw e h
Step-Waiting (finishes x rest m c e) h = rw e (λ i a b. absurd (a x refl))

Reach-Waiting : {n : ℕ} {s s' : System} → Reach n s s' → Waiting s → Waiting s'
Reach-Waiting here h = h
Reach-Waiting (next r t) h = Step-Waiting t (Reach-Waiting r h)

some_partition : {n : ℕ} (s : System) → Reach n init s → 0 < n → s.main ≡ serving → CanReturn n s
some_partition {n} s r pos m = go (s.workers 0) refl
  where
    go : (w : Worker) → s.workers 0 ≡ w → CanReturn n s
    go absent h =
        let v : Started n s = Reach-Started r (init-Started n) in
        let all : s.opened ≡ n = v.full m in absurd (v.born 0 (omega arith) h)
    go receiving h = receiving-CanReturn 0 s r m h
    go stopped h = error-CanReturn s m (Reach-Waiting r (λ i a b. cc b) 0 (λ e x. cc (m, x)) h)
    go (holding x) h = holding-CanReturn 0 x s r pos m h
    go (failing e) h = failing-CanReturn 0 e s r m h

-- With no partition, no step is possible once the `select` runs.
no_step : {s s' : System} → Reach 0 init s → s.main ≡ serving → ¬ Step 0 s s'
no_step {s} {s'} r m p = go p
  where
    unborn : (i : ℕ) → s.workers i ≡ absent
    unborn i =
        let v : Started 0 s = Reach-Started r (init-Started 0) in
        let few : s.opened ≤ 0 = v.few in v.unborn i (omega arith)

    go : ¬ Step 0 s s'
    go (open_next h l e) = cc (m, h)
    go (open_fails x h l e) = cc (m, h)
    go (all_open h l e) = cc (m, h)
    go (receives j x w e) = cc (w, unborn j)
    go (receive_fails j x w e) = cc (w, unborn j)
    go (passes j x w l e) = cc (w, unborn j)
    go (reports j x w l e) = cc (w, unborn j)
    go (hands_on x rest h c e) =
        let none : length s.msgc ≤ 0 = (capacity 0 0 context_done s r).0 in
        let one : length s.msgc ≡ suc (length rest) = rw c refl in omega arith
    go (finishes x rest h c e) =
        let none : length s.errc ≤ 0 = (capacity 0 0 context_done s r).1 in
        let one : length s.errc ≡ suc (length rest) = rw c refl in omega arith

-- So it stays where it is.
stays : {s u : System} → Reach 0 init s → s.main ≡ serving → Reach 0 s u → u ≡ s
stays r m here = refl
stays {s} {u} r m (next {t = t} p q) =
    let same : t ≡ s = stays r m p in absurd (no_step r m (subst (λ x. Step 0 x u) same q))

-- Once `SubscribePartitions` has opened its receivers, and whatever has happened since: some
-- course of events lets the call return, exactly if the hub has a partition. With none the call
-- waits for ever, and no cancelled context ends it.
pub can_return_iff :
    (n : ℕ) (s : System)
    → Reach n init s
    → s.main ≡ serving
    → ((s' : System) × (e : Error) × Reach n s s' × (s'.main ≡ returned e)) ↔ (0 < n)
can_return_iff zero s r m =
    (λ (u, e, p, h). cc (ap (λ x. x.main) (stays r m p), h, m), λ l. absurd (omega arith))
can_return_iff (suc n) s r m = (λ _. omega arith, λ l. some_partition s r l m)
