-- ===== src/Eventhub/Partitions/Channels.antt =====
-- The capacity of the channels: a goroutine that reports its error never waits.
use golang_iothub.Base.{
  ℕ, zero, suc, ◌≤◌, ◌<◌, ◌+◌, ◌≡◌, refl, subst, List, [], ◌∷◌, ◌++◌, length, length-append, ◌==◌,
  ==_iff, Bool-cases, inl, inr, arith, update, true, false, ltb, Error,
}
use golang_iothub.Eventhub.Partitions.Started.{Started, init-Started, Reach-Started}
use golang_iothub.Eventhub.Partitions.{
  Worker, absent, receiving, stopped, holding, failing, System, move, Step, open_next, open_fails,
  all_open, receives, receive_fails, passes, reports, hands_on, finishes, Reach, here, next, init,
}

-- How many errors a goroutine can still report.
abbrev owed : Worker → ℕ
owed absent = 0
owed receiving = 1
owed stopped = 0
owed (holding m) = 1
owed (failing e) = 1

-- And the first `k` goroutines together.
unfoldable total : (ℕ → Worker) → ℕ → ℕ
total w zero = 0
total w (suc k) = owed (w k) + total w k

total_above : (w : ℕ → Worker) (i k : ℕ) (x : Worker) → k ≤ i → total (update w i x) k ≡ total w k
unfolding total
total_above w i zero x l = refl
total_above w i (suc k) x l =
    let rest : total (update w i x) k ≡ total w k = total_above w i k x (omega arith) in
    let other : (i == k) ≡ false = ground (arith, ==_iff i k) in rw (other, rest) refl

total-update :
    (w : ℕ → Worker) (i k : ℕ) (x : Worker)
    → i < k
    → total (update w i x) k + owed (w i) ≡ total w k + owed x
unfolding total
total-update w i zero x l = absurd (omega arith)
total-update w i (suc k) x l = elim (Bool-cases (i == k)) [
  | inl e ↦
      let same : i ≡ k = (==_iff i k).0 e in
      let alike : owed (w i) ≡ owed (w k) = subst (λ j. owed (w i) ≡ owed (w j)) same refl in
      let rest : total (update w i x) k ≡ total w k = total_above w i k x (omega arith) in
      rw (e, rest, alike) (omega arith)
  | inr e ↦
      let rest : total (update w i x) k + owed (w i) ≡ total w k + owed x =
        total-update w i k x (ground (arith, ==_iff i k)) in
      rw e (omega arith)
]

owed_le-total : (w : ℕ → Worker) (i k : ℕ) → i < k → owed (w i) ≤ total w k
unfolding total
owed_le-total w i zero l = absurd (omega arith)
owed_le-total w i (suc k) l = elim (Bool-cases (i == k)) [
  | inl e ↦ let same : i ≡ k = (==_iff i k).0 e in rw same (omega arith)
  | inr e ↦
      let rest : owed (w i) ≤ total w k = owed_le-total w i k (ground (arith, ==_iff i k)) in
      omega arith
]

-- The errors in the channel and those that can follow are no more than the goroutines.
abbrev Fits : System → Type 0
Fits s = length s.errc + total s.workers s.opened ≤ s.opened

-- A goroutine that has not been started holds nothing.
pub owed_below :
    {n : ℕ} {s : System} → Started n s → (i : ℕ) → owed (s.workers i) ≡ 1 → i < s.opened
owed_below {s = s} v i o = elim (Bool-cases (ltb i s.opened)) [
  | inl e ↦ ground arith
  | inr e ↦
      let late : s.opened ≤ i = ground arith in
      let nothing : owed (s.workers i) ≡ 0 = rw (v.unborn i late) refl in absurd (omega arith)
]

module _ {n : ℕ} {s : System} (v : Started n s) where
  -- A goroutine that is not done moves.
  Fits-move :
      (i : ℕ) (x : Worker) (errs : List Error)
      → owed (s.workers i) ≡ 1
      → length errs + owed x ≡ length s.errc + 1
      → Fits s
      → length errs + total (update s.workers i x) s.opened ≤ s.opened
  Fits-move i x errs o l h =
      let sum : total (update s.workers i x) s.opened + owed (s.workers i)
          ≡ total s.workers s.opened + owed x =
        total-update s.workers i s.opened x (owed_below v i o) in
      omega arith

Step-Fits : {n : ℕ} {s s' : System} → Started n s → Step n s s' → Fits s → Fits s'
unfolding total
Step-Fits {s = s} v (open_next m l e) h =
    let rest = total_above s.workers s.opened s.opened receiving (omega arith) in
    let self : (s.opened == s.opened) ≡ true = (==_iff s.opened s.opened).1 refl in
    rw (e, self, rest) (omega arith)
Step-Fits v (open_fails x m l e) h = rw e h
Step-Fits v (all_open m l e) h = rw e h
Step-Fits {s = s} v (receives j m w e) h =
    rw e (Fits-move v j (holding m) s.errc (rw w refl) refl h)
Step-Fits {s = s} v (receive_fails j x w e) h =
    rw e (Fits-move v j (failing x) s.errc (rw w refl) refl h)
Step-Fits {s = s} v (passes j m w l e) h = rw e (Fits-move v j receiving s.errc (rw w refl) refl h)
Step-Fits {s = s} v (reports j x w l e) h =
    let longer : length (s.errc ++ x ∷ []) ≡ length s.errc + 1 = length-append s.errc (x ∷ []) in
    rw e (Fits-move v j stopped (s.errc ++ x ∷ []) (rw w refl) (rw longer (omega arith)) h)
Step-Fits v (hands_on x rest m c e) h = rw e h
Step-Fits {s = s} v (finishes x rest m c e) h =
    let longer : length s.errc ≡ suc (length rest) = rw c refl in rw e (omega arith)

Reach-Fits : {n : ℕ} {s s' : System} → Started n s → Reach n s s' → Fits s → Fits s'
Reach-Fits v here h = h
Reach-Fits v (next r t) h = Step-Fits (Reach-Started r v) t (Reach-Fits v r h)

Step-full : {n : ℕ} {s s' : System} → Step n s s' → length s.msgc ≤ n → length s'.msgc ≤ n
Step-full (open_next m l e) h = rw e h
Step-full (open_fails x m l e) h = rw e h
Step-full (all_open m l e) h = rw e h
Step-full (receives j m w e) h = rw e h
Step-full (receive_fails j x w e) h = rw e h
Step-full {s = s} (passes j m w l e) h =
    let longer : length (s.msgc ++ (j, m) ∷ []) ≡ length s.msgc + 1 =
      length-append s.msgc ((j, m) ∷ []) in
    rw (e, longer) (omega arith)
Step-full (reports j x w l e) h = rw e h
Step-full {s = s} (hands_on x rest m c e) h =
    let longer : length s.msgc ≡ suc (length rest) = rw c refl in rw e (omega arith)
Step-full (finishes x rest m c e) h = rw e h

Reach-full : {n : ℕ} {s s' : System} → Reach n s s' → length s.msgc ≤ n → length s'.msgc ≤ n
Reach-full here h = h
Reach-full (next r t) h = Step-full t (Reach-full r h)

-- A goroutine that is about to report its error finds room.
pub room :
    (n i : ℕ) (e : Error) (s : System)
    → Reach n init s
    → s.workers i ≡ failing e
    → length s.errc < n
unfolding total
room n i e s r f =
    let v : Started n s = Reach-Started r (init-Started n) in
    let few : s.opened ≤ n = v.few in
    let h : length s.errc + total s.workers s.opened ≤ s.opened =
      Reach-Fits (init-Started n) r (omega arith) in
    let one : owed (s.workers i) ≡ 1 = rw f refl in
    let under : owed (s.workers i) ≤ total s.workers s.opened =
      owed_le-total s.workers i s.opened (owed_below v i one) in
    omega arith

-- In every state that `SubscribePartitions` reaches with n partitions, `msgc` holds at most n
-- messages and `errc` at most n errors, and a goroutine that is about to report its error can do so
-- at once and end: reporting never blocks.
pub capacity :
    (n i : ℕ) (e : Error) (s : System)
    → Reach n init s
    → (length s.msgc ≤ n)
      × (length s.errc ≤ n)
      × (s.workers i ≡ failing e → Step n s (record (move s i stopped) { errc = s.errc ++ e ∷ [] }))
unfolding total
capacity n i e s r =
    let v : Started n s = Reach-Started r (init-Started n) in
    let few : s.opened ≤ n = v.few in
    let h : length s.errc + total s.workers s.opened ≤ s.opened =
      Reach-Fits (init-Started n) r (omega arith) in
    (Reach-full r (omega arith), omega arith, λ f. reports i e f (room n i e s r f) refl)
