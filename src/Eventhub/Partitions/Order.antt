-- ===== src/Eventhub/Partitions/Order.antt =====
-- What is received is handed on, once and in order.
use golang_iothub.Base.{
  ℕ, suc, ◌≡◌, refl, ap, sym, subst, ◌∙◌, List, [], ◌∷◌, ◌++◌, append_assoc, append-nil, ◌==◌,
  ==_iff, Bool-cases, inl, inr, arith, update, if◌then◌else◌,
}
use golang_iothub.Eventhub.Partitions.Started.{Started, init-Started, Reach-Started}
use golang_iothub.Common.AmqpMessage.{AmqpMessage}
use golang_iothub.Eventhub.Partitions.{
  Worker, absent, receiving, stopped, holding, failing, System, move, Step, open_next, open_fails,
  all_open, receives, receive_fails, passes, reports, hands_on, finishes, Reach, here, next, init,
}

-- The messages of one partition.
unfoldable pub only : ℕ → List (ℕ × AmqpMessage) → List AmqpMessage
only i [] = []
only i ((j, m) ∷ ms) = if j == i then m ∷ only i ms else only i ms

only-append : (i : ℕ) (xs ys : List (ℕ × AmqpMessage)) → only i (xs ++ ys) ≡ only i xs ++ only i ys
unfolding only
only-append i [] ys = refl
only-append i ((j, m) ∷ xs) ys = ground (arith, only-append i xs ys)

-- The message that a goroutine has accepted and not passed on.
abbrev pub in_hand : Worker → List AmqpMessage
in_hand (holding m) = m ∷ []
in_hand absent = []
in_hand receiving = []
in_hand stopped = []
in_hand (failing e) = []

-- The messages of a partition that `f` has, that wait in the channel, and that is in hand.
abbrev Ordered : System → ℕ → Type 0
Ordered s i = only i s.handed ++ (only i s.msgc ++ in_hand (s.workers i)) ≡ s.received i

-- A goroutine moves with its hand as empty as before.
moved :
    (s : System) (j : ℕ) (w : Worker)
    → in_hand w ≡ in_hand (s.workers j)
    → ((i : ℕ) → Ordered s i)
    → (i : ℕ) → Ordered (move s j w) i
moved s j w same o i = elim (Bool-cases (j == i)) [
  | inl e ↦
      let one : in_hand w ≡ in_hand (s.workers i) =
        subst (λ k. in_hand w ≡ in_hand (s.workers k)) ((==_iff j i).0 e) same in
      rw (e, one) (o i)
  | inr e ↦ rw e (o i)
]

-- The first step of a goroutine.
born :
    (s : System) (j : ℕ)
    → s.workers j ≡ absent
    → ((i : ℕ) → Ordered s i)
    → (i : ℕ) → Ordered (record (move s j receiving) { opened = suc j }) i
born s j w o i = moved s j receiving (rw w refl) o i

-- A goroutine receives.
taken :
    (s : System) (j : ℕ) (m : AmqpMessage)
    → s.workers j ≡ receiving
    → ((i : ℕ) → Ordered s i)
    → (i : ℕ)
    → only i s.handed ++ (only i s.msgc ++ in_hand (update s.workers j (holding m) i))
      ≡ update s.received j (s.received j ++ m ∷ []) i
taken s j m w o i = elim (Bool-cases (j == i)) [
  | inl e ↦
      let same : j ≡ i = (==_iff j i).0 e in
      let before : only i s.handed ++ only i s.msgc ≡ s.received i =
        let idle : in_hand (s.workers i) ≡ [] =
          subst (λ k. in_hand (s.workers k) ≡ []) same (rw w refl) in
        ap (λ l. only i s.handed ++ l) (sym (append-nil (only i s.msgc)))
        ∙ subst (λ l. only i s.handed ++ (only i s.msgc ++ l) ≡ s.received i) idle (o i) in
      let r : s.received j ≡ only i s.handed ++ only i s.msgc = ap s.received same ∙ sym before in
      rw (e, r) (sym (append_assoc (only i s.handed) (only i s.msgc) (m ∷ [])))
  | inr e ↦ rw e (o i)
]

passed :
    (s : System) (j : ℕ) (m : AmqpMessage)
    → s.workers j ≡ holding m
    → ((i : ℕ) → Ordered s i)
    → (i : ℕ) → Ordered (record (move s j receiving) { msgc = s.msgc ++ (j, m) ∷ [] }) i
unfolding only
passed s j m w o i = elim (Bool-cases (j == i)) [
  | inl e ↦
      let hold : in_hand (s.workers i) ≡ m ∷ [] =
        subst (λ k. in_hand (s.workers k) ≡ m ∷ []) ((==_iff j i).0 e) (rw w refl) in
      let before : only i s.handed ++ (only i s.msgc ++ m ∷ []) ≡ s.received i =
        subst (λ l. only i s.handed ++ (only i s.msgc ++ l) ≡ s.received i) hold (o i) in
      rw (only-append i s.msgc ((j, m) ∷ []), e, append-nil (only i s.msgc ++ m ∷ [])) before
  | inr e ↦ rw (only-append i s.msgc ((j, m) ∷ []), e, append-nil (only i s.msgc)) (o i)
]

handed :
    (s : System) (j : ℕ) (m : AmqpMessage) (rest : List (ℕ × AmqpMessage))
    → s.msgc ≡ (j, m) ∷ rest
    → ((i : ℕ) → Ordered s i)
    → (i : ℕ) → Ordered (record s { msgc = rest; handed = s.handed ++ (j, m) ∷ [] }) i
unfolding only
handed s j m rest c o i =
    let first : List AmqpMessage = only i ((j, m) ∷ []) in
    let hand : List AmqpMessage = in_hand (s.workers i) in
    let before : only i s.handed ++ (only i ((j, m) ∷ [] ++ rest) ++ hand) ≡ s.received i =
      subst (λ l. only i s.handed ++ (only i l ++ hand) ≡ s.received i) c (o i) in
    cc (
      before,
      only-append i s.handed ((j, m) ∷ []),
      only-append i ((j, m) ∷ []) rest,
      append_assoc (only i s.handed) first (only i rest ++ hand),
      append_assoc first (only i rest) hand,
    )

Step-Ordered :
    {n : ℕ} {s s' : System}
    → Started n s
    → Step n s s'
    → ((i : ℕ) → Ordered s i)
    → (i : ℕ) → Ordered s' i
Step-Ordered {s = s} v (open_next m l e) o i =
    rw e (born s s.opened (v.unborn s.opened (omega arith)) o i)
Step-Ordered v (open_fails x m l e) o i = rw e (o i)
Step-Ordered v (all_open m l e) o i = rw e (o i)
Step-Ordered {s = s} v (receives j m w e) o i = rw e (taken s j m w o i)
Step-Ordered {s = s} v (receive_fails j x w e) o i = rw e (moved s j (failing x) (rw w refl) o i)
Step-Ordered {s = s} v (passes j m w l e) o i = rw e (passed s j m w o i)
Step-Ordered {s = s} v (reports j x w l e) o i = rw e (moved s j stopped (rw w refl) o i)
Step-Ordered {s = s} v (hands_on (j, m) rest r c e) o i = rw e (handed s j m rest c o i)
Step-Ordered v (finishes x rest m c e) o i = rw e (o i)

Reach-Ordered :
    {n : ℕ} {s s' : System}
    → Started n s
    → Reach n s s'
    → ((i : ℕ) → Ordered s i)
    → (i : ℕ) → Ordered s' i
Reach-Ordered v here o = o
Reach-Ordered v (next r t) o = Step-Ordered (Reach-Started r v) t (Reach-Ordered v r o)

-- Whatever the scheduler, the hub and the network do: of each partition, the messages that `f` was
-- started with, then those that wait in the channel, then the one in the hand of the partition's
-- goroutine, are the messages that the goroutine has received, each once and in the order of
-- arrival.
pub in_order :
    (n i : ℕ) (s : System)
    → Reach n init s
    → only i s.handed ++ (only i s.msgc ++ in_hand (s.workers i)) ≡ s.received i
unfolding only
in_order n i s r = Reach-Ordered (init-Started n) r (λ j. refl) i
