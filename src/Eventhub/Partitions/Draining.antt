-- ===== src/Eventhub/Partitions/Draining.antt =====
-- What has been received can be handed on.
use golang_iothub.Base.{
  ℕ, ◌≤◌, ◌<◌, ◌≡◌, refl, sym, ap, ◌∙◌, List, [], ◌∷◌, ◌++◌, append-nil, length, arith, update_same,
}
use golang_iothub.Common.AmqpMessage.{AmqpMessage}
use golang_iothub.Eventhub.Partitions.Started.{Started, init-Started, Reach-Started}
use golang_iothub.Eventhub.Partitions.Channels.{owed_below}
use golang_iothub.Eventhub.Partitions.Order.{only, in_hand, in_order}
use golang_iothub.Eventhub.Partitions.Progress.{step_first}
use golang_iothub.Eventhub.Partitions.{
  serving, Worker, absent, receiving, stopped, holding, failing, System, move, Step, passes,
  hands_on, Reach, here, next, init,
}

Reach-trans : {n : ℕ} {s t u : System} → Reach n s t → Reach n t u → Reach n s u
Reach-trans p here = p
Reach-trans p (next q r) = next (Reach-trans p q) r

-- A run that empties the channel, and leaves the goroutines where they are.
abbrev Drained : ℕ → System → Type 0
Drained n s =
    (t : System) × Reach n s t
    × (t.msgc ≡ [])
    × (t.main ≡ serving)
    × (t.workers ≡ s.workers)
    × (t.received ≡ s.received)

drain :
    {n : ℕ} (ms : List (ℕ × AmqpMessage)) (s : System)
    → s.msgc ≡ ms
    → s.main ≡ serving
    → Drained n s
drain [] s c m = (s, here, c, m, refl, refl)
drain {n} (x ∷ ms) s c m =
    let p : Step n s (record s { msgc = ms; handed = s.handed ++ x ∷ [] }) =
      hands_on x ms m c refl in
    let (t, run, a, b, c', d) =
      drain {n = n} ms (record s { msgc = ms; handed = s.handed ++ x ∷ [] }) refl m in
    (t, step_first p run, a, b, c', d)

-- Nothing waits in the channel or in hand.
handed_all :
    {n : ℕ} (i : ℕ) (s : System)
    → Reach n init s
    → s.msgc ≡ []
    → in_hand (s.workers i) ≡ []
    → only i s.handed ≡ s.received i
unfolding only
handed_all {n} i s r c h =
    let all : only i s.handed ++ (only i s.msgc ++ in_hand (s.workers i)) ≡ s.received i =
      in_order n i s r in
    sym (append-nil (only i s.handed)) ∙ (rw (c, h) at all)

abbrev Delivers : ℕ → ℕ → System → Type 0
Delivers n i s =
    (s' : System) × Reach n s s'
    × (s'.received i ≡ s.received i)
    × (only i s'.handed ≡ s.received i)

-- The channel is empty, and the goroutine has a message in hand.
hand_over :
    {n : ℕ} (i : ℕ) (m : AmqpMessage) (s : System)
    → Reach n init s
    → s.main ≡ serving
    → s.msgc ≡ []
    → s.workers i ≡ holding m
    → Delivers n i s
hand_over {n} i m s r h c w =
    let v : Started n s = Reach-Started r (init-Started n) in
    let few : s.opened ≤ n = v.few in
    let born : i < s.opened = owed_below v i (rw w refl) in
    let room : length s.msgc < n = rw c (omega arith) in
    let t : System = record (move s i receiving) { msgc = s.msgc ++ (i, m) ∷ [] } in
    let p : Step n s t = passes i m w room refl in
    let u : System = record t { msgc = []; handed = s.handed ++ (i, m) ∷ [] } in
    let one : t.msgc ≡ (i, m) ∷ [] = rw c refl in
    let q : Step n t u = hands_on (i, m) [] h one refl in
    let idle : in_hand (u.workers i) ≡ [] = ap in_hand (update_same s.workers i receiving) in
    (u, next (next here p) q, refl, handed_all i u (next (next r p) q) refl idle)

-- From every reachable state in which the `select` runs, some course of events, in which the
-- partition receives nothing more, hands on all that the partition has received.
pub can_deliver :
    (n i : ℕ) (s : System)
    → Reach n init s
    → s.main ≡ serving
    → (s' : System) × Reach n s s'
      × (s'.received i ≡ s.received i)
      × (only i s'.handed ≡ s.received i)
can_deliver n i s r m =
    let (t, run, c, h, ws, got) = drain {n = n} s.msgc s refl m in
    let r' : Reach n init t = Reach-trans r run in
    let same : t.received i ≡ s.received i = ap (λ f. f i) got in
    let (u, run', got', all) = deliver_from t r' h c in
    (u, Reach-trans run run', got' ∙ same, all ∙ same)
  where
    deliver_from : (t : System) → Reach n init t → t.main ≡ serving → t.msgc ≡ [] → Delivers n i t
    deliver_from t q h c = go (t.workers i) refl
      where
        go : (w : Worker) → t.workers i ≡ w → Delivers n i t
        go (holding x) e = hand_over i x t q h c e
        go absent e = (t, here, refl, handed_all i t q c (rw e refl))
        go receiving e = (t, here, refl, handed_all i t q c (rw e refl))
        go stopped e = (t, here, refl, handed_all i t q c (rw e refl))
        go (failing x) e = (t, here, refl, handed_all i t q c (rw e refl))
