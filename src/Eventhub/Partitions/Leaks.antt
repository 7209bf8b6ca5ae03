-- ===== src/Eventhub/Partitions/Leaks.antt =====
-- The goroutines that are left when the call has returned.
use golang_iothub.Base.{
  ℕ, ◌≤◌, ◌<◌, ◌≡◌, ◌≢◌, ◌↔◌, refl, sym, subst, [], ◌∷◌, ◌++◌, length, ◌==◌, ==_iff, Bool-cases,
  inl, inr, arith, update, ltb, Error, update_same, context_done,
}
use golang_iothub.Common.AmqpMessage.{AmqpMessage}
use golang_iothub.Eventhub.Partitions.Channels.{room}
use golang_iothub.Eventhub.Partitions.Progress.{step_first}
use golang_iothub.Eventhub.Partitions.{
  returned, Worker, receiving, stopped, holding, failing, System, move, Step, open_next, open_fails,
  all_open, receives, receive_fails, passes, reports, hands_on, finishes, Reach, here, next, init,
}

-- The caller has returned, the channel is full, and goroutine `i` has `m` to put into it.
record Stuck (n i : ℕ) (m : AmqpMessage) (s : System) : Type 0 where
  over : (e : Error) × (s.main ≡ returned e)
  full : n ≤ length s.msgc
  hand : s.workers i ≡ holding m

module _ {n i : ℕ} {m : AmqpMessage} where
  -- Another goroutine moves.
  other :
      {s : System} (j : ℕ) (w : Worker)
      → (s.workers j ≢ holding m)
      → Stuck n i m s
      → update s.workers j w i ≡ holding m
  other {s} j w goes v = elim (Bool-cases (j == i)) [
    | inl e ↦ absurd (goes (subst (λ k. s.workers k ≡ holding m) (sym ((==_iff j i).0 e)) v.hand))
    | inr e ↦ rw e v.hand
  ]

  Step-Stuck : {s s' : System} → Step n s s' → Stuck n i m s → Stuck n i m s'
  Step-Stuck (open_next h l e) v = cc (h, v.over.1)
  Step-Stuck (open_fails x h l e) v = cc (h, v.over.1)
  Step-Stuck (all_open h l e) v = cc (h, v.over.1)
  Step-Stuck (receives j x w e) v =
      let hand = other j (holding x) (rw w (λ y. cc)) v in
      rw e (record { over = v.over; full = v.full; hand = hand })
  Step-Stuck (receive_fails j x w e) v =
      let hand = other j (failing x) (rw w (λ y. cc)) v in
      rw e (record { over = v.over; full = v.full; hand = hand })
  Step-Stuck (passes j x w l e) v = let full = v.full in absurd (omega arith)
  Step-Stuck (reports j x w l e) v =
      let hand = other j stopped (rw w (λ y. cc)) v in
      rw e (record { over = v.over; full = v.full; hand = hand })
  Step-Stuck (hands_on x rest h c e) v = cc (h, v.over.1)
  Step-Stuck (finishes x rest h c e) v = cc (h, v.over.1)

  Reach-Stuck : {s s' : System} → Reach n s s' → Stuck n i m s → Stuck n i m s'
  Reach-Stuck here v = v
  Reach-Stuck (next r t) v = Step-Stuck t (Reach-Stuck r v)

-- A run to a state in which a goroutine has ended.
abbrev Ends : ℕ → ℕ → System → Type 0
Ends n i s = (s' : System) × Reach n s s' × (s'.workers i ≡ stopped)

Step-Ends : {n i : ℕ} {s t : System} → Step n s t → Ends n i t → Ends n i s
Step-Ends p (u, r, w) = (u, step_first p r, w)

failing-Ends :
    {n : ℕ} (i : ℕ) (e : Error) (s : System) → Reach n init s → s.workers i ≡ failing e → Ends n i s
failing-Ends i e s r w =
    (_, next here (reports i e w (room _ i e s r w) refl), update_same s.workers i stopped)

receiving-Ends :
    {n : ℕ} (i : ℕ) (s : System) → Reach n init s → s.workers i ≡ receiving → Ends n i s
receiving-Ends {n} i s r w =
    let p : Step n s (move s i (failing context_done)) = receive_fails i context_done w refl in
    Step-Ends p (
      failing-Ends i context_done (move s i (failing context_done)) (next r p)
        (update_same s.workers i (failing context_done)))

holding-Ends :
    {n : ℕ} (i : ℕ) (m : AmqpMessage) (s : System)
    → Reach n init s
    → s.workers i ≡ holding m
    → length s.msgc < n
    → Ends n i s
holding-Ends {n} i m s r w l =
    let t : System = record (move s i receiving) { msgc = s.msgc ++ (i, m) ∷ [] } in
    let p : Step n s t = passes i m w l refl in
    Step-Ends p (receiving-Ends i t (next r p) (update_same s.workers i receiving))

-- After `SubscribePartitions` has returned, a goroutine that has accepted a message can still end,
-- exactly if the channel has room for the message: with the channel full it stays for ever, and
-- neither the message nor the receiver is released.
pub can_end_iff :
    (n i : ℕ) (m : AmqpMessage) (e : Error) (s : System)
    → Reach n init s
    → s.main ≡ returned e
    → s.workers i ≡ holding m
    → ((s' : System) × Reach n s s' × (s'.workers i ≡ stopped)) ↔ (length s.msgc < n)
can_end_iff n i m e s r over hand = (
  λ (u, p, w). elim (Bool-cases (ltb (length s.msgc) n)) [
    | inl h ↦ ground arith
    | inr h ↦
        let full : n ≤ length s.msgc = ground arith in
        let v : Stuck n i m u =
          Reach-Stuck p (record { over = (e, over); full = full; hand = hand }) in
        cc (w, v.hand)
  ],
  holding-Ends i m s r hand,
)
