-- ===== src/Eventhub/Partitions/Started.antt =====
-- Which goroutines have been started.
use golang_iothub.Base.{
  ℕ, suc, ◌≤◌, ◌<◌, ◌≡◌, ◌≢◌, refl, sym, subst, ◌==◌, ==_iff, Bool-cases, inl, inr, arith,
}
use golang_iothub.Eventhub.Partitions.{
  Main, opening, serving, returned, Worker, absent, receiving, stopped, holding, failing, System,
  move, Step, open_next, open_fails, all_open, receives, receive_fails, passes, reports, hands_on,
  finishes, Reach, here, next, init,
}

-- The goroutines behind the last opened partition are not started, and all are once the loop of
-- the `select` runs.
pub record Started (n : ℕ) (s : System) : Type 0 where
  pub few : s.opened ≤ n
  pub full : s.main ≡ serving → s.opened ≡ n
  pub unborn : (i : ℕ) → s.opened ≤ i → s.workers i ≡ absent
  pub born : (i : ℕ) → i < s.opened → s.workers i ≢ absent

module _ {n : ℕ} {s : System} (v : Started n s) where
  -- A goroutine that has been started and goes on.
  move-Started : (j : ℕ) (w : Worker) → s.workers j ≢ absent → w ≢ absent → Started n (move s j w)
  move-Started j w was is = record {
    few = v.few;
    full = v.full;
    unborn = λ i l. elim (Bool-cases (j == i)) [
      | inl e ↦
          absurd (was (subst (λ k. s.workers k ≡ absent) (sym ((==_iff j i).0 e)) (v.unborn i l)))
      | inr e ↦ rw e (v.unborn i l)
    ];
    born = λ i l. elim (Bool-cases (j == i)) [ inl e ↦ rw e is | inr e ↦ rw e (v.born i l) ];
  }

  opened-Started :
      s.opened < n
      → s.main ≡ opening
      → Started n (record (move s s.opened receiving) { opened = suc s.opened })
  opened-Started l m = record {
    few = omega arith;
    full = λ h. cc (h, m);
    unborn = λ i h. elim (Bool-cases (s.opened == i)) [
      | inl e ↦ let same : s.opened ≡ i = (==_iff s.opened i).0 e in absurd (omega arith)
      | inr e ↦ rw e (v.unborn i (omega arith))
    ];
    born = λ i h. elim (Bool-cases (s.opened == i)) [
      | inl e ↦ rw e (λ x. cc)
      | inr e ↦ rw e (v.born i (ground (arith, ==_iff s.opened i)))
    ];
  }

  -- The caller goes on.
  main-Started : (m : Main) → (m ≡ serving → s.opened ≡ n) → Started n (record s { main = m })
  main-Started m full = record { few = v.few; full = full; unborn = v.unborn; born = v.born }

pub Step-Started : {n : ℕ} {s s' : System} → Step n s s' → Started n s → Started n s'
Step-Started (open_next m l e) v = rw e (opened-Started v l m)
Step-Started (open_fails x m l e) v = rw e (main-Started v (returned x) (λ h. cc))
Step-Started (all_open m l e) v = rw e (main-Started v serving (λ h. l))
Step-Started (receives j m w e) v =
    let u = move-Started v j (holding m) (rw w (λ x. cc)) (λ x. cc) in
    rw e (record { few = u.few; full = u.full; unborn = u.unborn; born = u.born })
Step-Started (receive_fails j x w e) v =
    rw e (move-Started v j (failing x) (rw w (λ y. cc)) (λ y. cc))
Step-Started (passes j m w l e) v =
    let u = move-Started v j receiving (rw w (λ x. cc)) (λ x. cc) in
    rw e (record { few = u.few; full = u.full; unborn = u.unborn; born = u.born })
Step-Started (reports j x w l e) v =
    let u = move-Started v j stopped (rw w (λ y. cc)) (λ y. cc) in
    rw e (record { few = u.few; full = u.full; unborn = u.unborn; born = u.born })
Step-Started (hands_on x rest m c e) v =
    rw e (record { few = v.few; full = v.full; unborn = v.unborn; born = v.born })
Step-Started (finishes x rest m c e) v =
    rw e (record { few = v.few; full = λ h. cc h; unborn = v.unborn; born = v.born })

pub init-Started : (n : ℕ) → Started n init
init-Started n = record {
  few = omega arith;
  full = λ h. cc h;
  unborn = λ i l. refl;
  born = λ i l. absurd (omega arith);
}

pub Reach-Started : {n : ℕ} {s s' : System} → Reach n s s' → Started n s → Started n s'
Reach-Started here v = v
Reach-Started (next r t) v = Step-Started t (Reach-Started r v)
