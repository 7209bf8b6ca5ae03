-- ===== src/Mqtt/Requests/Fresh.antt =====
-- The numbers of requests while the 32-bit counter has not wrapped.
use golang_iothub.Base.{
  ℕ, suc, ◌+◌, ◌%◌, ◌^◌, ◌≤◌, ◌<◌, ◌≡◌, refl, subst, Option, none, some, ◌==◌, ==_iff, arith,
  Bool-cases, inl, inr, update, Result,
}
use golang_iothub.Mqtt.Requests.{
  Resp, Phase, idle, enabled, numbered, registered, waiting, leaving, returned, refused, System,
  move, init, number,
}

-- The number under which a call stands in the table.
abbrev pub open_number : Phase → Option ℕ
open_number idle = none
open_number enabled = none
open_number (numbered r) = none
open_number (registered r) = some r
open_number (waiting r) = some r
open_number (leaving r o) = some r
open_number (returned r o) = none
open_number (refused e) = none

pub open-number : (pc : Phase) (r : ℕ) → open_number pc ≡ some r → number pc ≡ some r
open-number idle r h = cc
open-number enabled r h = cc
open-number (numbered q) r h = cc
open-number (registered q) r h = h
open-number (waiting q) r h = h
open-number (leaving q o) r h = h
open-number (returned q o) r h = cc
open-number (refused e) r h = cc

-- While the numbers have not wrapped, no two calls have the same.
pub record Fresh (s : System) : Type 0 where
  pub counted : s.rid ≡ s.issued
  pub bounded : (t r : ℕ) → number (s.pcs t) ≡ some r → r ≤ s.issued
  pub unique : (t u r : ℕ) → number (s.pcs t) ≡ some r → number (s.pcs u) ≡ some r → t ≡ u
  pub listed : (t r : ℕ) → open_number (s.pcs t) ≡ some r → s.table r ≡ some t

pub init-Fresh : Fresh init
init-Fresh = record {
  counted = refl;
  bounded = λ t r h. cc;
  unique = λ t u r h g. cc;
  listed = λ t r h. cc;
}

module _ (s : System) (t : ℕ) (v : Fresh s) where
  -- A call that moves has no number that it did not have, or the one that is given.
  old_number :
      (pc : Phase)
      → ((r : ℕ) → number pc ≡ some r → number (s.pcs t) ≡ some r)
      → (u r : ℕ) → number (update s.pcs t pc u) ≡ some r
      → number (s.pcs u) ≡ some r
  old_number pc keeps u r h = elim (Bool-cases (t == u)) [
    | inl e ↦ subst (λ w. number (s.pcs w) ≡ some r) ((==_iff t u).0 e) (keeps r (rw e at h))
    | inr e ↦ rw e at h
  ]

  old_open :
      (pc : Phase)
      → ((r : ℕ) → open_number pc ≡ some r → open_number (s.pcs t) ≡ some r)
      → (u r : ℕ) → open_number (update s.pcs t pc u) ≡ some r
      → open_number (s.pcs u) ≡ some r
  old_open pc keeps u r h = elim (Bool-cases (t == u)) [
    | inl e ↦ subst (λ w. open_number (s.pcs w) ≡ some r) ((==_iff t u).0 e) (keeps r (rw e at h))
    | inr e ↦ rw e at h
  ]

  pub moved :
      (pc : Phase)
      → ((r : ℕ) → number pc ≡ some r → number (s.pcs t) ≡ some r)
      → ((r : ℕ) → open_number pc ≡ some r → open_number (s.pcs t) ≡ some r)
      → Fresh (move s t pc)
  moved pc numbers opens = record {
    counted = v.counted;
    bounded = λ u r h. v.bounded u r (old_number pc numbers u r h);
    unique =
        λ u w r h g. v.unique u w r (old_number pc numbers u r h) (old_number pc numbers w r g);
    listed = λ u r h. v.listed u r (old_open pc opens u r h);
  }

  -- What `AddUint32` gives is a number that no call has.
  pub taken :
      suc s.issued < 2 ^ 32
      → number (s.pcs t) ≡ none
      → Fresh (record (move s t (numbered ((s.rid + 1) % 2 ^ 32))) {
        rid = (s.rid + 1) % 2 ^ 32;
        issued = suc s.issued;
      })
  taken small none_yet =
      let n : (s.rid + 1) % 2 ^ 32 ≡ suc s.issued = omega (arith, v.counted) in
      rw n (record {
        counted = refl;
        bounded = λ u r h. ground (arith, v.bounded u r);
        unique = λ u w r h g. ground (arith, v.bounded u r, v.bounded w r, v.unique u w r);
        listed = λ u r h. ground (arith, v.listed u r);
      })

  pub stored :
      (r : ℕ)
      → number (s.pcs t) ≡ some r
      → Fresh (record (move s t (registered r)) { table = update s.table r (some t) })
  stored r own = record {
    counted = v.counted;
    bounded = λ u q h. ground (arith, v.bounded u q);
    unique = λ u w q h g. ground (arith, v.unique u w q);
    listed = λ u q h. ground (arith, v.listed u q, open-number (s.pcs u) q, v.unique t u q);
  }

  pub deleted :
      (r : ℕ) (o : Result Resp)
      → number (s.pcs t) ≡ some r
      → Fresh (record (move s t (returned r o)) { table = update s.table r none })
  deleted r o own = record {
    counted = v.counted;
    bounded = λ u q h. ground (arith, v.bounded u q);
    unique = λ u w q h g. ground (arith, v.unique u w q);
    listed = λ u q h. ground (arith, v.listed u q, open-number (s.pcs u) q, v.unique t u q);
  }

-- Neither the channels nor the flag play a part in it.
pub buffers_free :
    (s s' : System)
    → s'.rid ≡ s.rid
    → s'.issued ≡ s.issued
    → s'.pcs ≡ s.pcs
    → s'.table ≡ s.table
    → Fresh s
    → Fresh s'
buffers_free s s' rid issued pcs table v = record {
  counted = rw (rid, issued) v.counted;
  bounded = λ t r. rw (pcs, issued) (v.bounded t r);
  unique = λ t u r. rw pcs (v.unique t u r);
  listed = λ t r. rw (pcs, table) (v.listed t r);
}
