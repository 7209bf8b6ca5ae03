-- ===== src/Device/Session/Attempts.antt =====
-- `Connect` over a transport goes as `Connect` over the outcomes of that transport's attempts.
use mathlib.Core.Option
use golang_iothub.Base.{
  ℕ, zero, suc, ◌≡◌, refl, sym, ap, ◌∙◌, List, Option, some, Bool, Bool-cases, inl, inr,
  Option-cases, Result, ok, err, panic, Error,
}
use golang_iothub.Device.Connect as Connect
use golang_iothub.Device.Connect.{Attempts, ConnOption, connect_from, is_retried}
use golang_iothub.Device.Transport.{Transport}
use golang_iothub.Device.Session.{Session, error_of, ignores, connect_loop, stored, connect}

module _ {S C : Type 0} (tp : Transport S C) (creds : C) (s : S) where
  -- The transport behind k attempts, and what the k-th attempt ends with.
  abbrev behind_attempts : ℕ → S
  behind_attempts zero = s
  behind_attempts (suc k) = (tp.connect creds (behind_attempts k)).0

  abbrev pub attempts : Attempts
  attempts = record {
    outcome = λ k. error_of (tp.connect creds (behind_attempts k)).1;
    is_network_error = λ e. tp.is_network_error (some e);
  }

  connect_loop-connect_from :
      (fuel k : ℕ) (ignore : Bool)
      → Option.map (λ r. error_of r.1) (connect_loop tp fuel ignore creds (behind_attempts k))
        ≡ Option.map (λ r. r.1) (connect_from fuel k attempts ignore)
  unfolding connect_loop connect_from
  connect_loop-connect_from zero k ignore = refl
  connect_loop-connect_from (suc fuel) k ignore =
      elim (Bool-cases (is_retried attempts.is_network_error ignore (attempts.outcome k))) [
        | inl e ↦ rw e (connect_loop-connect_from fuel (suc k) ignore)
        | inr e ↦ rw e refl
      ]

module _ {S C : Type 0} (tp : Transport S C) where
  error_of-stored :
      (c : Session S C) (s : S) (r : Result (Unit {0}))
      → error_of (stored tp c (s, r)).1 ≡ error_of r
  unfolding stored
  error_of-stored c s (ok u) = refl
  error_of-stored c s (err e) = refl
  error_of-stored c s panic = refl

  -- A client's `Connect` ends exactly where the loop over the outcomes of its transport's attempts
  -- does, with the same error.
  pub connect-attempts :
      (fuel : ℕ) (opts : List ConnOption) (c : Session S C)
      → Option.map (λ r. error_of r.1) (connect tp fuel opts c)
        ≡ Option.map (λ r. r.1) (Connect.connect fuel (attempts tp c.creds c.tr) opts)
  unfolding connect Connect.connect
  connect-attempts fuel opts c =
      let after : Option (S × Result (Unit {0})) → Option (Option Error) =
        λ o. Option.map (λ r. error_of r.1) (Option.map (stored tp c) o) in
      let ends = connect_loop-connect_from tp c.creds c.tr fuel 0 (ignores opts) in
      elim (Option-cases (connect_loop tp fuel (ignores opts) c.creds c.tr)) [
        | inl e ↦ ap after e ∙ ap (Option.map (λ r. error_of r.1)) (sym e) ∙ ends
        | inr ((s, r), e) ↦
            ap after e
            ∙ ap some (error_of-stored c s r)
            ∙ ap (Option.map (λ r. error_of r.1)) (sym e)
            ∙ ends
      ]
