-- ===== src/Device/Session/Connecting.antt =====
-- A client before, behind and between its calls of `Connect`, over any transport of the interface.
use golang_iothub.Base.{
  ℕ, zero, suc, ◌≡◌, ◌≢◌, refl, sym, ap, ◌∙◌, ◌⊎◌, inl, inr, List, Option, none, some, Bool, true,
  false, Bool-cases, Option-cases, Bytes, Result, ok, err, panic, Error,
}
use golang_iothub.Common.Message.{Message}
use golang_iothub.Device.Connect.{ConnOption, is_retried}
use golang_iothub.Device.Send.{SendOption}
use golang_iothub.Device.Send
use golang_iothub.Device.Send.Outcome.{send_event_outcome}
use golang_iothub.Device.Transport.{Transport, IsTransport}
use golang_iothub.Device.Session.{
  Session, error_of, ignores, connect_loop, stored, connect, sent, send_event,
}

-- What is known of an outcome where it was not retried, or was.
pub retried_ne :
    (net : Error → Bool) (ignore : Bool) (r : Result (Unit {0}))
    → is_retried net ignore (error_of r) ≡ true
    → r ≢ ok tt
unfolding is_retried
retried_ne net ignore (ok tt) e h = cc
retried_ne net ignore (err x) e h = cc
retried_ne net ignore panic e h = cc

not_retried :
    (net : Error → Bool) (ignore : Bool) (e : Error)
    → net e ≡ false
    → is_retried net ignore (some e) ≡ false
unfolding is_retried
not_retried net false e h = refl
not_retried net true e h = h

returned_nil : (r : Result (Unit {0})) → (r ≡ ok tt) ⊎ (r ≢ ok tt)
returned_nil (ok tt) = inl refl
returned_nil (err e) = inr (λ h. cc)
returned_nil panic = inr (λ h. cc)

module _ {S C : Type 0} (tp : Transport S C) (is_connected : S → Bool)
    (laws : IsTransport S C tp is_connected) where
  abbrev net : Error → Bool
  net e = tp.is_network_error (some e)

  -- The outcome of a loop that starts unconnected.
  connect_loop_outcome :
      (fuel : ℕ) (ignore : Bool) (creds : C) (s s' : S) (r : Result (Unit {0}))
      → is_connected s ≡ false
      → connect_loop tp fuel ignore creds s ≡ some (s', r)
      → (r ≡ ok tt) × (is_connected s' ≡ true) ⊎ (r ≢ ok tt) × (is_connected s' ≡ false)
  unfolding connect_loop
  connect_loop_outcome zero ignore creds s s' r off h = cc
  connect_loop_outcome (suc fuel) ignore creds s s' r off h =
      let made = tp.connect creds s in
      let again = connect_loop_outcome fuel ignore creds made.0 s' r in
      elim (Bool-cases (is_retried net ignore (error_of made.1))) [
        | inl e ↦
            again (laws.connect_failed creds s off (retried_ne net ignore made.1 e)) (rw e at h)
        | inr e ↦
            let last : made ≡ (s', r) = cc (rw e at h) in
            let back : is_connected s' ≡ is_connected made.0 =
              sym (ap (λ m. is_connected m.0) last) in
            elim (returned_nil made.1) [
              | inl f ↦ inl (sym (ap (λ m. m.1) last) ∙ f, back ∙ laws.connect_ok creds s f)
              | inr f ↦
                  inr (λ g. f (ap (λ m. m.1) last ∙ g), back ∙ laws.connect_failed creds s off f)
            ]
      ]

  -- An unconnected client sends nothing.
  send_event-off :
      (c : Session S C) (payload : Option Bytes) (opts : List SendOption)
      → is_connected c.tr ≡ false
      → ((send_event tp payload opts c).0.tr ≡ c.tr) × ((send_event tp payload opts c).1 ≢ ok tt)
  unfolding send_event sent
  send_event-off c payload opts off =
      let send : Message → Result (Unit {0}) = λ m. (tp.send m c.tr).1 in
      elim (send_event_outcome send c.conn_err payload opts) [
        | inl (body, msg, _, _, _, e) ↦
            let (kept, failed) = laws.send_unconnected msg c.tr off in
            (ap (λ r. sent tp r.0 c.tr) e ∙ kept, λ h. failed (sym (ap (λ r. r.1) e) ∙ h))
        | inr (nothing, failed) ↦ (ap (λ ms. sent tp ms c.tr) nothing, failed)
      ]

  stored-tr :
      (c : Session S C) (s : S) (r : Result (Unit {0}))
      → ((stored tp c (s, r)).0.tr ≡ s) × ((stored tp c (s, r)).1 ≡ r)
  unfolding stored
  stored-tr c s (ok u) = (refl, refl)
  stored-tr c s (err e) = (refl, refl)
  stored-tr c s panic = (refl, refl)

  stored-ok :
      (c : Session S C) (s : S) (r : Result (Unit {0}))
      → r ≡ ok tt
      → (stored tp c (s, r)).0.conn_err ≡ none
  unfolding stored
  stored-ok c s (ok u) h = refl
  stored-ok c s (err e) h = cc
  stored-ok c s panic h = cc

  connect_made :
      (fuel : ℕ) (opts : List ConnOption) (c c' : Session S C) (r : Result (Unit {0}))
      → connect tp fuel opts c ≡ some (c', r)
      → (s : S) × (ignore : Bool) × (connect_loop tp fuel ignore c.creds c.tr ≡ some (s, r))
        × (stored tp c (s, r) ≡ (c', r))
  unfolding connect
  connect_made fuel opts c c' r h =
      let ignore = ignores opts in
      elim (Option-cases (connect_loop tp fuel ignore c.creds c.tr)) [
        | inl e ↦ cc (rw (connect, e) at h)
        | inr ((s, q), e) ↦
            let kept : stored tp c (s, q) ≡ (c', r) = cc (rw (connect, e) at h) in
            let same : q ≡ r = sym (stored-tr c s q).1 ∙ ap (λ x. x.1) kept in
            (
              s,
              ignore,
              e ∙ ap (λ r. some (s, r)) same,
              sym (ap (λ r. stored tp c (s, r)) same) ∙ kept,
            )
      ]

  -- Over a transport with the laws of `IsTransport`, and from a client that is not connected: a
  -- `Connect` that returns nil leaves it connected, with no error stored; behind any other return it
  -- is not connected, and `SendEvent` leaves the transport as it is and does not return nil.
  pub connect_outcome :
      (fuel : ℕ) (opts : List ConnOption) (c c' : Session S C) (r : Result (Unit {0}))
      → is_connected c.tr ≡ false
      → connect tp fuel opts c ≡ some (c', r)
      → (r ≡ ok tt) × (is_connected c'.tr ≡ true) × (c'.conn_err ≡ none)
        ⊎ (r ≢ ok tt)
          × (is_connected c'.tr ≡ false)
          × ((payload : Option Bytes) (sending : List SendOption)
              → ((send_event tp payload sending c').0.tr ≡ c'.tr)
                × ((send_event tp payload sending c').1 ≢ ok tt))
  connect_outcome fuel opts c c' r off h =
      let (s, ignore, made, kept) = connect_made fuel opts c c' r h in
      let state : c'.tr ≡ s = sym (ap (λ x. x.0.tr) kept) ∙ (stored-tr c s r).0 in
      elim (connect_loop_outcome fuel ignore c.creds c.tr s r off made) [
        | inl (returned, on) ↦ inl (
          returned,
          ap is_connected state ∙ on,
          sym (ap (λ x. x.0.conn_err) kept) ∙ stored-ok c s r returned,
        )
        | inr (failed, still) ↦
            let off' : is_connected c'.tr ≡ false = ap is_connected state ∙ still in
            inr (failed, off', λ payload sending. send_event-off c' payload sending off')
      ]

  refused :
      (c : Session S C) (e : Error) (payload : Option Bytes) (opts : List SendOption)
      → c.conn_err ≡ some e
      → (send_event tp payload opts c ≡ (c, err e))
  unfolding send_event sent Send.send_event
  refused c e payload opts h = rw h refl

  connect_loop_refused :
      (fuel : ℕ) (ignore : Bool) (creds : C) (s : S)
      → is_connected s ≡ true
      → tp.is_network_error (some Error.already_connected) ≡ false
      → connect_loop tp (suc fuel) ignore creds s
        ≡ some ((tp.connect creds s).0, err Error.already_connected)
  unfolding connect_loop
  connect_loop_refused fuel ignore creds s on other =
      let e = (laws.connect_again creds s on).0 in
      let left : is_retried net ignore (error_of (tp.connect creds s).1) ≡ false =
        ap (λ r. is_retried net ignore (error_of r)) e
        ∙ not_retried net ignore Error.already_connected other in
      rw left (ap (λ r. some ((tp.connect creds s).0, r)) e)

  -- Over a transport with the laws of `IsTransport`, a `Connect` of a client that is connected
  -- fails, if the transport's refusal is no network error, and leaves the transport connected; from
  -- then on `SendEvent` hands nothing to the transport and returns that error.
  pub connect_again_breaks :
      (fuel : ℕ) (opts : List ConnOption) (c : Session S C)
      → is_connected c.tr ≡ true
      → tp.is_network_error (some Error.already_connected) ≡ false
      → (c' : Session S C) × (connect tp (suc fuel) opts c ≡ some (c', err Error.already_connected))
        × (is_connected c'.tr ≡ true)
        × ((payload : Option Bytes) (sending : List SendOption)
            → send_event tp payload sending c' ≡ (c', err Error.already_connected))
  unfolding connect
  connect_again_breaks fuel opts c on other =
      let ignore = ignores opts in
      let s = (tp.connect c.creds c.tr).0 in
      (
        record c { tr = s; conn_err = some Error.already_connected },
        rw (connect, connect_loop_refused fuel ignore c.creds c.tr on other)
            (unfold stored in refl),
        (laws.connect_again c.creds c.tr on).1,
        λ payload sending.
            refused (record c { tr = s; conn_err = some Error.already_connected })
              Error.already_connected payload sending refl,
      )
