-- ===== src/Device/Client/Subscriptions.antt =====
-- When a handler is registered, and when the transport is subscribed.
use golang_iothub.Base.{
  ◌≡◌, refl, [], ◌∷◌, ◌++◌, Option, none, some, true, false, Error, Option-cases, subst, sym, ◌∙◌,
  ◌⊎◌, ◌↔◌, Bool, Result, ok, ◌≢◌, inl, inr,
}
use golang_iothub.Device.Mux.Handlers.{Handler}
use golang_iothub.Device.Mux.Messages
use golang_iothub.Device.Mux.States
use golang_iothub.Device.Mux.States.{StateMux}
use golang_iothub.Device.Client.{
  Link, Muxes, once, add_state_handler, subscribe_events, subscribe_twin_updates,
}

-- A mux with handlers is one that the transport serves.
abbrev pub Live : StateMux → Type 0
Live m = m.s ≢ [] → m.on ≡ true

-- What a call that returned the muxes `c'` and the error `e` has done to the muxes `c`.
abbrev Subscribed : Option Handler → Muxes → Muxes → Option Error → Type 0
Subscribed fn c c' e =
    (Live c.tu_mux → Live c'.tu_mux)
    × (e ≡ none
        → (c'.tu_mux.on ≡ true)
          × (h : Handler) × (fn ≡ some h)
          × (c'.tu_mux.s ≡ c.tu_mux.s ++ h ∷ []))
    × ((x : Error) → e ≡ some x → c' ≡ c)

added-Subscribed :
    (r : Option Error) (fn : Option Handler) (c c' : Muxes) (e : Option Error)
    → add_state_handler r fn c ≡ ok (c', e)
    → Subscribed fn c c' e
unfolding add_state_handler States.add
added-Subscribed (some x) fn c c' e h =
    let kept : c ≡ c' = cc h in
    (λ live. subst (λ d. Live d.tu_mux) kept live, λ g. cc (h, g), λ y g. sym kept)
added-Subscribed none none c c' e h = cc
added-Subscribed none (some fn) c c' e h =
    let d : Muxes = record c { tu_mux = record { on = true; s = c.tu_mux.s ++ fn ∷ [] } } in
    let new : d ≡ c' = cc h in
    rw (← new) (λ live some_handler. refl, λ g. (refl, fn, refl, refl), λ y g. cc (h, g))

-- `SubscribeTwinUpdates` keeps it that a mux with handlers is subscribed. If it returns no error
-- the mux is subscribed, and the handler stands behind the others; if it returns one, nothing has
-- changed.
pub subscribe_twin_updates-Live :
    (link : Link) (fn : Option Handler) (c c' : Muxes) (e : Option Error)
    → subscribe_twin_updates link fn c ≡ ok (c', e)
    → (Live c.tu_mux → Live c'.tu_mux)
      × (e ≡ none
          → (c'.tu_mux.on ≡ true)
            × (h : Handler) × (fn ≡ some h)
            × (c'.tu_mux.s ≡ c.tu_mux.s ++ h ∷ []))
      × ((x : Error) → e ≡ some x → c' ≡ c)
unfolding subscribe_twin_updates
subscribe_twin_updates-Live link fn c c' e h = elim (Option-cases link.connection) [
  | inr (x, f) ↦
      added-Subscribed (some x) fn c c' e
        (unfold add_state_handler in rw (subscribe_twin_updates, f) at h)
  | inl f ↦ added-Subscribed _ fn c c' e (rw (subscribe_twin_updates, f) at h)
]

-- What `SubscribeEvents` has done to the muxes `c`, where it returned `c'` and `e`.
abbrev Registered : Link → Option Handler → Muxes → Muxes → Option Error → Type 0
Registered link fn c c' e =
    ((x : Error) → e ≡ some x → (link.connection ≡ some x) × (c' ≡ c))
    × (e ≡ none
        → (h : Handler) × (fn ≡ some h)
          × (c'.cm_mux.s ≡ c.cm_mux.s ++ h ∷ [])
          × ((c'.cm_mux.on ≡ true) ↔ ((c.cm_mux.on ≡ true) ⊎ (link.subscribe_events ≡ none))))

once_on : (on : Bool) (r : Option Error) → ((once on r).0 ≡ true) ↔ ((on ≡ true) ⊎ (r ≡ none))
unfolding once
once_on true r = (λ h. inl refl, λ h. refl)
once_on false none = (λ h. inr refl, λ h. refl)
once_on false (some x) = (λ h. cc, λ h. elim h [ inl e ↦ cc | inr e ↦ cc ])

registered :
    (link : Link) (fn : Option Handler) (c c' : Muxes) (e : Option Error)
    → link.connection ≡ none
    → subscribe_events link fn c ≡ ok (c', e)
    → Registered link fn c c' e
unfolding Messages.add subscribe_events
registered link none c c' e f h = cc (rw (subscribe_events, f) at h)
registered link (some fn) c c' e f h =
    let on = once_on c.cm_mux.on link.subscribe_events in
    let d : Muxes = record c {
      cm_mux = record {
        on = (once c.cm_mux.on link.subscribe_events).0;
        s = c.cm_mux.s ++ fn ∷ [];
      };
    } in
    let made : ◌≡◌ {A = Result (Muxes × Option Error)} (ok (d, none)) (ok (c', e)) =
      rw (subscribe_events, f) at h in
    let new : d ≡ c' = cc made in
    let nil : none ≡ e = cc made in rw (← new) (λ x g. cc (nil, g), λ g. (fn, refl, refl, on))

-- `SubscribeEvents` returns an error only where the client is not connected, and then changes
-- nothing. If it returns none it has put the handler behind the others, whether or not the transport
-- has subscribed: the mux is subscribed exactly if it was, or if the transport has succeeded now.
pub subscribe_events_outcome :
    (link : Link) (fn : Option Handler) (c c' : Muxes) (e : Option Error)
    → subscribe_events link fn c ≡ ok (c', e)
    → ((x : Error) → e ≡ some x → (link.connection ≡ some x) × (c' ≡ c))
      × (e ≡ none
          → (h : Handler) × (fn ≡ some h)
            × (c'.cm_mux.s ≡ c.cm_mux.s ++ h ∷ [])
            × ((c'.cm_mux.on ≡ true) ↔ ((c.cm_mux.on ≡ true) ⊎ (link.subscribe_events ≡ none))))
unfolding subscribe_events
subscribe_events_outcome link fn c c' e h = elim (Option-cases link.connection) [
  | inr (x, f) ↦
      let made : ◌≡◌ {A = Result (Muxes × Option Error)} (ok (c, some x)) (ok (c', e)) =
        rw (subscribe_events, f) at h in
      let kept : c ≡ c' = cc made in
      let same : some x ≡ e = cc made in (λ y g. (f ∙ same ∙ g, sym kept), λ g. cc (same, g))
  | inl f ↦ registered link fn c c' e f h
]
