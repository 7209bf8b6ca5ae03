-- ===== src/Device/Tests/Clients.antt =====
-- Subscribing at concrete muxes.
use golang_iothub.Base.{
  ◌≡◌, refl, [], ◌∷◌, ◌++◌, Option, none, some, true, false, ok, Error, pos, ◌↔◌, ◌⊎◌,
}
use golang_iothub.Device.Mux.Handlers.{Handler}
use golang_iothub.Device.Mux.Messages
use golang_iothub.Device.Mux.States
use golang_iothub.Device.Mux.Methods
use golang_iothub.Device.Client.{
  Link, Muxes, once, add_state_handler, subscribe_events, subscribe_twin_updates,
}
use golang_iothub.Device.Client.Subscriptions.{
  Live, subscribe_twin_updates-Live, subscribe_events_outcome,
}

-- The transport subscribes twin updates, and fails to subscribe events.
abbrev link : Link
link = record {
  connection = none;
  subscribe_events = some Error.context_done;
  subscribe_twin_updates = none;
  register_direct_methods = none;
  retrieve_twin_properties = ok [];
  update_twin_properties = λ b. ok (pos 1);
}

abbrev fresh : Muxes
fresh = record {
  cm_mux = Messages.empty_mux;
  tu_mux = record { on = false; s = [] };
  dm_mux = Methods.empty_mux;
}

abbrev handler : Handler
handler = record { code = 1; closure = 0 }

abbrev subscribed : Muxes
subscribed = record fresh { tu_mux = record { on = true; s = handler ∷ [] } }

subscribe_twin_updates-Live_example :
    (Live fresh.tu_mux → Live subscribed.tu_mux)
    × (◌≡◌ {A = Option Error} none none
        → (subscribed.tu_mux.on ≡ true)
          × (h : Handler) × (some handler ≡ some h)
          × (subscribed.tu_mux.s ≡ fresh.tu_mux.s ++ h ∷ []))
    × ((x : Error) → none ≡ some x → subscribed ≡ fresh)
unfolding subscribe_twin_updates add_state_handler once States.add
subscribe_twin_updates-Live_example =
    subscribe_twin_updates-Live link (some handler) fresh subscribed none refl

-- The handler is registered, and the transport has not subscribed.
abbrev deaf : Muxes
deaf = record fresh { cm_mux = record { on = false; s = handler ∷ [] } }

subscribe_events_outcome_example :
    ((x : Error) → none ≡ some x → (link.connection ≡ some x) × (deaf ≡ fresh))
    × (◌≡◌ {A = Option Error} none none
        → (h : Handler) × (some handler ≡ some h)
          × (deaf.cm_mux.s ≡ fresh.cm_mux.s ++ h ∷ [])
          × ((deaf.cm_mux.on ≡ true) ↔ ((fresh.cm_mux.on ≡ true) ⊎ (link.subscribe_events ≡ none))))
unfolding subscribe_events once Messages.add
subscribe_events_outcome_example = subscribe_events_outcome link (some handler) fresh deaf none refl
