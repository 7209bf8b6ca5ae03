-- ===== src/Device/Send/Outcome.antt =====
-- What `SendEvent` hands to the transport, and what it returns.
use golang_iothub.Base.{
  ◌≡◌, refl, ◌⊎◌, inl, inr, List, [], ◌∷◌, Option, none, some, Bytes, Result, ok, Error, ◌≢◌,
  Result-cases,
}
use golang_iothub.Common.Message.{Message, empty_message}
use golang_iothub.Device.Send.{SendOption, apply_options, send_event}

abbrev bare : Bytes → Message
bare body = record empty_message { payload = some body }

-- What the body of `SendEvent` does once connected with a payload.
abbrev Delivers : (Message → Result (Unit {0})) → Bytes → List SendOption → Type 0
Delivers send body opts =
    let r = send_event send none (some body) opts in
    ((msg : Message) × (apply_options (bare body) opts ≡ ok msg) × (r ≡ (msg ∷ [], send msg)))
    ⊎ (r.0 ≡ []) × (r.1 ≢ ok tt)

delivers :
    (send : Message → Result (Unit {0})) (body : Bytes) (opts : List SendOption)
    → Delivers send body opts
unfolding send_event
delivers send body opts = elim (Result-cases (apply_options (bare body) opts)) [
  | inl (msg, e) ↦ inl (msg, e, rw (e, send_event))
  | inr (inl (x, e)) ↦ inr (rw (e, send_event), rw (e, send_event) (λ h. cc))
  | inr (inr e) ↦ inr (rw (e, send_event), rw (e, send_event) (λ h. cc))
]

-- `SendEvent` hands one message to the transport, the options applied to the bare payload, and
-- returns what the transport does, if the client is connected, the payload is not nil and every
-- option succeeds. In every other case it hands nothing over, and does not report success.
pub send_event_outcome :
    (send : Message → Result (Unit {0})) (connection : Option Error) (payload : Option Bytes)
    (opts : List SendOption)
    → let r = send_event send connection payload opts in
      ((body : Bytes) × (msg : Message) × (connection ≡ none)
        × (payload ≡ some body)
        × (apply_options (record empty_message { payload = some body }) opts ≡ ok msg)
        × (r ≡ (msg ∷ [], send msg)))
      ⊎ (r.0 ≡ []) × (r.1 ≢ ok tt)
unfolding send_event
send_event_outcome send (some e) payload opts = inr (refl, λ h. cc)
send_event_outcome send none none opts = inr (refl, λ h. cc)
send_event_outcome send none (some body) opts = elim (delivers send body opts) [
  | inl (msg, e, r) ↦ inl (body, msg, refl, refl, e, r)
  | inr refused ↦ inr refused
]
