-- ===== src/Mqtt/Twins/Answers.antt =====
-- From the topic of a response to what the twin request returns.
use golang_iothub.Base.{
  ℕ, ◌^◌, ◌≤◌, ◌<◌, ◌≡◌, refl, ap, ◌∙◌, ◌∷◌, none, some, pos, Bytes, Result, ok, panic, ◌⊎◌, inl,
  inr, Option-cases, arith, update, update_same,
}
use golang_iothub.Std.Url.Query.{Url}
use golang_iothub.Mqtt.Topics.{parse_twin_props_topic}
use golang_iothub.Mqtt.Topics.Responses.{response_topic, parse_twin_props_topic-response_topic}
use golang_iothub.Mqtt.Requests.{
  Resp, Arrival, waiting, leaving, System, move, check_code, Step, receive, Reach, init, number,
}
use golang_iothub.Mqtt.Requests.Own.{check_code_lem}
use golang_iothub.Mqtt.Requests.Routing.{Reach-Fresh, deliver-waiting}
use golang_iothub.Mqtt.Topics.Versions.{versioned_topic, parse_twin_props_topic-versioned_topic}
use golang_iothub.Mqtt.Twins.{on_response, retrieve_twin_properties, update_twin_properties}

-- A run that ends the request of `t`, from the arrival of a message on.
abbrev Answers : (Bytes → Result Url) → Bytes → Bytes → System → ℕ → ℕ → Resp → Type 0
Answers other topic payload s t r x =
    (s' u : System) × (on_response other topic payload s ≡ ok s')
    × Step s' u
    × (u.pcs t ≡ leaving r (ok x))

answered :
    (other : Bytes → Result Url) (topic : Bytes) (s : System) (t r rc ver : ℕ) (payload : Bytes)
    → parse_twin_props_topic other topic ≡ ok (pos rc, pos r, pos ver)
    → Reach init s
    → s.issued < 2 ^ 32
    → s.pcs t ≡ waiting r
    → s.buffer t ≡ none
    → Answers other topic payload s t r (record { code = pos rc; body = payload; ver = pos ver })
unfolding on_response
answered other topic s t r rc ver payload read reach small a b =
    let m : Arrival = record { rc = pos rc; rid = pos r; ver = pos ver; payload = payload } in
    let x : Resp = record { code = pos rc; body = payload; ver = pos ver } in
    let s' : System = record s {
      buffer = update s.buffer t (some x);
      delivered = (r, x) ∷ s.delivered;
    } in
    let u : System = record (move s' t (leaving r (check_code x))) {
      buffer = update s'.buffer t none;
    } in
    (
      s',
      u,
      rw (on_response, read) ((deliver-waiting t r m reach small a refl).1 b),
      receive t r x a (update_same s.buffer t (some x)) refl,
      update_same s.pcs t (leaving r (check_code x)) ∙ ap (leaving r) (check_code_lem x),
    )

-- The number of a request fits, while the counter has not wrapped.
small_number :
    (s : System) (t r : ℕ) → Reach init s → s.issued < 2 ^ 32 → s.pcs t ≡ waiting r → r < 2 ^ 63
small_number s t r reach small a =
    let known : r ≤ s.issued = (Reach-Fresh reach small).bounded t r (ap number a) in omega arith

-- A message under the number of a request whose channel is full makes the handler panic.
full_panics :
    (other : Bytes → Result Url) (topic : Bytes) (s : System) (t r rc ver : ℕ) (payload : Bytes)
    (y : Resp)
    → parse_twin_props_topic other topic ≡ ok (pos rc, pos r, pos ver)
    → Reach init s
    → s.issued < 2 ^ 32
    → s.pcs t ≡ waiting r
    → s.buffer t ≡ some y
    → on_response other topic payload s ≡ panic
unfolding on_response
full_panics other topic s t r rc ver payload y read reach small a b =
    let m : Arrival = record { rc = pos rc; rid = pos r; ver = pos ver; payload = payload } in
    rw (on_response, read) ((deliver-waiting t r m reach small a refl).2 y b)

-- While fewer than 2^32 requests were made, of a message on the topic that is documented for the
-- response to a request that waits, with any status code: if the channel of the request is empty, the
-- handler takes the message, and lets the request end with `RetrieveTwinProperties` returning its
-- payload; if a response stands in the channel already, the handler panics.
pub retrieve_twin_properties-on_response :
    (other : Bytes → Result Url) (s : System) (t r rc : ℕ) (payload : Bytes)
    → Reach init s
    → s.issued < 2 ^ 32
    → s.pcs t ≡ waiting r
    → rc < 2 ^ 63
    → ((s.buffer t ≡ none)
        × (s' u : System) × (o : Result Resp) × (on_response other (response_topic rc r) payload s
            ≡ ok s')
        × Step s' u
        × (u.pcs t ≡ leaving r o)
        × (retrieve_twin_properties o ≡ ok payload))
      ⊎ ((y : Resp) × (s.buffer t ≡ some y)
          × (on_response other (response_topic rc r) payload s ≡ panic))
unfolding retrieve_twin_properties
retrieve_twin_properties-on_response other s t r rc payload reach small a fits =
    let topic =
      parse_twin_props_topic-response_topic other rc r fits (small_number s t r reach small a) in
    elim (Option-cases (s.buffer t)) [
      | inl b ↦
          let (s', u, taken, p, e) =
            answered other (response_topic rc r) s t r rc 0 payload topic reach small a b in
          inl (b, s', u, _, taken, p, e, refl)
      | inr (y, b) ↦
          inr (
            y,
            b,
            full_panics other (response_topic rc r) s t r rc 0 payload y topic reach small a b,
          )
    ]

-- The same of the topic that is documented for the response to an update, while the channel of the
-- request is empty: it ends with `UpdateTwinProperties` returning the version in the topic.
update_twin_properties-on_response :
    (other : Bytes → Result Url) (s : System) (t r rc ver : ℕ) (payload : Bytes)
    → Reach init s
    → s.issued < 2 ^ 32
    → s.pcs t ≡ waiting r
    → s.buffer t ≡ none
    → rc < 2 ^ 63
    → ver < 2 ^ 63
    → (s' u : System) × (o : Result Resp) × (on_response other (versioned_topic rc r ver) payload s
        ≡ ok s')
      × Step s' u
      × (u.pcs t ≡ leaving r o)
      × (update_twin_properties o ≡ ok (pos ver))
unfolding update_twin_properties
update_twin_properties-on_response other s t r rc ver payload reach small a b fits ver_fits =
    let topic =
      parse_twin_props_topic-versioned_topic other rc r ver fits (small_number s t r reach small a)
        ver_fits in
    let (s', u, taken, p, e) =
      answered other (versioned_topic rc r ver) s t r rc ver payload topic reach small a b in
    (s', u, _, taken, p, e, refl)
