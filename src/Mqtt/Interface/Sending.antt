-- ===== src/Mqtt/Interface/Sending.antt =====
-- The device client over the MQTT transport, from `Connect` to what is published.
use golang_iothub.Base.{
  ℕ, ℤ, zero, suc, ◌+◌, ◌<◌, ◌≡◌, ◌≢◌, refl, sym, ap, ◌∙◌, inl, inr, List, [], ◌∷◌, ◌++◌, none,
  some, Bool, true, false, Bytes, codes, lookup, Result, ok, arith,
}
use native.Mathlib.Nat.{add-zero}
use mathlib.Core.Option
use golang_iothub.Common.Message.{Message, empty_message}
use golang_iothub.Device.Connect.{ConnOption, is_retried}
use golang_iothub.Device.Options.{DeviceCredentials, device_id}
use golang_iothub.Device.Send.{SendOption, apply_options}
use golang_iothub.Device.Send
use golang_iothub.Device.Session.{
  Session, error_of, ignores, connect_loop, stored, connect, sent, send_event,
}
use golang_iothub.Device.Session.Connecting.{retried_ne}
use golang_iothub.Mqtt.Topics.{Publication, qos_of, options_of, events_prefix, send_message}
use golang_iothub.Mqtt.Topics.Events.{IsSendable, sent_value, send_message_lem}
use golang_iothub.Mqtt.Transport.{Transport}
use golang_iothub.Mqtt.Interface.{Environment, Wire, mqtt, connect_wire, send_wire}
use golang_iothub.Mqtt.Interface.Laws.{connect_wire_cases}
use golang_iothub.Std.Url.RoundTrip.{IsBytes}
use golang_iothub.Std.Url.Query.{Values, parse_query}

handed_one :
    (send : Message → Result (Unit {0})) (body : Bytes) (sending : List SendOption) (msg : Message)
    → apply_options (record empty_message { payload = some body }) sending ≡ ok msg
    → Send.send_event send none (some body) sending ≡ (msg ∷ [], send msg)
unfolding Send.send_event
handed_one send body sending msg made = rw (Send.send_event, made) refl

module _ (env : Environment) where
  -- How the i-th attempt from now ends.
  abbrev pub attempt : DeviceCredentials → Wire → ℕ → Result (Unit {0})
  attempt creds w i = (connect_wire env creds (record w { attempts = w.attempts + i })).1

  abbrev pub is_again : Bool → Result (Unit {0}) → Bool
  is_again ignore r = is_retried (λ e. (mqtt env).is_network_error (some e)) ignore (error_of r)

  -- The transport behind n attempts that failed and one that did not.
  abbrev connected_wire : DeviceCredentials → Wire → ℕ → Wire
  connected_wire creds w n = record w {
    tr = record w.tr { has_conn = true; did = device_id env.provider creds };
    attempts = suc (w.attempts + n);
  }

  made_at :
      (creds : DeviceCredentials) (w : Wire) (tr : Transport)
      → (connect_wire env creds w).0.tr ≡ tr
      → (connect_wire env creds w).0 ≡ record w { tr = tr; attempts = suc w.attempts }
  unfolding connect_wire
  made_at creds w tr e = ap (λ t. record w { tr = t; attempts = suc w.attempts }) e

  now_attempt :
      (creds : DeviceCredentials) (w : Wire) → attempt creds w 0 ≡ (connect_wire env creds w).1
  now_attempt creds w =
      ap (λ k. (connect_wire env creds (record w { attempts = k })).1) (add-zero w.attempts)

  later_attempt :
      (creds : DeviceCredentials) (w : Wire) (i : ℕ)
      → attempt creds (record w { attempts = suc w.attempts }) i ≡ attempt creds w (suc i)
  later_attempt creds w i =
      let e : suc w.attempts + i ≡ w.attempts + suc i = omega arith in
      ap (λ k. (connect_wire env creds (record w { attempts = k })).1) e

  once_ok : (ignore : Bool) → is_again ignore (ok tt) ≡ false
  unfolding is_retried
  once_ok ignore = refl

  made_now :
      (creds : DeviceCredentials) (w : Wire)
      → w.tr.has_conn ≡ false
      → (connect_wire env creds w).1 ≡ ok tt
      → connect_wire env creds w ≡ (connected_wire creds w 0, ok tt)
  made_now creds w off returned = elim (connect_wire_cases env creds w off) [
    | inl (made, _) ↦
        ap (λ r. ((connect_wire env creds w).0, r)) returned
        ∙ ap (λ x. (x, ok tt)) (made_at creds w _ made)
        ∙ ap (λ k. (record (connected_wire creds w 0) { attempts = suc k }, ok tt))
            (sym (add-zero w.attempts))
    | inr (_, failed) ↦ absurd (failed returned)
  ]

  failed_at :
      (creds : DeviceCredentials) (w : Wire)
      → w.tr.has_conn ≡ false
      → (connect_wire env creds w).1 ≢ ok tt
      → (connect_wire env creds w).0 ≡ record w { attempts = suc w.attempts }
  failed_at creds w off failed = elim (connect_wire_cases env creds w off) [
    | inl (_, returned) ↦ absurd (failed returned)
    | inr (kept, _) ↦ made_at creds w w.tr kept
  ]

  connect_loop_lem :
      (n fuel : ℕ) (ignore : Bool) (creds : DeviceCredentials) (w : Wire)
      → w.tr.has_conn ≡ false
      → n < fuel
      → ((i : ℕ) → i < n → is_again ignore (attempt creds w i) ≡ true)
      → attempt creds w n ≡ ok tt
      → connect_loop (mqtt env) fuel ignore creds w ≡ some (connected_wire creds w n, ok tt)
  unfolding connect_loop
  connect_loop_lem n zero ignore creds w off enough before last = absurd (omega arith)
  connect_loop_lem zero (suc fuel) ignore creds w off enough before last =
      let returned : (connect_wire env creds w).1 ≡ ok tt = sym (now_attempt creds w) ∙ last in
      let stays : is_again ignore (connect_wire env creds w).1 ≡ false =
        ap (is_again ignore) returned ∙ once_ok ignore in
      rw stays (ap some (made_now creds w off returned))
  connect_loop_lem (suc n) (suc fuel) ignore creds w off enough before last =
      let first : is_again ignore (connect_wire env creds w).1 ≡ true =
        sym (ap (is_again ignore) (now_attempt creds w)) ∙ before 0 (omega arith) in
      let next : Wire = record w { attempts = suc w.attempts } in
      let kept = failed_at creds w off (retried_ne _ ignore (connect_wire env creds w).1 first) in
      let rest =
        connect_loop_lem n fuel ignore creds next off (omega arith)
          (λ i l. ap (is_again ignore) (later_attempt creds w i) ∙ before (suc i) (omega arith))
          (later_attempt creds w n ∙ last) in
      let count : suc (suc w.attempts + n) ≡ suc (w.attempts + suc n) = omega arith in
      rw first (
        ap (connect_loop (mqtt env) fuel ignore creds) kept
        ∙ rest
        ∙ ap (λ k. some (record (connected_wire creds w n) { attempts = k }, ok tt)) count)

  connect_lem :
      (n fuel : ℕ) (opts : List ConnOption) (c : Session Wire DeviceCredentials)
      → c.tr.tr.has_conn ≡ false
      → n < fuel
      → ((i : ℕ) → i < n → is_again (ignores opts) (attempt c.creds c.tr i) ≡ true)
      → attempt c.creds c.tr n ≡ ok tt
      → connect (mqtt env) fuel opts c
        ≡ some (record c { tr = connected_wire c.creds c.tr n; conn_err = none }, ok tt)
  unfolding connect stored
  connect_lem n fuel opts c off enough before last =
      rw (connect, connect_loop_lem n fuel (ignores opts) c.creds c.tr off enough before last) refl

  -- What a client that is connected publishes of an event.
  send_event_lem :
      (c : Session Wire DeviceCredentials) (body : Bytes) (sending : List SendOption)
      (msg : Message) (p : Publication)
      → c.conn_err ≡ none
      → c.tr.tr.has_conn ≡ true
      → apply_options (record empty_message { payload = some body }) sending ≡ ok msg
      → send_message env.publish env.time true c.tr.tr.did msg ≡ (p ∷ [], env.publish p)
      → send_event (mqtt env) (some body) sending c
        ≡ (record c { tr = record c.tr { published = c.tr.published ++ p ∷ [] } }, env.publish p)
  unfolding send_event sent Send.send_event send_wire
  send_event_lem c body sending msg p fine on made published =
      let over : Bool → List Publication × Result (Unit {0}) =
        λ b. send_message env.publish env.time b c.tr.tr.did msg in
      let e = ap over on ∙ published in
      let handed =
        ap (λ x. Send.send_event (λ m. ((mqtt env).send m c.tr).1) x (some body) sending) fine
        ∙ handed_one (λ m. ((mqtt env).send m c.tr).1) body sending msg made in
      ap (λ h. (record c { tr = sent (mqtt env) h.0 c.tr }, h.1)) handed
      ∙ ap (λ r. (record c { tr = record c.tr { published = c.tr.published ++ r.0 } }, r.1)) e

  -- A client whose transport is not connected, with credentials, connects at the attempt behind n
  -- attempts whose errors it ignores, in n + 1 attempts, if that one succeeds and the fuel is above n.
  -- An event that it then sends, whose options make `msg`, is published once, with the payload of
  -- `msg`, on the topic of the device of the credentials; the query in the topic parses to what `msg`
  -- holds, and to nothing else; and `SendEvent` returns what the MQTT library does. The texts of
  -- `msg` and of the clock are texts of bytes, its properties a map, and its quality of service a
  -- number or none.
  pub connect-send_event :
      (n fuel : ℕ) (opts : List ConnOption) (c : Session Wire DeviceCredentials) (body : Bytes)
      (sending : List SendOption) (msg : Message) (q : ℤ)
      → c.tr.tr.has_conn ≡ false
      → n < fuel
      → ((i : ℕ) → i < n → is_again (ignores opts) (attempt c.creds c.tr i) ≡ true)
      → attempt c.creds c.tr n ≡ ok tt
      → apply_options (record empty_message { payload = some body }) sending ≡ ok msg
      → IsSendable msg
      → ((t : ℕ) → IsBytes (env.time.format t))
      → qos_of (lookup (codes "qos") (options_of msg.transport_options)) ≡ ok q
      → (c' c'' : Session Wire DeviceCredentials) × (p : Publication) × (query : Bytes)
        × (values : Values) × (connect (mqtt env) fuel opts c ≡ some (c', ok tt))
        × (c'.tr.attempts ≡ c.tr.attempts + suc n)
        × (send_event (mqtt env) (some body) sending c' ≡ (c'', env.publish p))
        × (c''.tr.published ≡ c.tr.published ++ p ∷ [])
        × (p.payload ≡ msg.payload)
        × (p.topic ≡ events_prefix (device_id env.provider c.creds) ++ query)
        × (parse_query query ≡ (values, none))
        × ((k : Bytes) → lookup k values ≡ Option.map (λ v. v ∷ []) (sent_value env.time msg k))
  connect-send_event n fuel opts c body sending msg q off enough before last made sendable bytes e =
      let did = device_id env.provider c.creds in
      let (p, query, values, published, payload, topic, parsed, holds) =
        send_message_lem env.publish env.time did msg q sendable bytes e in
      let c' : Session Wire DeviceCredentials = record c {
        tr = connected_wire c.creds c.tr n;
        conn_err = none;
      } in
      (
        c',
        record c' { tr = record c'.tr { published = c.tr.published ++ p ∷ [] } },
        p,
        query,
        values,
        connect_lem n fuel opts c off enough before last,
        omega arith,
        send_event_lem c' body sending msg p refl refl made published,
        refl,
        payload,
        topic,
        parsed,
        holds,
      )
