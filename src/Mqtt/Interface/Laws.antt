-- ===== src/Mqtt/Interface/Laws.antt =====
-- The MQTT transport keeps the laws of the interface.
use golang_iothub.Base.{ℤ}
use golang_iothub.Base.{
  ℕ, ◌≡◌, ◌≢◌, refl, ap, sym, ◌∙◌, suc, codes, lookup, ◌⊎◌, inl, inr, List, [], ◌++◌, append-nil,
  Option, Bool, true, false, Bool-cases, ◌&&◌, Bytes, Result, ok, err, panic, Error, if◌then◌else◌,
  Option-cases,
}
use golang_iothub.Common.Message.{Message}
use golang_iothub.Common.Sas.{Crypto}
use golang_iothub.Device.Options.{Provider, DeviceCredentials, device_id}
use golang_iothub.Device.Transport.{IsTransport}
use golang_iothub.Mqtt.Topics.{
  Publication, send_message, send_with, send, event_topic, qos_of, options_of,
}
use golang_iothub.Mqtt.Transport.{
  Transport, ClientOptions, client_options, connect_transport, close_transport, dialled,
  password_of,
}
use golang_iothub.Mqtt.Interface.{Environment, Wire, mqtt, connect_wire, send_wire, close_wire}

-- A dial that succeeds sets the connection and the device's id; any other leaves the transport.
dialled_cases :
    (dial : ClientOptions → Option Error) (p : Provider) (creds : DeviceCredentials)
    (tr : Transport) (pwd : Result (Option Bytes))
    → let r = dialled dial p creds tr pwd in
      (r ≡ (record tr { has_conn = true; did = device_id p creds }, ok tt))
      ⊎ (r.0 ≡ tr) × (r.1 ≢ ok tt)
unfolding dialled
dialled_cases dial p creds tr (err e) = inr (refl, λ h. cc)
dialled_cases dial p creds tr panic = inr (refl, λ h. cc)
dialled_cases dial p creds tr (ok pwd) = elim (Option-cases (dial (client_options p creds pwd))) [
  | inl e ↦ inl (rw (dialled, e) refl)
  | inr (x, e) ↦ inr (rw (dialled, e) refl, rw (dialled, e) (λ h. cc))
]

connect_transport-off :
    (dial : ClientOptions → Option Error) (crypto : Crypto) (clock : ℕ) (p : Provider)
    (creds : DeviceCredentials) (tr : Transport)
    → tr.has_conn ≡ false
    → connect_transport dial crypto clock p creds tr
      ≡ dialled dial p creds tr (password_of crypto clock p creds)
unfolding connect_transport
connect_transport-off dial crypto clock p creds tr off =
    ap
      (λ b.
        if b
        then (tr, err Error.already_connected)
        else dialled dial p creds tr (password_of crypto clock p creds))
      off

connect_transport-on :
    (dial : ClientOptions → Option Error) (crypto : Crypto) (clock : ℕ) (p : Provider)
    (creds : DeviceCredentials) (tr : Transport)
    → tr.has_conn ≡ true
    → connect_transport dial crypto clock p creds tr ≡ (tr, err Error.already_connected)
unfolding connect_transport
connect_transport-on dial crypto clock p creds tr on =
    ap
      (λ b.
        if b
        then (tr, err Error.already_connected)
        else dialled dial p creds tr (password_of crypto clock p creds))
      on

-- A transport that is not connected becomes connected exactly by a `Connect` that returns nil.
pub connect_wire_cases :
    (env : Environment) (creds : DeviceCredentials) (w : Wire)
    → w.tr.has_conn ≡ false
    → let r = connect_wire env creds w in
      (r.0.tr ≡ record w.tr { has_conn = true; did = device_id env.provider creds }) × (r.1 ≡ ok tt)
      ⊎ (r.0.tr ≡ w.tr) × (r.1 ≢ ok tt)
unfolding connect_wire
connect_wire_cases env creds w off =
    let dial = env.dial w.attempts in
    let now = env.now w.attempts in
    let made = connect_transport-off dial env.crypto now env.provider creds w.tr off in
    elim (dialled_cases dial env.provider creds w.tr
      (password_of env.crypto now env.provider creds)) [
        | inl e ↦ inl (ap (λ r. r.0) (made ∙ e), ap (λ r. r.1) (made ∙ e))
        | inr (kept, failed) ↦
            inr (ap (λ r. r.0) made ∙ kept, λ h. failed (sym (ap (λ r. r.1) made) ∙ h))
      ]

pub connect_wire-on :
    (env : Environment) (creds : DeviceCredentials) (w : Wire)
    → w.tr.has_conn ≡ true
    → connect_wire env creds w
      ≡ (record w { attempts = suc w.attempts }, err Error.already_connected)
unfolding connect_wire
connect_wire-on env creds w on =
    ap (λ r. (record w { tr = r.0; attempts = suc w.attempts }, r.1))
      (connect_transport-on (env.dial w.attempts) env.crypto (env.now w.attempts) env.provider creds
        w.tr on)

send_with-off :
    (publish : Publication → Result (Unit {0})) (topic : Bytes) (payload : Option Bytes)
    (q : Result ℤ)
    → let r = send_with publish false topic payload q in (r.0 ≡ []) × (r.1 ≢ ok tt)
unfolding send_with send
send_with-off publish topic payload (ok n) = (refl, λ h. cc)
send_with-off publish topic payload (err e) = (refl, λ h. cc)
send_with-off publish topic payload panic = (refl, λ h. cc)

send_unconnected :
    (env : Environment) (msg : Message) (w : Wire)
    → w.tr.has_conn ≡ false
    → ((send_wire env msg w).0 ≡ w) × ((send_wire env msg w).1 ≢ ok tt)
unfolding send_wire send_message
send_unconnected env msg w off =
    let q = qos_of (lookup (codes "qos") (options_of msg.transport_options)) in
    let topic = event_topic env.time w.tr.did msg in
    let r : Bool → List Publication × Result (Unit {0}) =
      λ b. send_with env.publish b topic msg.payload q in
    let (nothing, failed) = send_with-off env.publish topic msg.payload q in
    (
      ap (λ b. record w { published = w.published ++ (r b).0 }) off
          ∙ ap (λ ps. record w { published = w.published ++ ps }) nothing
          ∙ ap (λ ps. record w { published = ps }) (append-nil w.published),
      λ h. failed (sym (ap (λ b. (r b).1) off) ∙ h),
    )

close_transport-done :
    (c : Bool) (tr : Transport) → tr.is_done ≡ true → close_transport c tr ≡ (tr, false)
unfolding close_transport
close_transport-done c tr done =
    let closed : Bool → Transport × Bool =
      λ b. if b then (tr, false) else (record tr { is_done = true }, tr.has_conn && c) in
    ap closed done

done-close_transport : (c : Bool) (tr : Transport) → (close_transport c tr).0.is_done ≡ true
unfolding close_transport
done-close_transport c tr = elim (Bool-cases tr.is_done) [
  | inl e ↦ rw (close_transport, e) refl
  | inr e ↦ rw (close_transport, e) refl
]

close_wire-close_wire :
    (env : Environment) (w : Wire)
    → close_wire env (close_wire env w).0 ≡ ((close_wire env w).0, ok tt)
unfolding close_wire
close_wire-close_wire env w =
    let again : Wire = (close_wire env w).0 in
    ap
      (λ r. (
        record again {
          tr = r.0;
          disconnects = if r.1 then suc again.disconnects else again.disconnects;
        },
        ok tt,
      ))
      (close_transport-done env.is_connected (close_transport env.is_connected w.tr).0
        (done-close_transport env.is_connected w.tr))

already_ne : (e : Error) (r : Result (Unit {0})) → r ≡ err e → r ≢ ok tt
already_ne e r h k = cc

-- The MQTT transport is a transport of the device client: while `tr.conn` is set it refuses to
-- connect; `Connect` sets it exactly where it returns nil; `Send` changes nothing and does not
-- return nil before that, and never changes whether it is set; a second `Close` does nothing.
pub mqtt-IsTransport :
    (env : Environment) → IsTransport Wire DeviceCredentials (mqtt env) (λ w. w.tr.has_conn)
unfolding send_wire
mqtt-IsTransport env = record {
  connect_again = λ creds w on.
      let r = connect_wire-on env creds w on in (ap (λ r. r.1) r, ap (λ r. r.0.tr.has_conn) r ∙ on);
  connect_ok = λ creds w h. elim (Bool-cases w.tr.has_conn) [
    | inl on ↦ absurd (
        already_ne Error.already_connected (connect_wire env creds w).1
          (ap (λ r. r.1) (connect_wire-on env creds w on)) h)
    | inr off ↦ elim (connect_wire_cases env creds w off) [
      | inl (made, _) ↦ ap (λ tr. tr.has_conn) made
      | inr (_, failed) ↦ absurd (failed h)
    ]
  ];
  connect_failed = λ creds w off failed. elim (connect_wire_cases env creds w off) [
    | inl (_, h) ↦ absurd (failed h)
    | inr (kept, _) ↦ ap (λ tr. tr.has_conn) kept ∙ off
  ];
  send_unconnected = λ msg w off. send_unconnected env msg w off;
  send_keeps = λ msg w. refl;
  close_twice = λ w. close_wire-close_wire env w;
}
