-- ===== src/Mqtt/Topics/Events.antt =====
-- The topics of device-to-cloud messages, and what is read from them.
use mathlib.Core.Option
use golang_iothub.Base.{
  ℕ, ℤ, ◌≡◌, refl, ap, subst, ◌∙◌, [], ◌∷◌, ◌++◌, Option, none, some, true, false, arith, Bytes,
  codes, Dict, lookup, insert, lookup-insert, same, same_iff, Distinct, Bool-cases, inl, inr,
  if◌then◌else◌, ◌==◌, Result, ok,
}
use golang_iothub.Common.Message.{Message}
use golang_iothub.Std.Url.RoundTrip.{IsBytes}
use golang_iothub.Std.Url.Query.{Values, parse_query, encode_query}
use golang_iothub.Std.Url.Encoding.{AreBytes, parse_query-encode_query}
use golang_iothub.Mqtt.Topics.{
  Clock, put_text, put_expiry, put_all, properties_of, topic_values, events_prefix, event_topic,
  send_message, Publication, qos_of, options_of,
}

abbrev or_else : Option Bytes → Option Bytes → Option Bytes
or_else none later = later
or_else (some v) later = some v

-- An attribute that is not blank, under its key.
abbrev held : Bytes → Bytes → Bytes → Option Bytes
held key [] k = none
held key (c ∷ v) k = if same key k then some (c ∷ v) else none

abbrev held_expiry : Clock → Option ℕ → Bytes → Option Bytes
held_expiry clock none k = none
held_expiry clock (some t) k =
    if t == 0 then none else (if same (codes "$.exp") k then some (clock.format t) else none)

-- What the topic of a message holds under a key: the property, or else the attribute.
pub sent_value : Clock → Message → Bytes → Option Bytes
sent_value clock msg k = or_else (lookup k (properties_of msg.properties)) (
    or_else (held_expiry clock msg.expiry_time k) (
      or_else (held (codes "$.to") msg.to k) (
        or_else (held (codes "$.uid") msg.user_id k) (
          or_else (held (codes "$.cid") msg.correlation_id k)
            (held (codes "$.mid") msg.message_id k)))))

lookup-put_text :
    (key v k : Bytes) (u : Dict Bytes)
    → lookup k (put_text key v u) ≡ or_else (held key v k) (lookup k u)
unfolding put_text
lookup-put_text key [] k u = refl
lookup-put_text key (c ∷ v) k u = elim (Bool-cases (same key k)) [
  | inl e ↦ lookup-insert key k (c ∷ v) u ∙ rw e refl
  | inr e ↦ lookup-insert key k (c ∷ v) u ∙ rw e refl
]

lookup-put_expiry :
    (clock : Clock) (t : Option ℕ) (k : Bytes) (u : Dict Bytes)
    → lookup k (put_expiry clock t u) ≡ or_else (held_expiry clock t k) (lookup k u)
unfolding put_expiry
lookup-put_expiry clock none k u = refl
lookup-put_expiry clock (some t) k u = elim (Bool-cases (t == 0)) [
  | inl e ↦ rw e refl
  | inr e ↦ elim (Bool-cases (same (codes "$.exp") k)) [
    | inl h ↦ rw e (lookup-insert (codes "$.exp") k (clock.format t) u ∙ rw h refl)
    | inr h ↦ rw e (lookup-insert (codes "$.exp") k (clock.format t) u ∙ rw h refl)
  ]
]

lookup-put_all :
    (ps u : Dict Bytes) (k : Bytes)
    → Distinct ps
    → lookup k (put_all ps u) ≡ or_else (lookup k ps) (lookup k u)
unfolding put_all lookup
lookup-put_all [] u k d = refl
lookup-put_all ((j, v) ∷ ps) u k (n, d) =
    let rest = lookup-put_all ps (insert j v u) k d in
    elim (Bool-cases (same j k)) [
      | inl e ↦
          let absent : lookup k ps ≡ none =
            subst (λ x. lookup x ps ≡ none) ((same_iff j k).0 e) n in
          rest ∙ rw (absent, lookup-insert j k v u, e) refl
      | inr e ↦ rest ∙ rw (lookup-insert j k v u, e) refl
    ]

or_else-nil : (o : Option Bytes) (k : Bytes) → or_else o (lookup k []) ≡ o
unfolding lookup
or_else-nil none k = refl
or_else-nil (some v) k = refl

lookup-topic_values :
    (clock : Clock) (msg : Message) (k : Bytes)
    → Distinct (properties_of msg.properties)
    → lookup k (topic_values clock msg) ≡ sent_value clock msg k
unfolding topic_values sent_value
lookup-topic_values clock msg k d =
    rw
      (
        lookup-put_all (properties_of msg.properties) _ k d,
        lookup-put_expiry clock msg.expiry_time k _,
        lookup-put_text (codes "$.to") msg.to k _,
        lookup-put_text (codes "$.uid") msg.user_id k _,
        lookup-put_text (codes "$.cid") msg.correlation_id k _,
        lookup-put_text (codes "$.mid") msg.message_id k [],
        or_else-nil (held (codes "$.mid") msg.message_id k) k,
      )
      refl

-- A Go map stays one, and its texts stay bytes.
record IsValues (u : Dict Bytes) : Type 0 where
  distinct : Distinct u
  bytes : AreBytes u

Distinct-insert : (key v : Bytes) (u : Dict Bytes) → Distinct u → Distinct (insert key v u)
unfolding insert lookup
Distinct-insert key v [] d = (refl, tt)
Distinct-insert key v ((j, w) ∷ u) (n, d) = elim (Bool-cases (same j key)) [
  | inl e ↦ rw e (n, d)
  | inr e ↦
      let other : same key j ≡ false = ground (arith, same_iff j key, same_iff key j) in
      let absent : lookup j (insert key v u) ≡ none =
        unfold lookup in lookup-insert key j v u ∙ rw other n in
      rw e (absent, Distinct-insert key v u d)
]

AreBytes-insert :
    (key v : Bytes) (u : Dict Bytes)
    → IsBytes key
    → IsBytes v
    → AreBytes u
    → AreBytes (insert key v u)
unfolding insert
AreBytes-insert key v [] h k b = ((h, k), tt)
AreBytes-insert key v ((j, w) ∷ u) h k (b, bs) = elim (Bool-cases (same j key)) [
  | inl e ↦ rw e ((b.0, k), bs)
  | inr e ↦ rw e (b, AreBytes-insert key v u h k bs)
]

IsValues-insert :
    (key v : Bytes) (u : Dict Bytes)
    → IsBytes key
    → IsBytes v
    → IsValues u
    → IsValues (insert key v u)
IsValues-insert key v u h k i = record {
  distinct = Distinct-insert key v u i.distinct;
  bytes = AreBytes-insert key v u h k i.bytes;
}

IsValues-put_text :
    (key v : Bytes) (u : Dict Bytes)
    → IsBytes key
    → IsBytes v
    → IsValues u
    → IsValues (put_text key v u)
unfolding put_text
IsValues-put_text key [] u h k i = i
IsValues-put_text key (c ∷ v) u h k i = IsValues-insert key (c ∷ v) u h k i

IsValues-put_expiry :
    (clock : Clock) (t : Option ℕ) (u : Dict Bytes)
    → ((t : ℕ) → IsBytes (clock.format t))
    → IsValues u
    → IsValues (put_expiry clock t u)
unfolding put_expiry
IsValues-put_expiry clock none u h i = i
IsValues-put_expiry clock (some t) u h i = elim (Bool-cases (t == 0)) [
  | inl e ↦ rw e i
  | inr e ↦ rw e (IsValues-insert (codes "$.exp") (clock.format t) u (omega arith) (h t) i)
]

IsValues-put_all : (ps u : Dict Bytes) → AreBytes ps → IsValues u → IsValues (put_all ps u)
unfolding put_all
IsValues-put_all [] u b i = i
IsValues-put_all ((k, v) ∷ ps) u (b, bs) i =
    IsValues-put_all ps (insert k v u) bs (IsValues-insert k v u b.0 b.1 i)

-- A message whose texts are texts of bytes and whose properties are a map.
pub record IsSendable (msg : Message) : Type 0 where
  pub properties : Distinct (properties_of msg.properties) × AreBytes (properties_of msg.properties)
  pub message_id : IsBytes msg.message_id
  pub correlation_id : IsBytes msg.correlation_id
  pub user_id : IsBytes msg.user_id
  pub to : IsBytes msg.to

topic_values-IsValues :
    (clock : Clock) (msg : Message)
    → IsSendable msg
    → ((t : ℕ) → IsBytes (clock.format t))
    → IsValues (topic_values clock msg)
unfolding topic_values
topic_values-IsValues clock msg s h =
    let none_yet : IsValues [] = record { distinct = tt; bytes = tt } in
    let mid =
      IsValues-put_text (codes "$.mid") msg.message_id [] (omega arith) s.message_id none_yet in
    let cid =
      IsValues-put_text (codes "$.cid") msg.correlation_id _ (omega arith) s.correlation_id mid in
    let uid = IsValues-put_text (codes "$.uid") msg.user_id _ (omega arith) s.user_id cid in
    let to = IsValues-put_text (codes "$.to") msg.to _ (omega arith) s.to uid in
    IsValues-put_all (properties_of msg.properties) _ s.properties.1
      (IsValues-put_expiry clock msg.expiry_time _ h to)

-- `Send` over a connection, with a quality of service that is a number or none, publishes one
-- message with the payload, on the topic of the device's events; the query behind its prefix parses
-- without an error, to the properties of the message, the attributes that are not blank and no
-- property hides, and no other key, each with its one value.
pub send_message_lem :
    (publish : Publication → Result (Unit {0})) (clock : Clock) (did : Bytes) (msg : Message)
    (n : ℤ)
    → IsSendable msg
    → ((t : ℕ) → IsBytes (clock.format t))
    → qos_of (lookup (codes "qos") (options_of msg.transport_options)) ≡ ok n
    → (p : Publication) × (query : Bytes) × (q : Values) × (send_message publish clock true did msg
        ≡ (p ∷ [], publish p))
      × (p.payload ≡ msg.payload)
      × (p.topic ≡ events_prefix did ++ query)
      × (parse_query query ≡ (q, none))
      × ((k : Bytes) → lookup k q ≡ Option.map (λ v. v ∷ []) (sent_value clock msg k))
unfolding send_message event_topic
send_message_lem publish clock did msg n s h e =
    let i = topic_values-IsValues clock msg s h in
    let (q, read, holds) = parse_query-encode_query (topic_values clock msg) i.distinct i.bytes in
    (
      record { topic = event_topic clock did msg; qos = 1; payload = msg.payload },
      encode_query (topic_values clock msg),
      q,
      rw e refl,
      refl,
      refl,
      read,
      λ k. holds k ∙ ap (Option.map (λ v. v ∷ [])) (lookup-topic_values clock msg k s.properties.0),
    )
