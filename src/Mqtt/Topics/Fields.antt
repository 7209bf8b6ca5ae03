-- ===== src/Mqtt/Topics/Fields.antt =====
-- What a cloud-to-device message holds, of the keys and values of its topic.
use golang_iothub.Base.{
  ℕ, ◌≡◌, refl, subst, ◌∙◌, ◌∷◌, Option, none, some, Bool, true, false, ◌||◌, Bytes, codes, Dict,
  lookup, insert, lookup-insert, same, same_iff, Bool-cases, inl, inr, if◌then◌else◌, Result, ok,
  ◌>>=◌,
}
use golang_iothub.Common.Message.{Message}
use golang_iothub.Mqtt.Topics.{Clock, properties_of}

-- The value under a key, or else what was there.
abbrev pub or_before : Option Bytes → Bytes → Bytes
or_before none before = before
or_before (some v) before = v

abbrev pub read_expiry : Clock → Option Bytes → Option ℕ → Result (Option ℕ)
read_expiry clock none before = ok before
read_expiry clock (some v) before = clock.parse v >>= λ t. ok (some t)

-- The keys that are fields of a message.
abbrev pub is_attribute : Bytes → Bool
is_attribute k =
    same k (codes "$.mid")
    || (same k (codes "$.cid")
        || (same k (codes "$.uid") || (same k (codes "$.to") || same k (codes "$.exp"))))

abbrev pub or_property : Option Bytes → Option Bytes → Option Bytes
or_property none before = before
or_property (some v) before = some v

-- `e` is `before` with the fields and the properties of `d`.
pub record Holds (d : Dict Bytes) (before e : Message) : Type 0 where
  pub message_id : e.message_id ≡ or_before (lookup (codes "$.mid") d) before.message_id
  pub correlation_id : e.correlation_id ≡ or_before (lookup (codes "$.cid") d) before.correlation_id
  pub user_id : e.user_id ≡ or_before (lookup (codes "$.uid") d) before.user_id
  pub to : e.to ≡ or_before (lookup (codes "$.to") d) before.to
  pub payload : e.payload ≡ before.payload
  pub properties :
      (k : Bytes)
      → lookup k (properties_of e.properties) ≡ (
          if is_attribute k
          then lookup k (properties_of before.properties)
          else or_property (lookup k d) (lookup k (properties_of before.properties)))

attribute_hides :
    (key v : Bytes) (d : Dict Bytes) (k : Bytes) (before : Option Bytes)
    → is_attribute key ≡ true
    → (if is_attribute k then before else or_property (lookup k d) before)
      ≡ (if is_attribute k then before else or_property (lookup k ((key, v) ∷ d)) before)
unfolding lookup
attribute_hides key v d k before a = elim (Bool-cases (same key k)) [
  | inl e ↦ rw (subst (λ x. is_attribute x ≡ true) ((same_iff key k).0 e) a) refl
  | inr e ↦ rw e refl
]

pub Holds-message_id :
    (v : Bytes) (d : Dict Bytes) (before e : Message)
    → lookup (codes "$.mid") d ≡ none
    → Holds d (record before { message_id = v }) e
    → Holds ((codes "$.mid", v) ∷ d) before e
unfolding lookup same
Holds-message_id v d before e n h = record {
  message_id = h.message_id ∙ rw n refl;
  correlation_id = h.correlation_id;
  user_id = h.user_id;
  to = h.to;
  payload = h.payload;
  properties = λ k.
      h.properties k
      ∙ attribute_hides (codes "$.mid") v d k (lookup k (properties_of before.properties)) refl;
}

pub Holds-correlation_id :
    (v : Bytes) (d : Dict Bytes) (before e : Message)
    → lookup (codes "$.cid") d ≡ none
    → Holds d (record before { correlation_id = v }) e
    → Holds ((codes "$.cid", v) ∷ d) before e
unfolding lookup same
Holds-correlation_id v d before e n h = record {
  message_id = h.message_id;
  correlation_id = h.correlation_id ∙ rw n refl;
  user_id = h.user_id;
  to = h.to;
  payload = h.payload;
  properties = λ k.
      h.properties k
      ∙ attribute_hides (codes "$.cid") v d k (lookup k (properties_of before.properties)) refl;
}

pub Holds-user_id :
    (v : Bytes) (d : Dict Bytes) (before e : Message)
    → lookup (codes "$.uid") d ≡ none
    → Holds d (record before { user_id = v }) e
    → Holds ((codes "$.uid", v) ∷ d) before e
unfolding lookup same
Holds-user_id v d before e n h = record {
  message_id = h.message_id;
  correlation_id = h.correlation_id;
  user_id = h.user_id ∙ rw n refl;
  to = h.to;
  payload = h.payload;
  properties = λ k.
      h.properties k
      ∙ attribute_hides (codes "$.uid") v d k (lookup k (properties_of before.properties)) refl;
}

pub Holds-to :
    (v : Bytes) (d : Dict Bytes) (before e : Message)
    → lookup (codes "$.to") d ≡ none
    → Holds d (record before { to = v }) e
    → Holds ((codes "$.to", v) ∷ d) before e
unfolding lookup same
Holds-to v d before e n h = record {
  message_id = h.message_id;
  correlation_id = h.correlation_id;
  user_id = h.user_id;
  to = h.to ∙ rw n refl;
  payload = h.payload;
  properties = λ k.
      h.properties k
      ∙ attribute_hides (codes "$.to") v d k (lookup k (properties_of before.properties)) refl;
}

pub property_kept :
    (key v k : Bytes) (d u : Dict Bytes)
    → is_attribute key ≡ false
    → lookup key d ≡ none
    → (if is_attribute k
        then lookup k (insert key v u)
        else or_property (lookup k d) (lookup k (insert key v u)))
      ≡ (if is_attribute k then lookup k u else or_property (lookup k ((key, v) ∷ d)) (lookup k u))
unfolding lookup
property_kept key v k d u a n = elim (Bool-cases (same key k)) [
  | inl e ↦
      let j = (same_iff key k).0 e in
      let plain : is_attribute k ≡ false = subst (λ x. is_attribute x ≡ false) j a in
      let absent : lookup k d ≡ none = subst (λ x. lookup x d ≡ none) j n in
      rw (lookup-insert key k v u, plain) (rw (absent, e) refl)
  | inr e ↦ rw (lookup-insert key k v u, e) refl
]

pub Holds-expiry_time :
    (v : Bytes) (d : Dict Bytes) (before e : Message) (t : Option ℕ)
    → Holds d (record before { expiry_time = t }) e
    → Holds ((codes "$.exp", v) ∷ d) before e
unfolding lookup same
Holds-expiry_time v d before e t h = record {
  message_id = h.message_id;
  correlation_id = h.correlation_id;
  user_id = h.user_id;
  to = h.to;
  payload = h.payload;
  properties = λ k.
      h.properties k
      ∙ attribute_hides (codes "$.exp") v d k (lookup k (properties_of before.properties)) refl;
}
