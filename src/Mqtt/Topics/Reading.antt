-- ===== src/Mqtt/Topics/Reading.antt =====
-- The range loop over the keys of a topic.
use golang_iothub.Base.{
  ℕ, ◌≡◌, refl, sym, ap, subst, ◌∙◌, [], ◌∷◌, Option, some, true, false, Bytes, codes, Dict, lookup,
  insert, same, same_iff, Distinct, Bool-cases, inl, inr, if◌then◌else◌, Result, ok, ◌>>=◌,
  >>=-eq-ok,
}
use golang_iothub.Common.Message.{Message}
use golang_iothub.Mqtt.Topics.{Clock, properties_of, set_field, set_fields}
use golang_iothub.Mqtt.Topics.Fields.{
  Holds, read_expiry, is_attribute, property_kept, Holds-message_id, Holds-correlation_id,
  Holds-user_id, Holds-to, Holds-expiry_time,
}

-- What `set_fields` does with the keys `d`, from any message.
abbrev pub Reads : Clock → Dict Bytes → Message → Type 0
Reads clock d before =
    (t : Option ℕ)
    → Distinct d
    → read_expiry clock (lookup (codes "$.exp") d) before.expiry_time ≡ ok t
    → (e : Message) × (set_fields clock d before ≡ ok e) × Holds d before e × (e.expiry_time ≡ t)

Reads-message_id :
    (clock : Clock) (v : Bytes) (d : Dict Bytes) (before : Message)
    → ((b : Message) → Reads clock d b)
    → Reads clock ((codes "$.mid", v) ∷ d) before
unfolding set_fields set_field same lookup
Reads-message_id clock v d before rest t (n, apart) x =
    let (e, made, h, late) = rest (record before { message_id = v }) t apart x in
    (e, made, Holds-message_id v d before e n h, late)

Reads-correlation_id :
    (clock : Clock) (v : Bytes) (d : Dict Bytes) (before : Message)
    → ((b : Message) → Reads clock d b)
    → Reads clock ((codes "$.cid", v) ∷ d) before
unfolding set_fields set_field same lookup
Reads-correlation_id clock v d before rest t (n, apart) x =
    let (e, made, h, late) = rest (record before { correlation_id = v }) t apart x in
    (e, made, Holds-correlation_id v d before e n h, late)

Reads-user_id :
    (clock : Clock) (v : Bytes) (d : Dict Bytes) (before : Message)
    → ((b : Message) → Reads clock d b)
    → Reads clock ((codes "$.uid", v) ∷ d) before
unfolding set_fields set_field same lookup
Reads-user_id clock v d before rest t (n, apart) x =
    let (e, made, h, late) = rest (record before { user_id = v }) t apart x in
    (e, made, Holds-user_id v d before e n h, late)

Reads-to :
    (clock : Clock) (v : Bytes) (d : Dict Bytes) (before : Message)
    → ((b : Message) → Reads clock d b)
    → Reads clock ((codes "$.to", v) ∷ d) before
unfolding set_fields set_field same lookup
Reads-to clock v d before rest t (n, apart) x =
    let (e, made, h, late) = rest (record before { to = v }) t apart x in
    (e, made, Holds-to v d before e n h, late)

Reads-expiry_time :
    (clock : Clock) (v : Bytes) (d : Dict Bytes) (before : Message)
    → ((b : Message) → Reads clock d b)
    → Reads clock ((codes "$.exp", v) ∷ d) before
unfolding set_fields set_field same lookup
Reads-expiry_time clock v d before rest t (n, apart) x =
    let later : Result ℕ → Result Message =
      λ m. (m >>= λ t. ok (record before { expiry_time = some t })) >>= λ e. set_fields clock d e in
    let (u, parsed, t_is) = >>=-eq-ok (clock.parse v) (λ t. ok (some t)) x in
    let (e, made, h, late) = rest (record before { expiry_time = some u }) t apart (rw n t_is) in
    (e, ap later parsed ∙ made, Holds-expiry_time v d before e (some u) h, late)

Reads-property :
    (clock : Clock) (k v : Bytes) (d : Dict Bytes) (before : Message)
    → (same k (codes "$.mid") ≡ false)
    → (same k (codes "$.cid") ≡ false)
    → (same k (codes "$.uid") ≡ false)
    → (same k (codes "$.to") ≡ false)
    → (same k (codes "$.exp") ≡ false)
    → ((b : Message) → Reads clock d b)
    → Reads clock ((k, v) ∷ d) before
unfolding set_fields set_field lookup
Reads-property clock k v d before mid cid uid to exp rest t (n, apart) x =
    let next : Message = record before {
      properties = some (insert k v (properties_of before.properties));
    } in
    let (e, made, h, late) = rest next t apart (
      subst
        (λ b.
          read_expiry clock (if b then some v else lookup (codes "$.exp") d) before.expiry_time
          ≡ ok t)
        exp x) in
    (
      e,
      rw (mid, cid, uid, to, exp) made,
      record {
        message_id = h.message_id ∙ rw mid refl;
        correlation_id = h.correlation_id ∙ rw cid refl;
        user_id = h.user_id ∙ rw uid refl;
        to = h.to ∙ rw to refl;
        payload = h.payload;
        properties = λ j.
            h.properties j
            ∙ property_kept k v j d (properties_of before.properties)
                (rw (mid, cid, uid, to, exp) refl) n;
      },
      late,
    )

Reads-nil : (clock : Clock) (before : Message) → Reads clock [] before
unfolding set_fields lookup
Reads-nil clock before t apart x = (
  before,
  refl,
  record {
    message_id = refl;
    correlation_id = refl;
    user_id = refl;
    to = refl;
    payload = refl;
    properties = λ k. elim (Bool-cases (is_attribute k)) [ inl e ↦ rw e refl | inr e ↦ rw e refl ];
  },
  cc,
)

-- Each key of a map, in any order, is read into its field, or kept as a property.
pub set_fields-Holds : (clock : Clock) (d : Dict Bytes) (before : Message) → Reads clock d before
set_fields-Holds clock [] before = Reads-nil clock before
set_fields-Holds clock ((k, v) ∷ d) before =
    let rest = set_fields-Holds clock d in
    let moved : (key : Bytes)
        → same k key ≡ true
        → Reads clock ((key, v) ∷ d) before
        → Reads clock ((k, v) ∷ d) before =
      λ key e. subst (λ x. Reads clock ((x, v) ∷ d) before) (sym ((same_iff k key).0 e)) in
    elim (Bool-cases (same k (codes "$.mid"))) [
      | inl e ↦ moved _ e (Reads-message_id clock v d before rest)
      | inr mid ↦ elim (Bool-cases (same k (codes "$.cid"))) [
        | inl e ↦ moved _ e (Reads-correlation_id clock v d before rest)
        | inr cid ↦ elim (Bool-cases (same k (codes "$.uid"))) [
          | inl e ↦ moved _ e (Reads-user_id clock v d before rest)
          | inr uid ↦ elim (Bool-cases (same k (codes "$.to"))) [
            | inl e ↦ moved _ e (Reads-to clock v d before rest)
            | inr to ↦ elim (Bool-cases (same k (codes "$.exp"))) [
              | inl e ↦ moved _ e (Reads-expiry_time clock v d before rest)
              | inr exp ↦ Reads-property clock k v d before mid cid uid to exp rest
            ]
          ]
        ]
      ]
    ]
