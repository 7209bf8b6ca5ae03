-- ===== src/Cli/DeviceTool/Clients.antt =====
-- The client that the device tool makes.
use golang_iothub.Base.{
  ◌≡◌, ◌≢◌, refl, ◌⊎◌, inl, inr, [], ◌∷◌, none, some, Bool, false, Bytes, codes, same, same_iff,
  if◌then◌else◌, ok, err, Error, ◌>>=◌, >>=-eq-ok, Bool-cases, Option-cases,
}
use golang_iothub.Common.Credentials.{Credentials, parse_connection_string}
use golang_iothub.Common.Sas.{is_blank}
use golang_iothub.Device.Options as Options
use golang_iothub.Device.Options.{
  Reference, Config, ClientOption, new_client, apply_options, require, start, sas_creds, x509_creds,
}
use golang_iothub.Cli.DeviceTool.{Vars, Outside, authentication, make_transport, mklog, make_client}

blank_cases : (s : Bytes) → (s ≡ []) ⊎ ((is_blank s ≡ false) × (s ≢ []))
blank_cases [] = inl refl
blank_cases (c ∷ s) = inr (refl, λ h. cc)

make_transport-eq-ok :
    (mqtt : Reference) (name : Bytes) {t : Reference}
    → make_transport mqtt name ≡ ok t
    → (name ≡ codes "mqtt") × (t ≡ mqtt)
unfolding make_transport
make_transport-eq-ok mqtt name h = elim (Bool-cases (same name (codes "mqtt"))) [
  | inl e ↦ ((same_iff name (codes "mqtt")).0 e, cc (rw e at h))
  | inr e ↦ elim (Bool-cases (same name (codes "amqp"))) [
    | inl f ↦ cc (rw (e, f) at h)
    | inr f ↦ elim (Bool-cases (same name (codes "http"))) [
      | inl g ↦ cc (rw (e, f, g) at h)
      | inr g ↦ cc (rw (e, f, g) at h)
    ]
  ]
]

-- The option of the credentials, where one is made.
abbrev Chosen : Outside → Vars → ClientOption → Type 0
Chosen out v opt =
    ((v.tls_cert ≢ [])
      × (v.tls_key ≢ [])
      × (v.hostname ≢ [])
      × (v.device_id ≢ [])
      × (opt
          ≡ Options.with_x509_from_file out.load_key_pair v.device_id v.hostname v.tls_cert
              v.tls_key))
    ⊎ (((v.tls_cert ≡ []) ⊎ (v.tls_key ≡ []))
        × (opt ≡ Options.with_connection_string out.connection_string))

from_environment :
    (out : Outside) {opt : ClientOption}
    → (if is_blank out.connection_string
        then err (Error.other (codes "$DEVICE_CONNECTION_STRING is empty"))
        else ok (Options.with_connection_string out.connection_string))
      ≡ ok opt
    → opt ≡ Options.with_connection_string out.connection_string
from_environment out h = elim (Bool-cases (is_blank out.connection_string)) [
  | inl e ↦ cc (rw e at h)
  | inr e ↦ cc (rw e at h)
]

authentication-Chosen :
    (out : Outside) (v : Vars) {opt : ClientOption}
    → authentication out v ≡ ok opt
    → Chosen out v opt
unfolding authentication
authentication-Chosen out v {opt} h = elim (blank_cases v.tls_cert) [
  | inl e ↦ inr (inl e, from_environment out (rw e at h))
  | inr (c, c') ↦ elim (blank_cases v.tls_key) [
    | inl e ↦ inr (inr e, from_environment out (rw (c, e) at h))
    | inr (k, k') ↦ elim (blank_cases v.hostname) [
      | inl e ↦ cc (rw (c, k, e) at h)
      | inr (n, n') ↦ elim (blank_cases v.device_id) [
        | inl e ↦ cc (rw (c, k, n, e) at h)
        | inr (d, d') ↦ inl (c', k', n', d', cc (rw (c, k, n, d) at h))
      ]
    ]
  ]
]

require-eq-ok : (c : Config) {c' : Config} → require c ≡ ok c' → c ≡ c'
require-eq-ok c h = elim (Option-cases c.creds) [
  | inl e ↦ cc (rw e at h)
  | inr (k, e) ↦ elim (Option-cases c.tr) [
    | inl f ↦ cc (rw (e, f) at h)
    | inr (t, f) ↦ cc (rw (e, f) at h)
  ]
]

-- The configuration that the option of the credentials meets.
abbrev before_auth : Vars → Reference → Config
before_auth v t = record { creds = none; tr = some t; logger = mklog v.debug 0; debug = v.debug }

built-eq-ok :
    (debug_set : Bool) (v : Vars) (t : Reference) (auth : ClientOption) {c : Config}
    → new_client debug_set (
        Options.with_debug v.debug
        ∷ Options.with_logger (mklog v.debug 0)
        ∷ Options.with_transport (some t)
        ∷ auth
        ∷ [])
      ≡ ok c
    → auth (before_auth v t) ≡ ok c
unfolding new_client apply_options Options.with_debug Options.with_logger Options.with_transport
built-eq-ok debug_set v t auth {c} h =
    let (d, e, f) = >>=-eq-ok (auth (before_auth v t) >>= λ c'. ok c') require h in
    let (d', g, k) = >>=-eq-ok (auth (before_auth v t)) (λ c'. ok c') e in
    let same_config : d' ≡ c = cc (require-eq-ok d f, k) in rw (← same_config) g

-- What a configuration takes its credentials from.
abbrev FromFiles : Outside → Vars → Config → Type 0
FromFiles out v c =
    (v.tls_cert ≢ [])
    × (v.tls_key ≢ [])
    × (v.hostname ≢ [])
    × (v.device_id ≢ [])
    × ((crt : Reference) × (out.load_key_pair v.tls_cert v.tls_key ≡ ok crt)
        × (c.creds ≡ some (x509_creds v.device_id v.hostname crt)))

abbrev FromString : Outside → Vars → Config → Type 0
FromString out v c =
    ((v.tls_cert ≡ []) ⊎ (v.tls_key ≡ []))
    × ((creds : Credentials) × (parse_connection_string out.connection_string ≡ ok creds)
        × (c.creds ≡ some (sas_creds creds)))

Chosen-eq-ok :
    (out : Outside) (v : Vars) (t : Reference) {auth : ClientOption} {c : Config}
    → Chosen out v auth
    → auth (before_auth v t) ≡ ok c
    → (c.tr ≡ some t) × (FromFiles out v c ⊎ FromString out v c)
unfolding Options.with_x509_from_file Options.with_x509_from_cert Options.new_x509_credentials
    Options.with_connection_string Options.new_sas_credentials
Chosen-eq-ok out v t {auth} {c} (inl (cert, key, host, id, e)) h =
    let (crt, loaded, made) =
      >>=-eq-ok (out.load_key_pair v.tls_cert v.tls_key)
        (λ crt. Options.with_x509_from_cert v.device_id v.hostname crt (before_auth v t))
        (rw e at h) in
    let built : record (before_auth v t) { creds = some (x509_creds v.device_id v.hostname crt) }
        ≡ c =
      cc made in
    rw (← built) (refl, inl (cert, key, host, id, (crt, loaded, refl)))
Chosen-eq-ok out v t {auth} {c} (inr (missing, e)) h =
    let (d, parsed, made) =
      >>=-eq-ok (Options.new_sas_credentials out.connection_string)
        (λ d. ok (record (before_auth v t) { creds = some d })) (rw e at h) in
    let (creds, p, q) =
      >>=-eq-ok (parse_connection_string out.connection_string) (λ x. ok (sas_creds x)) parsed in
    let one : sas_creds creds ≡ d = cc q in
    let built : record (before_auth v t) { creds = some d } ≡ c = cc made in
    rw (← built, ← one) (refl, inr (missing, (creds, p, refl)))

-- Where the tool makes a client, `-transport` is `mqtt`, and the client has this transport. With
-- both a certificate and a key file given, its credentials are those of the files, for the host and
-- the device that are given and not blank; otherwise they are those of the connection string in the
-- environment.
make_client_outcome :
    (out : Outside) (v : Vars) {c : Config}
    → make_client out v ≡ ok c
    → (v.transport ≡ codes "mqtt")
      × (c.tr ≡ some out.mqtt)
      × (((v.tls_cert ≢ [])
            × (v.tls_key ≢ [])
            × (v.hostname ≢ [])
            × (v.device_id ≢ [])
            × ((crt : Reference) × (out.load_key_pair v.tls_cert v.tls_key ≡ ok crt)
                × (c.creds ≡ some (x509_creds v.device_id v.hostname crt))))
          ⊎ (((v.tls_cert ≡ []) ⊎ (v.tls_key ≡ []))
              × ((creds : Credentials) × (parse_connection_string out.connection_string ≡ ok creds)
                  × (c.creds ≡ some (sas_creds creds)))))
unfolding make_client
make_client_outcome out v {c} h =
    let (auth, chosen, h1) = >>=-eq-ok (authentication out v) _ h in
    let (t, made, h2) = >>=-eq-ok (make_transport out.mqtt v.transport) _ h1 in
    let (name, same_transport) = make_transport-eq-ok out.mqtt v.transport made in
    let (tr, creds) =
      Chosen-eq-ok out v t (authentication-Chosen out v chosen)
        (built-eq-ok out.debug_set v t auth h2) in
    (name, rw (← same_transport) tr, creds)
