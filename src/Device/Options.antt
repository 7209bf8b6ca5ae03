-- ===== src/Device/Options.antt =====
-- iotdevice/client.go: `NewClient` and the ClientOptions; iotdevice/creds.go: the credentials.
use golang_iothub.Base.{
  ℕ, ◌≡◌, inl, inr, refl, List, [], ◌∷◌, Option, none, some, Bool, true, false, arith, Bytes,
  Result, ok, err, panic, Error, ◌>>=◌, Option-cases, Result-cases, >>=-eq-ok, ◌++◌,
}
use golang_iothub.Common.Credentials.{Credentials, parse_connection_string}
use golang_iothub.Common.Sas.{Crypto, sas}

-- A `*tls.Certificate`, a `*log.Logger`, a Transport or a caller's Credentials: only its identity
-- matters here.
abbrev pub Reference : Type 0
Reference = ℕ

-- The implementations of transport.Credentials: sasCreds, x509Creds, and a caller's own.
pub data DeviceCredentials : Type 0 where
  sas_creds : Credentials → DeviceCredentials
  x509_creds : Bytes → Bytes → Reference → DeviceCredentials
  custom_creds : Reference → DeviceCredentials

-- `DeviceID()`, `Hostname()`, `IsSAS()` and `Token(…)` of the two implementations in the source,
-- and those of a caller's own.
pub record Provider : Type 0 where
  pub device_id_of : Reference → Bytes
  pub hostname_of : Reference → Bytes
  pub is_sas_of : Reference → Bool
  pub token_of : Reference → Bytes → ℕ → Result Bytes

unfoldable pub device_id : Provider → DeviceCredentials → Bytes
device_id p (sas_creds c) = c.device_id
device_id p (x509_creds id hostname crt) = id
device_id p (custom_creds r) = p.device_id_of r

unfoldable pub hostname : Provider → DeviceCredentials → Bytes
hostname p (sas_creds c) = c.host_name
hostname p (x509_creds id host crt) = host
hostname p (custom_creds r) = p.hostname_of r

unfoldable pub is_sas : Provider → DeviceCredentials → Bool
is_sas p (sas_creds c) = true
is_sas p (x509_creds id host crt) = false
is_sas p (custom_creds r) = p.is_sas_of r

unfoldable pub get_token : Crypto → ℕ → Provider → DeviceCredentials → Bytes → ℕ → Result Bytes
get_token crypto clock p (sas_creds c) uri d = sas crypto clock c uri d
get_token crypto clock p (x509_creds id host crt) uri d = err Error.not_supported
get_token crypto clock p (custom_creds r) uri d = p.token_of r uri d

-- The fields of a Client that options write.
pub record Config : Type 0 where
  pub creds : Option DeviceCredentials
  pub tr : Option Reference
  pub logger : Option Reference
  pub debug : Bool

abbrev pub ClientOption : Type 0
ClientOption = Config → Result Config

unfoldable pub with_debug : Bool → ClientOption
with_debug t c = ok (record c { debug = t })

unfoldable pub with_logger : Option Reference → ClientOption
with_logger l c = ok (record c { logger = l })

unfoldable pub with_transport : Option Reference → ClientOption
with_transport tr c = ok (record c { tr = tr })

-- The panic on nil comes when the option is made.
unfoldable pub with_credentials : Option DeviceCredentials → Result ClientOption
with_credentials none = panic
with_credentials (some creds) = ok (λ c. ok (record c { creds = some creds }))

unfoldable pub new_sas_credentials : Bytes → Result DeviceCredentials
new_sas_credentials cs = parse_connection_string cs >>= λ creds. ok (sas_creds creds)

unfoldable pub with_connection_string : Bytes → ClientOption
unfolding new_sas_credentials
with_connection_string cs c =
    new_sas_credentials cs >>= λ creds. ok (record c { creds = some creds })

unfoldable pub new_x509_credentials : Bytes → Bytes → Reference → Result DeviceCredentials
new_x509_credentials id host crt = ok (x509_creds id host crt)

unfoldable pub with_x509_from_cert : Bytes → Bytes → Reference → ClientOption
unfolding new_x509_credentials
with_x509_from_cert id host crt c =
    new_x509_credentials id host crt >>= λ creds. ok (record c { creds = some creds })

-- `load` is `tls.LoadX509KeyPair`.
unfoldable pub with_x509_from_file :
    (Bytes → Bytes → Result Reference) → Bytes → Bytes → Bytes → Bytes → ClientOption
with_x509_from_file load id host cert_file key_file c =
    load cert_file key_file >>= λ crt. with_x509_from_cert id host crt c

unfoldable pub apply_options : Config → List ClientOption → Result Config
apply_options c [] = ok c
apply_options c (opt ∷ opts) = opt c >>= λ c'. apply_options c' opts

abbrev pub start : Bool → Config
start debug_set = record { creds = none; tr = none; logger = none; debug = debug_set }

-- The two checks behind the loop.
abbrev pub require : Config → Result Config
require c = elim c.creds [
  | none ↦ err Error.credentials_required
  | some _ ↦ elim c.tr [ none ↦ err Error.transport_required | some _ ↦ ok c ]
]

-- `debug_set` is `os.Getenv("DEBUG") != ""`.
unfoldable pub new_client : Bool → List ClientOption → Result Config
new_client debug_set opts = apply_options (start debug_set) opts >>= require

-- Options are applied in order up to the first that fails.
apply_options-split :
    (c : Config) (opts : List ClientOption) (opt : ClientOption) (rest : List ClientOption)
    → apply_options c (opts ++ opt ∷ rest)
      ≡ (apply_options c opts >>= λ c'. opt c' >>= λ c''. apply_options c'' rest)
unfolding apply_options
apply_options-split c [] opt rest = refl
apply_options-split c (o ∷ opts) opt rest = elim (Result-cases (o c)) [
  | inl (c', e) ↦ rw e (apply_options-split c' opts opt rest)
  | inr (inl (x, e)) ↦ rw e
  | inr (inr e) ↦ rw e
]

require-eq-ok :
    (c : Config) {c' : Config}
    → require c ≡ ok c'
    → ((d : DeviceCredentials) × (c'.creds ≡ some d)) × ((r : Reference) × (c'.tr ≡ some r))
require-eq-ok c {c' = k} h = elim (Option-cases c.creds) [
  | inl e ↦ cc (rw e at h)
  | inr (d, e) ↦ elim (Option-cases c.tr) [
    | inl f ↦ cc (rw (e, f) at h)
    | inr (r, f) ↦
        let same : c ≡ k = cc (rw (e, f) at h) in ((d, rw (← same) e), (r, rw (← same) f))
  ]
]

-- A client that `NewClient` returns has credentials and a transport, whatever the options do.
new_client-valid :
    (debug_set : Bool) (opts : List ClientOption) {c : Config}
    → new_client debug_set opts ≡ ok c
    → ((d : DeviceCredentials) × (c.creds ≡ some d)) × ((r : Reference) × (c.tr ≡ some r))
unfolding new_client
new_client-valid debug_set opts h =
    let (c', _, e) = >>=-eq-ok (apply_options _ opts) require h in require-eq-ok c' e

-- Where the options up to a last one succeed and set a transport, and the last one is a connection
-- string, `NewClient` does what the parser does: it returns the client with the parsed credentials,
-- which replace any given before, fails with the parser's error, or panics.
new_client-with_connection_string :
    (debug_set : Bool) (opts : List ClientOption) (cs : Bytes) (c : Config) (r : Reference)
    → apply_options (start debug_set) opts ≡ ok c
    → c.tr ≡ some r
    → new_client debug_set (opts ++ with_connection_string cs ∷ [])
      ≡ (parse_connection_string cs >>= λ m. ok (record c { creds = some (sas_creds m) }))
unfolding new_client apply_options with_connection_string
new_client-with_connection_string debug_set opts cs c r e t =
    rw (apply_options-split (start debug_set) opts (with_connection_string cs) [], e)
      (ground (arith, t))
