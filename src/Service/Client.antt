-- ===== src/Service/Client.antt =====
-- iotservice/client.go: the ClientOptions, `NewClient`, and `Connect`.
use golang_iothub.Base.{
  ℕ, ◌≡◌, refl, List, [], ◌∷◌, Option, none, some, Bool, false, Bytes, Result, ok, err, Error,
  ◌>>=◌, >>=-eq-ok, Option-cases, inl, inr,
}
use golang_iothub.Common.Credentials.{Credentials, parse_connection_string}

-- A `*http.Client`: the one that `NewClient` makes, or a caller's.
pub data HttpClient : Type 0 where
  bundled : HttpClient
  given : ℕ → HttpClient

-- The fields of a Client that options write.
pub record Config : Type 0 where
  pub creds : Option Credentials
  pub http : Option HttpClient
  pub logger : Option ℕ
  pub debug : Bool

abbrev pub ClientOption : Type 0
ClientOption = Config → Result Config

unfoldable pub with_connection_string : Bytes → ClientOption
with_connection_string cs c =
    parse_connection_string cs >>= λ creds. ok (record c { creds = some creds })

unfoldable pub with_credentials : Option Credentials → ClientOption
with_credentials creds c = ok (record c { creds = creds })

unfoldable pub with_http_client : Option HttpClient → ClientOption
with_http_client client c = ok (record c { http = client })

unfoldable pub with_logger : Option ℕ → ClientOption
with_logger l c = ok (record c { logger = l })

unfoldable pub with_debug : Bool → ClientOption
with_debug d c = ok (record c { debug = d })

unfoldable pub apply_options : Config → List ClientOption → Result Config
apply_options c [] = ok c
apply_options c (opt ∷ opts) = opt c >>= λ c'. apply_options c' opts

-- The check and the default behind the loop.
abbrev pub complete : Config → Result Config
complete c = elim c.creds [
  | none ↦ err Error.credentials_required
  | some _ ↦ elim c.http [ none ↦ ok (record c { http = some bundled }) | some _ ↦ ok c ]
]

unfoldable pub new_client : List ClientOption → Result Config
new_client opts =
    apply_options (record { creds = none; http = none; logger = none; debug = false }) opts
    >>= complete

complete-eq-ok :
    (c : Config) {c' : Config}
    → complete c ≡ ok c'
    → (c'.creds ≡ c.creds)
      × ((k : Credentials) × (c.creds ≡ some k))
      × ((h : HttpClient) × (c'.http ≡ some h))
complete-eq-ok c {c' = d} e = elim (Option-cases c.creds) [
  | inl f ↦ cc (rw f at e)
  | inr (k, f) ↦ elim (Option-cases c.http) [
    | inl g ↦
        let same : record c { http = some bundled } ≡ d = cc (rw (f, g) at e) in
        rw (← same) (refl, (k, f), (bundled, refl))
    | inr (h, g) ↦ let same : c ≡ d = cc (rw (f, g) at e) in rw (← same) (refl, (k, f), (h, g))
  ]
]

-- A client that `NewClient` returns has credentials, those that the options leave, and an HTTP
-- client.
new_client_complete :
    (opts : List ClientOption) {c : Config}
    → new_client opts ≡ ok c
    → ((k : Credentials) × (c.creds ≡ some k)) × ((h : HttpClient) × (c.http ≡ some h))
unfolding new_client
new_client_complete opts {c} e =
    let (c', _, f) = >>=-eq-ok (apply_options _ opts) complete e in
    let (kept, (k, g), http) = complete-eq-ok c' f in ((k, rw kept g), http)
