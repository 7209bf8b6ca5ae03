-- ===== src/Service/Rest.antt =====
-- iotservice/client.go: `call`, the REST request behind every operation on the registry.
pub mod Exchange
use golang_iothub.Base.{
  ℕ, List, [], ◌∷◌, ◌++◌, Option, none, some, Bool, Bytes, codes, Dict, insert, ◌==◌, if◌then◌else◌,
  Result, ok, err, panic, Error, ◌>>=◌,
}

pub record HttpRequest : Type 0 where
  pub method : Bytes
  pub uri : Bytes
  pub headers : Dict Bytes
  pub content : Bytes

pub record HttpResponse : Type 0 where
  pub status : ℕ
  pub content : Result Bytes

-- What a call uses of its client and of package net/http: the host of the credentials, the token
-- that they make, the random request id, the error of `http.NewRequest`, and `c.http.Do`.
pub record Endpoint : Type 0 where
  pub host_name : Bytes
  pub sas : Result Bytes
  pub random_string : Result Bytes
  pub new_request : Bytes → Bytes → Option Error
  pub perform : HttpRequest → Result HttpResponse

-- `"https://" + c.creds.HostName + "/" + path + "?api-version=" + common.APIVersion`.
unfoldable pub uri_of : Bytes → Bytes → Bytes
uri_of host path =
    codes "https://" ++ (host ++ (codes "/" ++ (path ++ codes "?api-version=2018-01-16")))

-- The loop over the headers of the operation, each with its list of values.
unfoldable pub set_headers : Dict (List Bytes) → Dict Bytes → Result (Dict Bytes)
set_headers [] set = ok set
set_headers ((k, []) ∷ rest) set = panic
set_headers ((k, v ∷ []) ∷ rest) set = set_headers rest (insert k v set)
set_headers ((k, v ∷ u ∷ vs) ∷ rest) set = panic

unfoldable pub common_headers : Bytes → Bytes → Dict Bytes
common_headers sas rid =
    (codes "Content-Type", codes "application/json; charset=utf-8")
    ∷ (codes "Authorization", sas)
    ∷ (codes "Request-Id", rid)
    ∷ []

abbrev pub no_error : Option Error → Result (Unit {0})
no_error none = ok tt
no_error (some e) = err e

abbrev pub body_of : Option (Result Bytes) → Result Bytes
body_of none = ok []
body_of (some b) = b

-- The request, from a body that is marshalled already; `none` is a nil object.
unfoldable pub prepare :
    Endpoint → Bytes → Bytes → Dict (List Bytes) → Option (Result Bytes) → Result HttpRequest
unfolding uri_of set_headers common_headers
prepare env method path headers object = do
  content ← body_of object
  let uri = uri_of env.host_name path
  _ ← no_error (env.new_request method uri)
  sas ← env.sas
  rid ← env.random_string
  set ← set_headers headers (common_headers sas rid)
  ok (record { method = method; uri = uri; headers = set; content = content })

-- `c.http.Do` and `ioutil.ReadAll`.
unfoldable pub read_response : Result HttpResponse → Result (ℕ × Bytes)
read_response (ok r) = r.content >>= λ b. ok (r.status, b)
read_response (err e) = err e
read_response panic = panic

-- The requests that are made, and the status and the body that come back.
unfoldable pub exchange : Endpoint → Result HttpRequest → List HttpRequest × Result (ℕ × Bytes)
unfolding read_response
exchange env (ok req) = (req ∷ [], read_response (env.perform req))
exchange env (err e) = ([], err e)
exchange env panic = ([], panic)

-- The response object of `call`: nil, with what its caller then returns, or one that
-- `json.Unmarshal` fills with what it makes of the body.
pub data Target {ℓ} (A : Type ℓ) : Type ℓ where
  nothing : (returned : A) → Target A
  into : (unmarshal : Bytes → Result A) → Target A

-- `json.Unmarshal(body, v)`: into nil it fails.
unfoldable pub decode {ℓ} : {A : Type ℓ} → Target A → Bytes → Result A
decode (nothing a) body = err Error.no_target
decode (into unmarshal) body = unmarshal body

abbrev checked {ℓ} : {A : Type ℓ} → Target A → ℕ → Bytes → Result A
checked v status body =
    if status == 200 then decode v body else err (Error.bad_response status body)

-- The end of `call`: with nil, the status 204 is a success.
unfoldable pub finish {ℓ} : {A : Type ℓ} → Target A → ℕ × Bytes → Result A
unfolding decode
finish (nothing a) (status, body) = if status == 204 then ok a else checked (nothing a) status body
finish (into unmarshal) (status, body) = checked (into unmarshal) status body

-- What an operation returns, with the requests that it makes.
abbrev pub Answer {ℓ} : Type ℓ → Type ℓ
Answer A = List HttpRequest × Result A

abbrev pub refused {ℓ} : {A : Type ℓ} → Error → Answer A
refused e = ([], err e)

abbrev pub panicked {ℓ} : {A : Type ℓ} → Answer A
panicked = ([], panic)

unfoldable pub call {ℓ} :
    {A : Type ℓ}
    → Endpoint
    → Bytes
    → Bytes
    → Dict (List Bytes)
    → Option (Result Bytes)
    → Target A
    → Answer A
unfolding prepare exchange finish
call env method path headers object v =
    let (sent, r) = exchange env (prepare env method path headers object) in (sent, r >>= finish v)
