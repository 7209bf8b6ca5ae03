-- ===== src/Service/Rest/Exchange.antt =====
-- What one REST call sends, and when it succeeds.
use golang_iothub.Base.{
  ℕ, ◌≡◌, ◌≢◌, refl, ap, ◌∙◌, ◌↔◌, ◌⊎◌, inl, inr, List, [], ◌∷◌, Option, Bytes, Dict, ◌==◌, ==_iff,
  Bool-cases, Result, ok, err, panic, ◌>>=◌, >>=-eq-ok, Result-cases,
}
use golang_iothub.Service.Rest.{
  HttpRequest, HttpResponse, Endpoint, uri_of, prepare, read_response, exchange, Target, nothing,
  into, decode, finish, call, set_headers, common_headers, no_error, body_of,
}

-- A request that is prepared carries the method, the host's address of the path and the body.
pub prepare-eq-ok :
    (env : Endpoint) (method path : Bytes) (headers : Dict (List Bytes))
    (object : Option (Result Bytes)) {req : HttpRequest}
    → prepare env method path headers object ≡ ok req
    → (req.method ≡ method) × (req.uri ≡ uri_of env.host_name path)
unfolding prepare
prepare-eq-ok env method path headers object {req} h =
    let uri = uri_of env.host_name path in
    let (content, _, h1) = >>=-eq-ok (body_of object) _ h in
    let (_, _, h2) = >>=-eq-ok (no_error (env.new_request method uri)) _ h1 in
    let (sas, _, h3) = >>=-eq-ok env.sas _ h2 in
    let (rid, _, h4) = >>=-eq-ok env.random_string _ h3 in
    let (set, _, h5) = >>=-eq-ok (set_headers headers (common_headers sas rid)) _ h4 in
    let made : HttpRequest = record {
      method = method;
      uri = uri;
      headers = set;
      content = content;
    } in
    let same : made ≡ req = cc h5 in rw (← same) (refl, refl)

-- What a response has to be for a call to return `a`.
abbrev pub Good {ℓ} : {A : Type ℓ} → Target A → A → ℕ → Bytes → Type ℓ
Good v a status body =
    ((status ≡ 200) × (decode v body ≡ ok a)) ⊎ ((status ≡ 204) × (v ≡ nothing a))

finish-eq-ok :
    {A : Type 0} (v : Target A) (status : ℕ) (body : Bytes) (a : A)
    → finish v (status, body) ≡ ok a
    → Good v a status body
unfolding finish
finish-eq-ok (into unmarshal) status body a h = elim (Bool-cases (status == 200)) [
  | inl e ↦ inl ((==_iff status 200).0 e, rw (finish, e) at h)
  | inr e ↦ cc (rw (finish, e) at h)
]
finish-eq-ok (nothing b) status body a h = elim (Bool-cases (status == 204)) [
  | inl e ↦ inr ((==_iff status 204).0 e, ap nothing (cc (rw (finish, e) at h)))
  | inr e ↦ elim (Bool-cases (status == 200)) [
    | inl f ↦ inl ((==_iff status 200).0 f, rw (finish, e, f) at h)
    | inr f ↦ cc (rw (finish, e, f) at h)
  ]
]

finish-Good :
    {A : Type 0} (v : Target A) (status : ℕ) (body : Bytes) (a : A)
    → Good v a status body
    → finish v (status, body) ≡ ok a
unfolding finish decode
finish-Good (into unmarshal) status body a (inl (s, d)) = rw s d
finish-Good (into unmarshal) status body a (inr (s, n)) = cc n
finish-Good (nothing b) status body a (inl (s, d)) = cc d
finish-Good (nothing b) status body a (inr (s, n)) = rw s (ap ok (cc n))

-- A response from which a call returns `a`.
abbrev pub Returned {ℓ} : {A : Type ℓ} → Target A → A → Result HttpResponse → Type ℓ
Returned v a performed =
    (resp : HttpResponse) × (body : Bytes) × (performed ≡ ok resp)
    × (resp.content ≡ ok body)
    × Good v a resp.status body

response-eq-ok :
    {A : Type 0} (v : Target A) (p : Result HttpResponse) (a : A)
    → (read_response p >>= finish v) ≡ ok a
    → Returned v a p
unfolding read_response
response-eq-ok v (err e) a h = cc
response-eq-ok v panic a h = cc
response-eq-ok v (ok resp) a h =
    let (r, g, f) = >>=-eq-ok (resp.content >>= λ b. ok (resp.status, b)) (finish v) h in
    let (b, c, k) = >>=-eq-ok resp.content (λ b. ok (resp.status, b)) g in
    let same : (resp.status, b) ≡ r = cc k in
    (resp, b, refl, c, finish-eq-ok v resp.status b a (ap (finish v) same ∙ f))

response-Returned :
    {A : Type 0} (v : Target A) (p : Result HttpResponse) (a : A)
    → Returned v a p
    → (read_response p >>= finish v) ≡ ok a
unfolding read_response
response-Returned v p a (resp, body, e, c, good) =
    ap (λ p. read_response p >>= finish v) e
    ∙ ap (λ m. (m >>= λ b. ok (resp.status, b)) >>= finish v) c
    ∙ finish-Good v resp.status body a good

-- Where its request can be prepared, a REST call makes that one request, with the method and the
-- address asked for, and returns `a` exactly if the answer has the status 200 and a body that
-- `json.Unmarshal` makes `a` of, or if the response object is nil and the status is 204. Where it
-- cannot, the call makes no request and does not succeed.
pub call_outcome :
    {A : Type 0} (env : Endpoint) (method path : Bytes) (headers : Dict (List Bytes))
    (object : Option (Result Bytes)) (v : Target A)
    → let r = call env method path headers object v in
      ((req : HttpRequest) × (prepare env method path headers object ≡ ok req)
        × (r.0 ≡ req ∷ [])
        × (req.method ≡ method)
        × (req.uri ≡ uri_of env.host_name path)
        × ((a : A) → (r.1 ≡ ok a) ↔ Returned v a (env.perform req)))
      ⊎ (((req : HttpRequest) → prepare env method path headers object ≢ ok req)
          × (r.0 ≡ [])
          × ((a : A) → r.1 ≢ ok a))
unfolding call exchange
call_outcome env method path headers object v =
    elim (Result-cases (prepare env method path headers object)) [
      | inl (req, e) ↦
          let (m, u) = prepare-eq-ok env method path headers object e in
          inl (
            req,
            e,
            rw (call, e),
            m,
            u,
            λ a. (
              λ h. response-eq-ok v (env.perform req) a (rw (call, e) at h),
              λ h. rw (call, e) (response-Returned v (env.perform req) a h),
            ),
          )
      | inr (inl (x, e)) ↦ inr (λ req h. cc (e, h), rw (call, e), λ a. rw (call, e) (λ h. cc))
      | inr (inr e) ↦ inr (λ req h. cc (e, h), rw (call, e), λ a. rw (call, e) (λ h. cc))
    ]
