-- ===== src/Service/Devices/Guards.antt =====
-- Which requests the operations on a device send.
use mathlib.Core.List.{append_cancel_left, append_cancel_right}
use golang_iothub.Base.{
  ◌≡◌, ◌≢◌, refl, sym, ap, ok, All, ◌∙◌, ◌⊎◌, inl, inr, List, [], ◌∷◌, ◌++◌, Option, none, some,
  Bytes, codes, Dict, Result, Result-cases,
}
use golang_iothub.Std.Url.PathSegment.{
  path_escape, path_unescape, path_unescape-path_escape, IsInside, path_escape-IsInside,
}
use golang_iothub.Std.Url.RoundTrip.{IsBytes}
use golang_iothub.Service.Registry.{Device}
use golang_iothub.Service.Rest.{HttpRequest, Endpoint, uri_of, prepare, call, exchange}
use golang_iothub.Service.Rest.Exchange.{prepare-eq-ok}
use golang_iothub.Service.Devices.{
  Codec, if_match, device_path, get_device, put_device, create_device, update_device, delete_device,
}

-- The operations that are on one device.
pub data Operation : Type 0 where
  get delete : Bytes → Operation
  create update : Device → Operation

abbrev pub target : Operation → Bytes
target (get id) = id
target (delete id) = id
target (create device) = device.device_id
target (update device) = device.device_id

abbrev pub method_of : Operation → Bytes
method_of (get id) = codes "GET"
method_of (delete id) = codes "DELETE"
method_of (create device) = codes "PUT"
method_of (update device) = codes "PUT"

module _ (env : Endpoint) (codec : Codec) where
  abbrev pub requests : Operation → List HttpRequest
  requests (get id) = (get_device env codec id).0
  requests (delete id) = (delete_device env codec id).0
  requests (create device) = (create_device env codec (some device)).0
  requests (update device) = (update_device env codec (some device)).0

  -- What is sent for a device.
  abbrev Sent : Bytes → Bytes → List HttpRequest → Type 0
  Sent method id sent =
      (sent ≡ [])
      ⊎ ((req : HttpRequest) × (sent ≡ req ∷ [])
          × (req.method ≡ method)
          × (req.uri ≡ uri_of env.host_name (device_path id))
          × (id ≢ []))

  exchange-Sent :
      (method id : Bytes) (headers : Dict (List Bytes)) (object : Option (Result Bytes))
      → id ≢ []
      → Sent method id (exchange env (prepare env method (device_path id) headers object)).0
  unfolding exchange
  exchange-Sent method id headers object named =
      elim (Result-cases (prepare env method (device_path id) headers object)) [
        | inl (req, e) ↦
            let (m, u) = prepare-eq-ok env method (device_path id) headers object e in
            rw e (inr (req, refl, m, u, named))
        | inr (inl (x, e)) ↦ rw e (inl refl)
        | inr (inr e) ↦ rw e (inl refl)
      ]

  put-Sent :
      (headers : Dict (List Bytes)) (id : Bytes) (device : Device)
      → Sent (codes "PUT") id (put_device env codec headers id device).0
  unfolding put_device call
  put-Sent headers [] device = inl refl
  put-Sent headers (c ∷ id) device =
      exchange-Sent (codes "PUT") (c ∷ id) headers (some (codec.marshal_device device)) (λ h. cc)

  -- An operation on one device sends nothing, or one request with its method to the address of the
  -- device that it names, whose identifier is not empty.
  requests_lem :
      (op : Operation)
      → (requests op ≡ [])
        ⊎ ((req : HttpRequest) × (requests op ≡ req ∷ [])
            × (req.method ≡ method_of op)
            × (req.uri ≡ uri_of env.host_name (device_path (target op)))
            × (target op ≢ []))
  unfolding get_device delete_device create_device update_device call
  requests_lem (get []) = inl refl
  requests_lem (get (c ∷ id)) = exchange-Sent (codes "GET") (c ∷ id) [] none (λ h. cc)
  requests_lem (delete []) = inl refl
  requests_lem (delete (c ∷ id)) =
      exchange-Sent (codes "DELETE") (c ∷ id) (if_match (codes "*")) none (λ h. cc)
  requests_lem (create device) = put-Sent [] device.device_id device
  requests_lem (update device) = put-Sent (if_match (codes "*")) device.device_id device

-- An operation on one device makes its request to the path `devices/` and one more segment behind
-- it, which no byte of the segment ends, and which unescapes to the identifier of the device that the
-- operation names: it is a text of bytes, of any kind, and it is not empty.
pub request_names_device :
    (env : Endpoint) (codec : Codec) (op : Operation) (req : HttpRequest)
    → IsBytes (target op)
    → requests env codec op ≡ req ∷ []
    → (segment : Bytes) × (req.method ≡ method_of op)
      × (req.uri
          ≡ codes "https://"
            ++ (env.host_name
                ++ (codes "/devices/" ++ (segment ++ codes "?api-version=2018-01-16"))))
      × All IsInside segment
      × (path_unescape segment ≡ ok (target op))
      × (target op ≢ [])
unfolding uri_of device_path
request_names_device env codec op req h sent = elim (requests_lem env codec op) [
  | inl e ↦ cc (e, sent)
  | inr (r, e, m, u, n) ↦
      let same : r ≡ req = cc (e, sent) in
      (
        path_escape (target op),
        sym (ap (λ q. q.method) same) ∙ m,
        sym (ap (λ q. q.uri) same) ∙ u,
        path_escape-IsInside (target op) h,
        path_unescape-path_escape (target op) h,
        n,
      )
]

-- Two operations whose requests go to one address are on the same device.
same_uri-same_device :
    (env : Endpoint) (codec : Codec) (op op' : Operation) (req req' : HttpRequest)
    → IsBytes (target op)
    → IsBytes (target op')
    → requests env codec op ≡ req ∷ []
    → requests env codec op' ≡ req' ∷ []
    → req.uri ≡ req'.uri
    → target op ≡ target op'
same_uri-same_device env codec op op' req req' h h' sent sent' same =
    let (a, _, u, _, ra, _) = request_names_device env codec op req h sent in
    let (b, _, u', _, rb, _) = request_names_device env codec op' req' h' sent' in
    let rest = λ (s : Bytes). s ++ codes "?api-version=2018-01-16" in
    let cut : rest a ≡ rest b = append_cancel_left (codes "/devices/") (rest a) (rest b) (
      append_cancel_left env.host_name (codes "/devices/" ++ rest a) (codes "/devices/" ++ rest b) (
        append_cancel_left (codes "https://") (env.host_name ++ (codes "/devices/" ++ rest a))
          (env.host_name ++ (codes "/devices/" ++ rest b)) (sym u ∙ same ∙ u'))) in
    let one : a ≡ b = append_cancel_right a b (codes "?api-version=2018-01-16") cut in
    let read : ok (target op) ≡ ok (target op') = sym ra ∙ ap path_unescape one ∙ rb in cc read
