-- ===== src/Service/Devices/Tests.antt =====
-- Requests on one device, against a server that answers every one.
use golang_iothub.Base.{
  ◌≡◌, ◌≢◌, refl, ◌⊎◌, ◌↔◌, ◌++◌, All, [], ◌∷◌, none, arith, Bytes, codes, Result, ok, err, Error,
}
use golang_iothub.Service.Rest.{
  HttpRequest, Endpoint, uri_of, into, call, prepare, exchange, set_headers, common_headers,
}
use golang_iothub.Service.Rest.Exchange.{Returned, call_outcome}
use golang_iothub.Std.Url.PathSegment.{path_unescape, IsInside}
use golang_iothub.Service.Devices.{Codec, get_device, device_path}
use golang_iothub.Service.Devices.Guards.{get, requests, request_names_device}

abbrev server : Endpoint
server = record {
  host_name = codes "h.net";
  sas = ok (codes "t");
  random_string = ok (codes "r");
  new_request = λ method uri. none;
  perform = λ req. ok (record { status = 200; content = ok (codes "{}") });
}

abbrev unreadable {ℓ} : {A : Type ℓ} → Bytes → Result A
unreadable s = err Error.no_target

abbrev codec : Codec
codec = record {
  marshal_call = λ v. ok [];
  marshal_device = λ v. ok [];
  marshal_twin = λ v. ok [];
  marshal_object = λ v. ok [];
  read_result = unreadable;
  read_device = unreadable;
  read_devices = unreadable;
  read_twin = unreadable;
  read_stats = unreadable;
  read_object = unreadable;
  read_objects = unreadable;
}

call_outcome_example :
    let r = call server (codes "GET") (codes "devices/d") [] none (into ok) in
    ((req : HttpRequest) × (prepare server (codes "GET") (codes "devices/d") [] none ≡ ok req)
      × (r.0 ≡ req ∷ [])
      × (req.method ≡ codes "GET")
      × (req.uri ≡ uri_of (codes "h.net") (codes "devices/d"))
      × ((a : Bytes) → (r.1 ≡ ok a) ↔ Returned (into ok) a (server.perform req)))
    ⊎ (((req : HttpRequest) → prepare server (codes "GET") (codes "devices/d") [] none ≢ ok req)
        × (r.0 ≡ [])
        × ((a : Bytes) → r.1 ≢ ok a))
call_outcome_example = call_outcome server (codes "GET") (codes "devices/d") [] none (into ok)

abbrev slashed : Bytes
slashed = codes "a/b"

abbrev sent : HttpRequest
sent = record {
  method = codes "GET";
  uri = uri_of (codes "h.net") (device_path slashed);
  headers = common_headers (codes "t") (codes "r");
  content = [];
}

sent_get : requests server codec (get slashed) ≡ sent ∷ []
unfolding get_device call exchange prepare set_headers
sent_get = refl

request_names_device_example :
    (segment : Bytes) × (sent.method ≡ codes "GET")
    × (sent.uri
        ≡ codes "https://"
          ++ (codes "h.net" ++ (codes "/devices/" ++ (segment ++ codes "?api-version=2018-01-16"))))
    × All IsInside segment
    × (path_unescape segment ≡ ok slashed)
    × (slashed ≢ [])
request_names_device_example =
    request_names_device server codec (get slashed) sent (omega arith) sent_get
