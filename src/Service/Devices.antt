-- ===== src/Service/Devices.antt =====
-- iotservice/client.go: the operations on devices, twins, statistics and jobs.
pub mod Guards
mod Tests
use golang_iothub.Base.{
  ℕ, List, [], ◌∷◌, ◌++◌, Option, none, some, Bool, Bytes, codes, Dict, Result, ok, err, panic,
  Error, ◌>>=◌,
}
use golang_iothub.Base.Json.{Json, text, boolean}
use golang_iothub.Std.Url.PathSegment.{path_escape}
use golang_iothub.Service.Registry.{Device, Twin, Stats, CallResult}
use golang_iothub.Service.Rest.{Endpoint, Answer, refused, panicked, call, nothing, into}

-- `call`, the body of a direct-method request.
pub record MethodCall : Type 0 where
  pub method_name : Bytes
  pub connect_timeout : ℕ
  pub response_timeout : ℕ
  pub payload : Dict Json

abbrev pub CallOption : Type 0
CallOption = MethodCall → Result MethodCall

unfoldable pub with_call_connect_timeout : ℕ → CallOption
with_call_connect_timeout seconds c = ok (record c { connect_timeout = seconds })

unfoldable pub with_call_response_timeout : ℕ → CallOption
with_call_response_timeout seconds c = ok (record c { response_timeout = seconds })

unfoldable pub apply_call_options : MethodCall → List CallOption → Result MethodCall
apply_call_options c [] = ok c
apply_call_options c (opt ∷ opts) = opt c >>= λ c'. apply_call_options c' opts

-- Package encoding/json on the types that the operations send and receive.
pub record Codec : Type 0 where
  pub marshal_call : MethodCall → Result Bytes
  pub marshal_device : Device → Result Bytes
  pub marshal_twin : Twin → Result Bytes
  pub marshal_object : Dict Json → Result Bytes
  pub read_result : Bytes → Result CallResult
  pub read_device : Bytes → Result Device
  pub read_devices : Bytes → Result (List Device)
  pub read_twin : Bytes → Result Twin
  pub read_stats : Bytes → Result Stats
  pub read_object : Bytes → Result (Dict Json)
  pub read_objects : Bytes → Result (List (Dict Json))

-- `http.Header{"If-Match": {etag}}`.
abbrev pub if_match : Bytes → Dict (List Bytes)
if_match etag = (codes "If-Match", etag ∷ []) ∷ []

unfoldable pub device_path : Bytes → Bytes
device_path id = codes "devices/" ++ path_escape id

unfoldable pub twin_path : Bytes → Bytes
twin_path id = codes "twins/" ++ path_escape id

unfoldable pub job_path : Bytes → Bytes
job_path id = codes "jobs/" ++ path_escape id

module _ (env : Endpoint) (codec : Codec) where
  unfoldable pub send_call : Bytes → Result MethodCall → Answer CallResult
  send_call id (ok v) =
      call env (codes "POST") (twin_path id ++ codes "/methods") [] (some (codec.marshal_call v))
        (into codec.read_result)
  send_call id (err e) = refused e
  send_call id panic = panicked

  unfoldable pub call_method : Bytes → Bytes → Dict Json → List CallOption → Answer CallResult
  unfolding send_call apply_call_options
  call_method [] name payload opts = refused Error.device_id_is_empty
  call_method (c ∷ id) [] payload opts = refused Error.method_name_is_empty
  call_method (c ∷ id) (n ∷ name) [] opts = refused Error.payload_is_empty
  call_method (c ∷ id) (n ∷ name) (p ∷ payload) opts =
      let start : MethodCall = record {
        method_name = n ∷ name;
        connect_timeout = 0;
        response_timeout = 0;
        payload = p ∷ payload;
      } in
      send_call (c ∷ id) (apply_call_options start opts)

  unfoldable pub get_device : Bytes → Answer Device
  unfolding device_path
  get_device [] = refused Error.device_id_is_empty
  get_device (c ∷ id) =
      call env (codes "GET") (device_path (c ∷ id)) [] none (into codec.read_device)

  -- `PUT` of a device, under its own identifier.
  unfoldable pub put_device : Dict (List Bytes) → Bytes → Device → Answer Device
  unfolding device_path
  put_device headers [] device = refused Error.device_id_is_empty
  put_device headers (c ∷ id) device =
      call env (codes "PUT") (device_path (c ∷ id)) headers (some (codec.marshal_device device))
        (into codec.read_device)

  unfoldable pub create_device : Option Device → Answer Device
  unfolding put_device
  create_device none = panicked
  create_device (some device) = put_device [] device.device_id device

  unfoldable pub update_device : Option Device → Answer Device
  unfolding put_device
  update_device none = panicked
  update_device (some device) = put_device (if_match (codes "*")) device.device_id device

  unfoldable pub delete_device : Bytes → Answer (Unit {0})
  unfolding device_path
  delete_device [] = refused Error.device_id_is_empty
  delete_device (c ∷ id) =
      call env (codes "DELETE") (device_path (c ∷ id)) (if_match (codes "*")) none (nothing tt)

  unfoldable pub list_devices : Answer (List Device)
  list_devices = call env (codes "GET") (codes "devices") [] none (into codec.read_devices)

  unfoldable pub get_twin : Bytes → Answer Twin
  unfolding twin_path
  get_twin id = call env (codes "GET") (twin_path id) [] none (into codec.read_twin)

  unfoldable pub update_twin : Bytes → Option Twin → Bytes → Answer Twin
  unfolding twin_path
  update_twin [] twin etag = refused Error.device_id_is_empty
  update_twin (c ∷ id) none etag = panicked
  update_twin (c ∷ id) (some twin) etag =
      call env (codes "PATCH") (twin_path (c ∷ id)) (if_match etag) (some (codec.marshal_twin twin))
        (into codec.read_twin)

  unfoldable pub get_stats : Answer Stats
  get_stats = call env (codes "GET") (codes "statistics/devices") [] none (into codec.read_stats)

  unfoldable pub create_job : Dict Json → Answer (Dict Json)
  create_job settings =
      call env (codes "GET") (codes "jobs/create") [] (some (codec.marshal_object settings))
        (into codec.read_object)

  unfoldable pub import_devices_from_blob : Bytes → Bytes → Answer (Dict Json)
  unfolding create_job
  import_devices_from_blob input output = create_job (
      (codes "type", text (codes "import"))
      ∷ (codes "inputBlobContainerUri", text input)
      ∷ (codes "outputBlobContainerUri", text output)
      ∷ [])

  unfoldable pub export_devices_to_blob : Bytes → Bool → Answer (Dict Json)
  unfolding create_job
  export_devices_to_blob output exclude_keys = create_job (
      (codes "type", text (codes "export"))
      ∷ (codes "outputBlobContainerUri", text output)
      ∷ (codes "excludeKeysInExport", boolean exclude_keys)
      ∷ [])

  unfoldable pub list_jobs : Answer (List (Dict Json))
  list_jobs = call env (codes "GET") (codes "jobs") [] none (into codec.read_objects)

  unfoldable pub get_job : Bytes → Answer (Dict Json)
  unfolding job_path
  get_job id = call env (codes "GET") (job_path id) [] none (into codec.read_object)

  unfoldable pub cancel_job : Bytes → Answer (Dict Json)
  unfolding job_path
  cancel_job id = call env (codes "DELETE") (job_path id) [] none (into codec.read_object)
