-- ===== src/Mqtt/Twins.antt =====
-- iotdevice/transport/mqtt/mqtt.go: what the transport subscribes, the handlers of twin messages,
-- and the twin requests.
pub mod Answers
pub mod Filters
use golang_iothub.Base.{
  ℕ, List, ◌++◌, Option, none, some, Bytes, codes, if◌then◌else◌, ℤ, Result, ok, err, panic, Error,
  ◌>>=◌,
}
use golang_iothub.Std.Url.Query.{Url}
use golang_iothub.Device.Mux.Handlers.{Handler}
use golang_iothub.Device.Mux.States.{StateMux, TwinState, started}
use golang_iothub.Mqtt.Topics.{parse_twin_props_topic}
use golang_iothub.Mqtt.Requests.{Resp, System, deliver}
use golang_iothub.Mqtt.Transport.{Transport}

-- The topic filters.
unfoldable pub events_filter : Bytes → Bytes
events_filter did = codes "devices/" ++ (did ++ codes "/messages/devicebound/#")

unfoldable pub twin_updates_filter : Bytes
twin_updates_filter = codes "$iothub/twin/PATCH/properties/desired/#"

unfoldable pub methods_filter : Bytes
methods_filter = codes "$iothub/methods/POST/#"

unfoldable pub responses_filter : Bytes
responses_filter = codes "$iothub/twin/res/#"

-- `contextToken(ctx, tr.conn.Subscribe(filter, defaultQoS, …))`; `hub` is how the call ends, with
-- the filter and the quality of service. On a nil `tr.conn` the call panics.
unfoldable pub subscribe : (Bytes → ℕ → Option Error) → Transport → Bytes → Result (Unit {0})
subscribe hub tr filter =
    let asked : Result (Unit {0}) = elim (hub filter 1) [ none ↦ ok tt | some e ↦ err e ] in
    if tr.has_conn then asked else panic

unfoldable pub subscribe_events : (Bytes → ℕ → Option Error) → Transport → Result (Unit {0})
unfolding subscribe events_filter
subscribe_events hub tr = subscribe hub tr (events_filter tr.did)

unfoldable pub subscribe_twin_updates : (Bytes → ℕ → Option Error) → Transport → Result (Unit {0})
unfolding subscribe twin_updates_filter
subscribe_twin_updates hub tr = subscribe hub tr twin_updates_filter

unfoldable pub register_direct_methods : (Bytes → ℕ → Option Error) → Transport → Result (Unit {0})
unfolding subscribe methods_filter
register_direct_methods hub tr = subscribe hub tr methods_filter

-- The handler of `SubscribeTwinUpdates`: the calls that the mux starts.
unfoldable pub on_twin_update :
    (Bytes → Result TwinState) → StateMux → Bytes → List (Handler × TwinState)
on_twin_update unmarshal mux payload = started unmarshal mux payload

-- The handler of `enableTwinResponses`: a topic that is not understood is dropped.
unfoldable pub on_response : (Bytes → Result Url) → Bytes → Bytes → System → Result System
on_response other topic payload s = elim (parse_twin_props_topic other topic) [
  | ok (rc, rid, ver) ↦ deliver (record { rc = rc; rid = rid; ver = ver; payload = payload }) s
  | err e ↦ ok s
  | panic ↦ panic
]

-- What `RetrieveTwinProperties` and `UpdateTwinProperties` make of what `request` returns.
unfoldable pub retrieve_twin_properties : Result Resp → Result Bytes
retrieve_twin_properties requested = requested >>= λ r. ok r.body

unfoldable pub update_twin_properties : Result Resp → Result ℤ
update_twin_properties requested = requested >>= λ r. ok r.ver
