-- ===== src/Mqtt/Interface.antt =====
-- iotdevice/transport/mqtt/mqtt.go: the MQTT transport as a transport of the device client.
pub mod Laws
pub mod Sending
mod Tests
use golang_iothub.Base.{
  ℕ, suc, List, ◌++◌, Option, none, some, Bool, if◌then◌else◌, Bytes, Result, ok, Error,
}
use mathlib.Core.Option
use golang_iothub.Common.Message.{Message}
use golang_iothub.Common.Sas.{Crypto}
use golang_iothub.Device.Options.{Provider, DeviceCredentials}
use golang_iothub.Device.Transport as Interface
use golang_iothub.Mqtt.Topics.{Clock, Publication, send_message, is_network_error}
use golang_iothub.Mqtt.Transport.{Transport, ClientOptions, connect_transport, close_transport}
use golang_iothub.Mqtt.Requests.{Resp}
use golang_iothub.Mqtt.Twins as Twins

-- What the transport runs on: the errors' texts, the clocks, the credentials, and the MQTT library,
-- whose `Connect` may end differently at every attempt. `requested` is what `request` returns, which
-- Mqtt/Requests models.
pub record Environment : Type 0 where
  pub text : Error → Bytes
  pub time : Clock
  pub crypto : Crypto
  pub provider : Provider
  pub now : ℕ → ℕ
  pub dial : ℕ → ClientOptions → Option Error
  pub publish : Publication → Result (Unit {0})
  pub hub : Bytes → ℕ → Option Error
  pub requested : Option Bytes → Result Resp
  pub is_connected : Bool

-- The transport, how often it was asked to connect, what it has published, and how often it has
-- called `Disconnect`.
pub record Wire : Type 0 where
  pub tr : Transport
  pub attempts : ℕ
  pub published : List Publication
  pub disconnects : ℕ

module _ (env : Environment) where
  unfoldable pub connect_wire : DeviceCredentials → Wire → Wire × Result (Unit {0})
  unfolding connect_transport
  connect_wire creds w =
      let (tr, r) =
        connect_transport (env.dial w.attempts) env.crypto (env.now w.attempts) env.provider creds
          w.tr in
      (record w { tr = tr; attempts = suc w.attempts }, r)

  unfoldable pub send_wire : Message → Wire → Wire × Result (Unit {0})
  unfolding send_message
  send_wire msg w =
      let (sent, r) = send_message env.publish env.time w.tr.has_conn w.tr.did msg in
      (record w { published = w.published ++ sent }, r)

  unfoldable pub close_wire : Wire → Wire × Result (Unit {0})
  unfolding close_transport
  close_wire w =
      let (tr, called) = close_transport env.is_connected w.tr in
      (
        record w { tr = tr; disconnects = if called then suc w.disconnects else w.disconnects },
        ok tt,
      )

  abbrev pub mqtt : Interface.Transport Wire DeviceCredentials
  mqtt = record {
    connect = connect_wire;
    is_network_error = λ e. is_network_error (Option.map env.text e);
    send = send_wire;
    register_direct_methods = λ w. (w, Twins.register_direct_methods env.hub w.tr);
    subscribe_events = λ w. (w, Twins.subscribe_events env.hub w.tr);
    subscribe_twin_updates = λ w. (w, Twins.subscribe_twin_updates env.hub w.tr);
    retrieve_twin_properties = λ w. (w, Twins.retrieve_twin_properties (env.requested none));
    update_twin_properties = λ b w. (w, Twins.update_twin_properties (env.requested (some b)));
    close = close_wire;
  }
