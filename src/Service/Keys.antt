-- ===== src/Service/Keys.antt =====
-- iotservice/client.go: `deviceKey`, `DeviceConnectionString` and `DeviceSAS`.
use golang_iothub.Base.{
  ℕ, ◌≡◌, refl, ap, ◌∙◌, inl, List, [], ◌∷◌, ◌++◌, Option, none, some, Bool, arith, Bytes, codes,
  same, Lacks, All, All-append, if◌then◌else◌, Result, ok, err, panic, Error, ◌>>=◌,
}
use golang_iothub.Common.Credentials.{Credentials, blank, parse_connection_string}
use golang_iothub.Common.Credentials.Parse.{
  IsField, render, last_value, last_values, parse_connection_string-render,
}
use golang_iothub.Common.Sas.{Crypto, sas}
use golang_iothub.Service.Registry.{SymmetricKey, Authentication, Device}

unfoldable pub key_of : SymmetricKey → Bool → Bytes
key_of k secondary = if secondary then k.secondary_key else k.primary_key

abbrev key_in : Option SymmetricKey → Bool → Result Bytes
key_in none secondary = err Error.key_not_available
key_in (some k) secondary = ok (key_of k secondary)

abbrev key_under : Option Authentication → Bool → Result Bytes
key_under none secondary = err Error.key_not_available
key_under (some a) secondary = key_in a.symmetric_key secondary

unfoldable pub device_key : Device → Bool → Result Bytes
device_key device secondary = key_under device.authentication secondary

-- `fmt.Sprintf("HostName=%s;DeviceId=%s;SharedAccessKey=%s", …)`.
connection_text : Bytes → Bytes → Bytes → Bytes
connection_text host device_id key =
    codes "HostName="
    ++ (host ++ (codes ";DeviceId=" ++ (device_id ++ (codes ";SharedAccessKey=" ++ key))))

-- The credentials are the client's; `none` is a nil device.
unfoldable pub device_connection_string : Credentials → Option Device → Bool → Result Bytes
unfolding connection_text
device_connection_string creds none secondary = panic
device_connection_string creds (some device) secondary = do
  key ← device_key device secondary
  ok (connection_text creds.host_name device.device_id key)

unfoldable pub device_sas : Crypto → ℕ → Credentials → Option Device → ℕ → Bool → Result Bytes
device_sas crypto clock creds none duration secondary = panic
device_sas crypto clock creds (some device) duration secondary = do
  key ← device_key device secondary
  let device_creds = record blank {
    host_name = creds.host_name;
    device_id = device.device_id;
    shared_access_key = key;
  }
  sas crypto clock device_creds device_creds.host_name duration

abbrev fields : Bytes → Bytes → Bytes → List (Bytes × Bytes)
fields host device_id key =
    (codes "HostName", host) ∷ (codes "DeviceId", device_id) ∷ (codes "SharedAccessKey", key) ∷ []

chunk-Lacks : (k v : Bytes) → Lacks b';' k → Lacks b';' v → Lacks b';' (k ++ b'=' ∷ v)
chunk-Lacks k v hk hv = All-append _ k (b'=' ∷ v) hk (omega arith, hv)

fields_valid :
    (host device_id key : Bytes)
    → Lacks b';' host
    → Lacks b';' device_id
    → Lacks b';' key
    → All IsField (fields host device_id key)
fields_valid host device_id key h d k =
    let one = chunk-Lacks (codes "HostName") host (omega arith) h in
    let two = chunk-Lacks (codes "DeviceId") device_id (omega arith) d in
    let three = chunk-Lacks (codes "SharedAccessKey") key (omega arith) k in
    ((omega arith, one), ((omega arith, two), ((omega arith, three), tt)))

fields_values :
    (host device_id key : Bytes)
    → last_values blank (fields host device_id key)
      ≡ record blank { host_name = host; device_id = device_id; shared_access_key = key }
unfolding last_value same
fields_values host device_id key = refl

connection_text-render :
    (host device_id key : Bytes)
    → connection_text host device_id key ≡ render (fields host device_id key)
unfolding connection_text render
connection_text-render host device_id key = refl

-- The connection string that the service makes for a device with a symmetric key is parsed by the
-- device to the service's host name, the device's id and the key that was asked for, with no key
-- name, as long as none of the three holds a `;`.
pub parse-device_connection_string :
    (creds : Credentials) (device : Device) (secondary : Bool) (key : Bytes)
    → device_key device secondary ≡ ok key
    → Lacks b';' creds.host_name
    → Lacks b';' device.device_id
    → Lacks b';' key
    → (device_connection_string creds (some device) secondary >>= parse_connection_string)
      ≡ ok (record blank {
        host_name = creds.host_name;
        device_id = device.device_id;
        shared_access_key = key;
      })
unfolding device_connection_string
parse-device_connection_string creds device secondary key e h d k =
    rw (e, connection_text-render creds.host_name device.device_id key)
      (parse_connection_string-render (fields creds.host_name device.device_id key) (inl refl)
          (fields_valid creds.host_name device.device_id key h d k)
        ∙ ap ok (fields_values creds.host_name device.device_id key))
