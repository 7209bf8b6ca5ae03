-- ===== src/Common/Credentials.antt =====
-- common/sas.go: the credentials and the parser of connection strings.
pub mod Parse
use golang_iothub.Base.{
  ℕ, ◌≡◌, refl, List, [], ◌∷◌, Option, none, some, Bool, ◌&&◌, not, Bytes, codes, same, length,
  ◌==◌, if◌then◌else◌, Result, ok, err, panic, Error, refuse_if, ◌>>=◌, ◌>>◌,
}
use golang_iothub.Std.Strings.{split, split_two}

pub record Credentials : Type 0 where
  pub host_name : Bytes
  pub device_id : Bytes
  pub shared_access_key : Bytes
  pub shared_access_key_name : Bytes
  -- `now time.Time` in nanoseconds since 1970; `none` is the zero time.
  pub now : Option ℕ

abbrev pub blank : Credentials
blank = record {
  host_name = [];
  device_id = [];
  shared_access_key = [];
  shared_access_key_name = [];
  now = none;
}

-- `c[1]` of `c := strings.SplitN(chunk, "=", 2)`: out of range without an `=`.
abbrev second : Option Bytes → (Bytes → Credentials) → Result Credentials
second none write = panic
second (some v) write = ok (write v)

-- One round of the loop: the `switch c[0]`.
pub assign : Credentials → Bytes → Result Credentials
assign m chunk =
    let (k, v) = split_two b'=' chunk in
    if same k (codes "HostName")
    then second v (λ x. record m { host_name = x })
    else if same k (codes "DeviceId")
    then second v (λ x. record m { device_id = x })
    else if same k (codes "SharedAccessKey")
    then second v (λ x. record m { shared_access_key = x })
    else if same k (codes "SharedAccessKeyName")
    then second v (λ x. record m { shared_access_key_name = x })
    else ok m

pub assign_all : Credentials → List Bytes → Result Credentials
assign_all m [] = ok m
assign_all m (chunk ∷ chunks) = assign m chunk >>= λ m'. assign_all m' chunks

unfoldable pub parse_connection_string : Bytes → Result Credentials
unfolding assign assign_all
parse_connection_string cs = do
  let chunks = split b';' cs
  refuse_if (not (length chunks == 3) && not (length chunks == 4)) Error.malformed_connection_string
  assign_all blank chunks

device_string :
    parse_connection_string (codes "HostName=h.net;DeviceId=d;SharedAccessKey=c2VjcmV0")
    ≡ ok (record blank {
      host_name = codes "h.net";
      device_id = codes "d";
      shared_access_key = codes "c2VjcmV0";
    })
unfolding parse_connection_string split split_two same
device_string = refl

missing_value : parse_connection_string (codes "HostName;DeviceId=d;SharedAccessKey=k") ≡ panic
unfolding parse_connection_string split split_two same
missing_value = refl
