-- ===== src/Common/Tests.antt =====
-- The theorems of Common at concrete inputs.
use golang_iothub.Base.{
  ◌≡◌, refl, ◌≢◌, inl, List, [], ◌∷◌, ◌++◌, none, true, false, arith, codes, Bytes, length, any, ok,
  err, panic, Error, ◌⊎◌,
}
use golang_iothub.Base.{ℕ, some, ◌>>=◌, lookup}
use golang_iothub.Common.Message.{Message, empty_message}
use golang_iothub.Common.AmqpMessage.{to_amqp_message, from_amqp_message}
use golang_iothub.Common.AmqpMessage.RoundTrip.{carried, from_amqp_message-to_amqp_message}
use golang_iothub.Std.Strings.{split}
use golang_iothub.Std.Url.{query_escape}
use golang_iothub.Std.Strconv.{format_int}
use golang_iothub.Common.Credentials.{Credentials, blank, parse_connection_string}
use golang_iothub.Common.Credentials.Parse.{
  render, last_values, is_bare_key, parse_connection_string-render, parse_connection_string_outcome,
}
use golang_iothub.Common.Sas.{Crypto, expiry, signed_text, sas}
use golang_iothub.Common.Sas.Token.{Reads, sas-Reads}

abbrev fields : List (Bytes × Bytes)
fields =
    (codes "HostName", codes "h.net")
    ∷ (codes "SharedAccessKey", codes "a2V5=")
    ∷ (codes "HostName", codes "i.net")
    ∷ []

parse_connection_string-render_example :
    parse_connection_string (render fields) ≡ ok (last_values blank fields)
parse_connection_string-render_example =
    parse_connection_string-render fields (inl refl) (omega arith)

abbrev bare_text : Bytes
bare_text = codes "HostName;DeviceId=d;SharedAccessKey=k"

parse_connection_string_outcome_example :
    let chunks = split b';' bare_text in
    (length chunks ≢ 3
      → length chunks ≢ 4
      → parse_connection_string bare_text ≡ err Error.malformed_connection_string)
    × ((length chunks ≡ 3) ⊎ (length chunks ≡ 4)
        → any is_bare_key chunks ≡ true
        → parse_connection_string bare_text ≡ panic)
    × ((length chunks ≡ 3) ⊎ (length chunks ≡ 4)
        → any is_bare_key chunks ≡ false
        → (m : Credentials) × (parse_connection_string bare_text ≡ ok m))
parse_connection_string_outcome_example = parse_connection_string_outcome bare_text

-- A decoder, an encoder and a sum that leave texts alone.
abbrev plain_crypto : Crypto
plain_crypto = record {
  decode_string = λ s. ok s;
  encode_to_string = λ s. s;
  hmac_sha256 = λ key text. key ++ text;
}

abbrev creds : Credentials
creds = record blank {
  host_name = codes "h.net";
  shared_access_key = codes "k";
  shared_access_key_name = codes "n&m";
}

sas-Reads_example :
    (t : Bytes) × (sas plain_crypto 3000000000 creds (codes "h.net/d") 4000000000 ≡ ok t)
    × Reads t
        (codes "h.net/d")
        (plain_crypto.encode_to_string (
          plain_crypto.hmac_sha256
            (codes "k")
            (signed_text (query_escape (codes "h.net/d")) (expiry none 3000000000 4000000000))))
        (format_int (expiry none 3000000000 4000000000))
        (codes "n&m")
unfolding signed_text query_escape format_int expiry
sas-Reads_example =
    sas-Reads plain_crypto 3000000000 creds (codes "h.net/d") 4000000000 (codes "k") refl
      (omega arith) refl refl (omega arith) (omega arith) (omega arith)

-- A message with a payload, an expiry time and a property.
abbrev alert : Message
alert = record empty_message {
  payload = some (codes "hot");
  message_id = codes "m";
  expiry_time = some 7;
  properties = some ((codes "k", codes "v") ∷ []);
}

from_amqp_message-to_amqp_message_example :
    ((t : ℕ)
      → alert.expiry_time ≡ some t
      → (to_amqp_message alert >>= from_amqp_message) ≡ ok (carried alert))
    × (alert.expiry_time ≡ none → to_amqp_message alert ≡ panic)
unfolding lookup
from_amqp_message-to_amqp_message_example = from_amqp_message-to_amqp_message alert (refl, tt)
