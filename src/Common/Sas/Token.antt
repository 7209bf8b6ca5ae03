-- ===== src/Common/Sas/Token.antt =====
-- What a token holds, read back the way a receiver does.
use golang_iothub.Base.{
  ℕ, ◌≡◌, ◌≢◌, refl, List, [], ◌∷◌, ◌++◌, Option, none, some, true, false, arith, Bytes, codes,
  take, drop, All, All-append, Lacks, Result, ok, err, Error, ◌>>=◌,
}
use golang_iothub.Std.Strings.{split, split_two, split-append, split-Lacks, split_two-append}
use golang_iothub.Std.Url.{query_escape, query_unescape}
use golang_iothub.Std.Url.RoundTrip.{
  IsBytes, IsPlain, query_unescape-query_escape, query_escape-IsPlain,
}
use golang_iothub.Std.Strconv.{format_int, format_int-IsBytes}
use golang_iothub.Common.Credentials.{Credentials}
use golang_iothub.Common.Sas.{Crypto, is_blank, expiry, signed_text, token, sas}

-- One `name=value` of a query, its value unescaped.
read_value : Bytes × Option Bytes → Result (Bytes × Bytes)
read_value (k, none) = err Error.invalid_url_escape
read_value (k, some v) = query_unescape v >>= λ x. ok (k, x)

read_field : Bytes → Result (Bytes × Bytes)
unfolding read_value
read_field f = read_value (split_two b'=' f)

pub read_fields : List Bytes → Result (List (Bytes × Bytes))
unfolding read_field
read_fields [] = ok []
read_fields (f ∷ fs) = read_field f >>= λ x. read_fields fs >>= λ xs. ok (x ∷ xs)

Plain-Lacks : (s : Bytes) → All IsPlain s → Lacks b'&' s
Plain-Lacks [] h = tt
Plain-Lacks (c ∷ s) h = (h.0.0, Plain-Lacks s h.1)

-- A name and an escaped value: the field is not cut at `&`, and is read back.
field-Lacks :
    (name s : Bytes) → Lacks b'&' name → IsBytes s → Lacks b'&' (name ++ b'=' ∷ query_escape s)
field-Lacks name s h b =
    All-append _ name (b'=' ∷ query_escape s) h
      (omega arith, Plain-Lacks _ (query_escape-IsPlain s b))

read_field-escaped :
    (name s : Bytes)
    → Lacks b'=' name
    → IsBytes s
    → read_field (name ++ b'=' ∷ query_escape s) ≡ ok (name, s)
unfolding read_field
read_field-escaped name s h b =
    rw (split_two-append b'=' name (query_escape s) h, query_unescape-query_escape s b)

abbrev field : Bytes → Bytes → Bytes
field name s = name ++ b'=' ∷ query_escape s

-- The four fields of a token, between `&`.
split-token :
    (uri sig se skn : Bytes)
    → IsBytes uri
    → IsBytes sig
    → IsBytes se
    → IsBytes skn
    → split b'&' (
        field (codes "sr") uri
        ++ b'&'
          ∷ (field (codes "sig") sig
              ++ b'&' ∷ (field (codes "se") se ++ b'&' ∷ field (codes "skn") skn)))
      ≡ field (codes "sr") uri
        ∷ field (codes "sig") sig
        ∷ field (codes "se") se
        ∷ field (codes "skn") skn
        ∷ []
split-token uri sig se skn a b c d = rw (
  split-append b'&' (field (codes "sr") uri) _ (field-Lacks (codes "sr") uri (omega arith) a),
  split-append b'&' (field (codes "sig") sig) _ (field-Lacks (codes "sig") sig (omega arith) b),
  split-append b'&' (field (codes "se") se) _ (field-Lacks (codes "se") se (omega arith) c),
  split-Lacks b'&' (field (codes "skn") skn) (field-Lacks (codes "skn") skn (omega arith) d),
)

token-fields :
    (uri sig skn : Bytes) (se : ℕ)
    → drop 22 (token (query_escape uri) sig se skn)
      ≡ field (codes "sr") uri
        ++ b'&'
          ∷ (field (codes "sig") sig
              ++ b'&' ∷ (field (codes "se") (format_int se) ++ b'&' ∷ field (codes "skn") skn))
unfolding token
token-fields uri sig skn se = refl

-- What a receiver reads in a token: the scheme's name, and the four named values.
abbrev pub Reads : Bytes → Bytes → Bytes → Bytes → Bytes → Type 0
Reads t uri sig se skn =
    (take 22 t ≡ codes "SharedAccessSignature ")
    × (read_fields (split b'&' (drop 22 t))
        ≡ ok ((codes "sr", uri) ∷ (codes "sig", sig) ∷ (codes "se", se) ∷ (codes "skn", skn) ∷ []))

token-Reads :
    (uri sig skn : Bytes) (se : ℕ)
    → IsBytes uri
    → IsBytes sig
    → IsBytes skn
    → Reads (token (query_escape uri) sig se skn) uri sig (format_int se) skn
unfolding token read_fields
token-Reads uri sig skn se a b d =
    let c = format_int-IsBytes se in
    (
      refl,
      rw (token-fields uri sig skn se, split-token uri sig (format_int se) skn a b c d)
          (rw (
            read_field-escaped (codes "sr") uri (omega arith) a,
            read_field-escaped (codes "sig") sig (omega arith) b,
            read_field-escaped (codes "se") (format_int se) (omega arith) c,
            read_field-escaped (codes "skn") skn (omega arith) d,
          )),
    )

-- With a uri, a duration and a key that decodes, `SAS` returns a token, and whoever reads it back
-- finds the uri as given, the signature of the escaped uri and the expiry under the decoded key,
-- the expiry in seconds (of the stored time if one is set, else of the clock), and the key's name.
-- Uri, key name and the encoded signature are sequences of bytes.
pub sas-Reads :
    (crypto : Crypto) (clock : ℕ) (c : Credentials) (uri : Bytes) (duration : ℕ) (key : Bytes)
    → let se = expiry c.now clock duration in
      let sig =
        crypto.encode_to_string (crypto.hmac_sha256 key (signed_text (query_escape uri) se)) in
      is_blank uri ≡ false
      → duration ≢ 0
      → is_blank c.shared_access_key ≡ false
      → crypto.decode_string c.shared_access_key ≡ ok key
      → IsBytes uri
      → IsBytes sig
      → IsBytes c.shared_access_key_name
      → (t : Bytes) × (sas crypto clock c uri duration ≡ ok t)
        × Reads t uri sig (format_int se) c.shared_access_key_name
unfolding sas
sas-Reads crypto clock c uri duration key u d k e bu bs bn =
    let se = expiry c.now clock duration in
    let sig =
      crypto.encode_to_string (crypto.hmac_sha256 key (signed_text (query_escape uri) se)) in
    (
      token (query_escape uri) sig se c.shared_access_key_name,
      ground (arith, e),
      token-Reads uri sig c.shared_access_key_name se bu bs bn,
    )

-- `SAS` refuses a blank uri, then a zero duration, then a blank key, each before what follows it is
-- looked at; behind these the decoder's error is passed on, and `SAS` never panics where the
-- decoder does not.
sas_refuses :
    (crypto : Crypto) (clock : ℕ) (c : Credentials) (uri : Bytes) (duration : ℕ)
    → (is_blank uri ≡ true → sas crypto clock c uri duration ≡ err Error.uri_is_blank)
      × (is_blank uri ≡ false
          → duration ≡ 0
          → sas crypto clock c uri duration ≡ err Error.duration_is_zero)
      × (is_blank uri ≡ false
          → duration ≢ 0
          → is_blank c.shared_access_key ≡ true
          → sas crypto clock c uri duration ≡ err Error.key_is_blank)
      × ((e : Error)
          → is_blank uri ≡ false
          → duration ≢ 0
          → is_blank c.shared_access_key ≡ false
          → crypto.decode_string c.shared_access_key ≡ err e
          → sas crypto clock c uri duration ≡ err e)
unfolding sas
sas_refuses crypto clock c uri duration =
    (λ a. ground arith, λ a b. ground arith, λ a b d. ground arith, λ e a b d f. ground arith)
