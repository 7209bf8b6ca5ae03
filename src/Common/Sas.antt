-- ===== src/Common/Sas.antt =====
-- common/sas.go: `Credentials.SAS`.
pub mod Token
use golang_iothub.Base.{
  ℕ, ◌+◌, ◌/◌, ◌≡◌, refl, List, [], ◌∷◌, ◌++◌, Option, none, some, Bool, true, false, Bytes, codes,
  ◌==◌, if◌then◌else◌, Result, ok, err, Error, refuse_if, ◌>>=◌, ◌>>◌,
}
use golang_iothub.Std.Url.{query_escape}
use golang_iothub.Std.Strconv.{format_int}
use golang_iothub.Common.Credentials.{Credentials}

-- Packages crypto/hmac with crypto/sha256, and encoding/base64.
pub record Crypto : Type 0 where
  pub decode_string : Bytes → Result Bytes
  pub encode_to_string : Bytes → Bytes
  -- The sum of `hmac.New(sha256.New, key)` after one `Write` of the text.
  pub hmac_sha256 : Bytes → Bytes → Bytes

-- `s == ""`.
abbrev pub is_blank : Bytes → Bool
is_blank [] = true
is_blank (c ∷ s) = false

-- `ts.Add(duration).Unix()`, both in nanoseconds; `clock` is `time.Now()`.
unfoldable pub expiry : Option ℕ → ℕ → ℕ → ℕ
expiry none clock duration = (clock + duration) / 1000000000
expiry (some now) clock duration = (now + duration) / 1000000000

-- What is signed: `fmt.Sprintf("%s\n%d", sr, se)`.
unfoldable pub signed_text : Bytes → ℕ → Bytes
signed_text sr se = sr ++ b'\n' ∷ format_int se

unfoldable pub token : Bytes → Bytes → ℕ → Bytes → Bytes
token sr sig se skn =
    codes "SharedAccessSignature "
    ++ (codes "sr="
        ++ (sr
            ++ (codes "&sig="
                ++ (query_escape sig
                    ++ (codes "&se="
                        ++ (query_escape (format_int se)
                            ++ (codes "&skn=" ++ query_escape skn)))))))

unfoldable pub sas : Crypto → ℕ → Credentials → Bytes → ℕ → Result Bytes
unfolding expiry signed_text token
sas crypto clock c uri duration = do
  refuse_if (is_blank uri) Error.uri_is_blank
  refuse_if (duration == 0) Error.duration_is_zero
  refuse_if (is_blank c.shared_access_key) Error.key_is_blank
  let sr = query_escape uri
  let se = expiry c.now clock duration
  key ← crypto.decode_string c.shared_access_key
  let sum = crypto.hmac_sha256 key (signed_text sr se)
  ok (token sr (crypto.encode_to_string sum) se c.shared_access_key_name)
