-- ===== src/Std/Url.antt =====
-- Package net/url: QueryEscape and QueryUnescape.
pub mod RoundTrip
pub mod PathSegment
pub mod Query
pub mod Plain
pub mod Pairs
pub mod Encoding
use golang_iothub.Base.{
  ℕ, ◌+◌, ◌-◌, ◌*◌, ◌/◌, ◌%◌, ◌≡◌, refl, [], ◌∷◌, ◌++◌, Option, none, some, Bool, ◌&&◌, ◌||◌, arith,
  Bytes, codes, ltb, leb, ◌==◌, if◌then◌else◌, Result, ok, err, Error, ◌>>=◌,
}

is_between : ℕ → ℕ → ℕ → Bool
is_between lo hi c = leb lo c && leb c hi

-- `!shouldEscape(c, encodeQueryComponent)`.
is_unreserved : ℕ → Bool
unfolding is_between
is_unreserved c =
    is_between b'a' b'z' c
    || is_between b'A' b'Z' c
    || is_between b'0' b'9' c
    || c == b'-'
    || c == b'_'
    || c == b'.'
    || c == b'~'

-- `"0123456789ABCDEF"[n]`.
pub hex_digit : ℕ → ℕ
hex_digit n = if ltb n 10 then b'0' + n else b'A' + (n - 10)

pub escape_byte : ℕ → Bytes
escape_byte c =
    if is_unreserved c
    then c ∷ []
    else if c == b' '
    then b'+' ∷ []
    else b'%' ∷ hex_digit (c / 16) ∷ hex_digit (c % 16) ∷ []

-- `url.QueryEscape(s)`.
unfoldable pub query_escape : Bytes → Bytes
unfolding escape_byte hex_digit is_unreserved
query_escape [] = []
query_escape (c ∷ s) = escape_byte c ++ query_escape s

pub unhex : ℕ → Option ℕ
unfolding is_between
unhex c =
    if is_between b'0' b'9' c
    then some (c - b'0')
    else if is_between b'a' b'f' c
    then some (c - b'a' + 10)
    else if is_between b'A' b'F' c
    then some (c - b'A' + 10)
    else none

-- Where the scan of an escaped text stands: outside an escape, behind `%`, behind its first digit.
pub data Mode : Type 0 where
  plain percent : Mode
  digit : ℕ → Mode

unfoldable pub unescape_from : Mode → Bytes → Result Bytes
unfolding unhex
unescape_from plain [] = ok []
unescape_from _ [] = err Error.invalid_url_escape
unescape_from plain (c ∷ s) =
    let escaped = unescape_from percent s in
    let copied = unescape_from plain s >>= λ r. ok ((if c == b'+' then b' ' else c) ∷ r) in
    if c == b'%' then escaped else copied
unescape_from percent (c ∷ s) = elim (unhex c) [
  | none ↦ err Error.invalid_url_escape
  | some h ↦ unescape_from (digit h) s
]
unescape_from (digit h) (c ∷ s) = elim (unhex c) [
  | none ↦ err Error.invalid_url_escape
  | some l ↦ unescape_from plain s >>= λ r. ok ((h * 16 + l) ∷ r)
]

-- `url.QueryUnescape(s)`.
unfoldable pub query_unescape : Bytes → Result Bytes
unfolding unescape_from
query_unescape s = unescape_from plain s

escaped_path : query_escape (codes "h.net/devices/a b=") ≡ codes "h.net%2Fdevices%2Fa+b%3D"
unfolding query_escape
escaped_path = refl

unescaped_path : query_unescape (codes "%24.to=%2Fa+b") ≡ ok (codes "$.to=/a b")
unfolding query_unescape
unescaped_path = refl

cut_escape : query_unescape (codes "a%2") ≡ err Error.invalid_url_escape
unfolding query_unescape
cut_escape = refl
