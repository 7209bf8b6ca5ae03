-- ===== src/Std/Url/PathSegment.antt =====
-- Package net/url: PathEscape, of one segment of a path, and its inverse PathUnescape.
use golang_iothub.Base.{
  ℕ, ◌+◌, ◌*◌, ◌/◌, ◌%◌, ◌<◌, ◌≡◌, ◌≢◌, refl, ap, sym, ◌∙◌, [], ◌∷◌, ◌++◌, none, some, true, Bool,
  ◌||◌, arith, Bytes, codes, ◌==◌, if◌then◌else◌, All, All-append, Lacks, Result, ok, err, Error,
  ◌>>=◌, Bool-cases, inl, inr,
}
use golang_iothub.Std.Url.{is_unreserved, hex_digit, unhex, Mode, plain, percent, digit}
use golang_iothub.Std.Url.RoundTrip.{IsBytes, unhex-hex_digit}

-- `!shouldEscape(c, encodePathSegment)`.
is_segment_byte : ℕ → Bool
unfolding is_unreserved
is_segment_byte c =
    is_unreserved c || c == b'$' || c == b'&' || c == b'+' || c == b':' || c == b'=' || c == b'@'

segment_byte : ℕ → Bytes
unfolding is_segment_byte hex_digit
segment_byte c =
    if is_segment_byte c then c ∷ [] else b'%' ∷ hex_digit (c / 16) ∷ hex_digit (c % 16) ∷ []

-- `url.PathEscape(s)`.
unfoldable pub path_escape : Bytes → Bytes
unfolding segment_byte
path_escape [] = []
path_escape (c ∷ s) = segment_byte c ++ path_escape s

unescape_from : Mode → Bytes → Result Bytes
unfolding unhex
unescape_from plain [] = ok []
unescape_from _ [] = err Error.invalid_url_escape
unescape_from plain (c ∷ s) =
    let escaped = unescape_from percent s in
    let copied = unescape_from plain s >>= λ r. ok (c ∷ r) in if c == b'%' then escaped else copied
unescape_from percent (c ∷ s) = elim (unhex c) [
  | none ↦ err Error.invalid_url_escape
  | some h ↦ unescape_from (digit h) s
]
unescape_from (digit h) (c ∷ s) = elim (unhex c) [
  | none ↦ err Error.invalid_url_escape
  | some l ↦ unescape_from plain s >>= λ r. ok ((h * 16 + l) ∷ r)
]

-- `url.PathUnescape(s)`.
unfoldable pub path_unescape : Bytes → Result Bytes
unfolding unescape_from
path_unescape s = unescape_from plain s

abbrev then_ok : ℕ → Result Bytes → Result Bytes
then_ok c m = m >>= λ r. ok (c ∷ r)

segment_plain :
    (c : ℕ) → is_segment_byte c ≡ true → (c ≢ b'%') × (c ≢ b'/') × (c ≢ b'?') × (c ≢ b'#')
unfolding is_segment_byte
segment_plain c h = ground arith

unescape_from_plain :
    (c : ℕ) (s : Bytes) → c ≢ b'%' → unescape_from plain (c ∷ s) ≡ then_ok c (unescape_from plain s)
unfolding unescape_from
unescape_from_plain c s p = ground arith

unescape_from_hex :
    (h l : ℕ) (s : Bytes)
    → h < 16
    → l < 16
    → unescape_from plain (b'%' ∷ hex_digit h ∷ hex_digit l ∷ s)
      ≡ then_ok (h * 16 + l) (unescape_from plain s)
unfolding unescape_from
unescape_from_hex h l s p q =
    rw (unhex-hex_digit h p, unescape_from) (rw (unhex-hex_digit l q, unescape_from))

whole : (c : ℕ) → c / 16 * 16 + c % 16 ≡ c
whole c = omega arith

unescape_from-segment_byte :
    (c : ℕ) (s : Bytes)
    → c < 256
    → unescape_from plain (segment_byte c ++ s) ≡ then_ok c (unescape_from plain s)
unfolding segment_byte
unescape_from-segment_byte c s h = elim (Bool-cases (is_segment_byte c)) [
  | inl e ↦ let (p, _, _, _) = segment_plain c e in rw (e, segment_byte) (unescape_from_plain c s p)
  | inr e ↦
      rw (e, segment_byte)
        (unescape_from_hex (c / 16) (c % 16) s (omega arith) (omega arith)
          ∙ ap (λ k. then_ok k (unescape_from plain s)) (whole c))
]

-- `PathUnescape` undoes `PathEscape`.
pub path_unescape-path_escape : (s : Bytes) → IsBytes s → path_unescape (path_escape s) ≡ ok s
unfolding path_unescape path_escape
path_unescape-path_escape [] h = unfold unescape_from in refl
path_unescape-path_escape (c ∷ s) h =
    rw (unescape_from-segment_byte c _ h.0, path_unescape-path_escape s h.1)

pub path_escape-inj : (s t : Bytes) → IsBytes s → IsBytes t → path_escape s ≡ path_escape t → s ≡ t
path_escape-inj s t hs ht e =
    let same : ok s ≡ ok t =
      sym (path_unescape-path_escape s hs) ∙ ap path_unescape e ∙ path_unescape-path_escape t ht in
    cc same

-- No byte of an escaped segment ends it.
abbrev pub IsInside : ℕ → Type 0
IsInside c = (c ≢ b'/') × (c ≢ b'?') × (c ≢ b'#')

segment_byte-IsInside : (c : ℕ) → c < 256 → All IsInside (segment_byte c)
unfolding segment_byte hex_digit
segment_byte-IsInside c h = elim (Bool-cases (is_segment_byte c)) [
  | inl e ↦ ground (arith, segment_plain c e)
  | inr e ↦ ground arith
]

pub path_escape-IsInside : (s : Bytes) → IsBytes s → All IsInside (path_escape s)
unfolding path_escape
path_escape-IsInside [] h = tt
path_escape-IsInside (c ∷ s) h =
    All-append IsInside (segment_byte c) (path_escape s) (segment_byte-IsInside c h.0)
      (path_escape-IsInside s h.1)

pub path_unescape-Lacks : (s : Bytes) → Lacks b'%' s → path_unescape s ≡ ok s
unfolding path_unescape unescape_from
path_unescape-Lacks [] h = refl
path_unescape-Lacks (c ∷ s) h = ground (arith, path_unescape-Lacks s h.1)

escaped_segment : path_escape (codes "a/b c:d") ≡ codes "a%2Fb%20c:d"
unfolding path_escape
escaped_segment = refl
