-- ===== src/Std/Url/RoundTrip.antt =====
-- Unescaping undoes escaping, and escaped text is free of the bytes that queries are cut at.
use golang_iothub.Base.{
  ℕ, ◌+◌, ◌*◌, ◌/◌, ◌%◌, ◌<◌, ◌≡◌, ◌≢◌, refl, ap, ◌∙◌, [], ◌∷◌, ◌++◌, some, true, arith, Bytes,
  ◌==◌, All, All-append, Result, ok, ◌>>=◌, Bool-cases, inl, inr,
}
use golang_iothub.Std.Url.{
  escape_byte, is_unreserved, hex_digit, query_escape, unhex, plain, unescape_from, query_unescape,
}

-- Every element is a byte.
abbrev pub IsBytes : Bytes → Type 0
IsBytes = All (λ c. c < 256)

pub unhex-hex_digit : (n : ℕ) → n < 16 → unhex (hex_digit n) ≡ some n
unfolding unhex hex_digit
unhex-hex_digit n h = ground arith

abbrev pub then_ok : ℕ → Result Bytes → Result Bytes
then_ok c m = m >>= λ r. ok (c ∷ r)

unreserved_plain :
    (c : ℕ) → is_unreserved c ≡ true → (c ≢ b'%') × (c ≢ b'+') × (c ≢ b'&') × (c ≢ b'=')
unfolding is_unreserved
unreserved_plain c h = ground arith

pub unescape_from_plain :
    (c : ℕ) (s : Bytes)
    → c ≢ b'%'
    → c ≢ b'+'
    → unescape_from plain (c ∷ s) ≡ then_ok c (unescape_from plain s)
unfolding unescape_from
unescape_from_plain c s p q = ground arith

unescape_from_hex :
    (h l : ℕ) (s : Bytes)
    → h < 16
    → l < 16
    → unescape_from plain (b'%' ∷ hex_digit h ∷ hex_digit l ∷ s)
      ≡ then_ok (h * 16 + l) (unescape_from plain s)
unfolding unescape_from
unescape_from_hex h l s p q =
    rw (unhex-hex_digit h p, unescape_from) (rw (unhex-hex_digit l q, unescape_from))

unescape_from_space :
    (c : ℕ) (s : Bytes)
    → (c == b' ') ≡ true
    → unescape_from plain (b'+' ∷ s) ≡ then_ok c (unescape_from plain s)
unfolding unescape_from
unescape_from_space c s h = ground arith

whole : (c : ℕ) → c / 16 * 16 + c % 16 ≡ c
whole c = omega arith

pub unescape_from-escape_byte :
    (c : ℕ) (s : Bytes)
    → c < 256
    → unescape_from plain (escape_byte c ++ s) ≡ then_ok c (unescape_from plain s)
unfolding escape_byte
unescape_from-escape_byte c s h = elim (Bool-cases (is_unreserved c)) [
  | inl e ↦
      let (p, q, _, _) = unreserved_plain c e in rw (e, escape_byte) (unescape_from_plain c s p q)
  | inr e ↦ elim (Bool-cases (c == b' ')) [
    | inl space ↦ rw (e, space) (unescape_from_space c s space)
    | inr other ↦
        rw (e, other)
          (unescape_from_hex (c / 16) (c % 16) s (omega arith) (omega arith)
            ∙ ap (λ k. then_ok k (unescape_from plain s)) (whole c))
  ]
]

-- `QueryUnescape` undoes `QueryEscape`.
pub query_unescape-query_escape : (s : Bytes) → IsBytes s → query_unescape (query_escape s) ≡ ok s
unfolding query_unescape query_escape
query_unescape-query_escape [] h = unfold unescape_from in refl
query_unescape-query_escape (c ∷ s) h =
    rw (unescape_from-escape_byte c _ h.0, query_unescape-query_escape s h.1)

-- The bytes that a query is cut at.
abbrev pub IsPlain : ℕ → Type 0
IsPlain c = (c ≢ b'&') × (c ≢ b'=')

escape_byte-IsPlain : (c : ℕ) → c < 256 → All IsPlain (escape_byte c)
unfolding escape_byte hex_digit
escape_byte-IsPlain c h = elim (Bool-cases (is_unreserved c)) [
  | inl e ↦ ground (arith, unreserved_plain c e)
  | inr e ↦ ground arith
]

pub query_escape-IsPlain : (s : Bytes) → IsBytes s → All IsPlain (query_escape s)
unfolding query_escape
query_escape-IsPlain [] h = tt
query_escape-IsPlain (c ∷ s) h =
    All-append IsPlain (escape_byte c) (query_escape s) (escape_byte-IsPlain c h.0)
      (query_escape-IsPlain s h.1)

unreserved-ne : (c : ℕ) → is_unreserved c ≡ true → c ≢ b';'
unfolding is_unreserved
unreserved-ne c h = ground arith

escape_byte-Lacks : (c : ℕ) → c < 256 → All (λ b. b ≢ b';') (escape_byte c)
unfolding escape_byte hex_digit
escape_byte-Lacks c h = elim (Bool-cases (is_unreserved c)) [
  | inl e ↦ ground (arith, unreserved-ne c e)
  | inr e ↦ ground arith
]

pub query_escape-Lacks : (s : Bytes) → IsBytes s → All (λ b. b ≢ b';') (query_escape s)
unfolding query_escape
query_escape-Lacks [] h = tt
query_escape-Lacks (c ∷ s) h =
    All-append (λ b. b ≢ b';') (escape_byte c) (query_escape s) (escape_byte-Lacks c h.0)
      (query_escape-Lacks s h.1)
