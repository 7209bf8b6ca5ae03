-- ===== src/Std/Strconv/Parse.antt =====
-- Package strconv: Atoi of a 64-bit `int`, and the numbers that it reads back.
use mathlib.Core.WellFounded.{Acc}
use mathlib.Core.Logic.{dif_pos, dif_neg}
use native.Mathlib.Decide.{dec_lt}
use native.Mathlib.Bridge.{le_prop}
use golang_iothub.Base.{
  ℕ, zero, suc, ◌+◌, ◌-◌, ◌*◌, ◌/◌, ◌%◌, ◌^◌, ◌≤◌, ◌<◌, ◌≡◌, ◌≢◌, ap, ◌∙◌, [], ◌∷◌, Option, none,
  some, ◌||◌, arith, Bytes, ltb, ◌==◌, if◌then◌else◌, ℤ, pos, negsuc, All, Lacks, ◌⊎◌, inl, inr,
  subst,
}
use golang_iothub.Std.Strconv.{digits, format_int, nat-WellFounded, tenth-lt}

-- The number that decimal digits write, behind those that were read.
unfoldable pub read_digits : ℕ → Bytes → Option ℕ
read_digits n [] = some n
read_digits n (c ∷ s) =
    let rest = read_digits (n * 10 + (c - b'0')) s in
    if ltb c b'0' || ltb b'9' c then none else rest

-- The text behind the sign: no digits are an error, and so is a number out of range.
unfoldable pub positive : Bytes → Option ℤ
positive [] = none
positive (c ∷ s) = elim (read_digits 0 (c ∷ s)) [
  | none ↦ none
  | some n ↦ if ltb n (2 ^ 63) then some (pos n) else none
]

unfoldable pub negative : Bytes → Option ℤ
negative [] = none
negative (c ∷ s) = elim (read_digits 0 (c ∷ s)) [
  | none ↦ none
  | some zero ↦ some (pos 0)
  | some (suc n) ↦ if ltb n (2 ^ 63) then some (negsuc n) else none
]

-- `strconv.Atoi(s)`.
unfoldable pub atoi : Bytes → Option ℤ
unfolding positive negative read_digits
atoi [] = none
atoi (c ∷ s) = if c == b'-' then negative s else if c == b'+' then positive s else positive (c ∷ s)

read_digits_digit :
    (d n : ℕ) (s : Bytes) → d < 10 → read_digits n ((b'0' + d) ∷ s) ≡ read_digits (n * 10 + d) s
unfolding read_digits
read_digits_digit d n s h = let kept : b'0' + d - b'0' ≡ d = omega arith in rw kept (ground arith)

whole : (n : ℕ) → n / 10 * 10 + n % 10 ≡ n
whole n = omega arith

read_digits-digits :
    (n : ℕ) (w : Acc ◌<◌ n) (out : Bytes) → read_digits 0 (digits n w out) ≡ read_digits n out
unfolding digits
read_digits-digits n (Acc.intro _ smaller) out = elim (dec_lt 9 n) [
  | yes p ↦ rw (dif_pos _ le_prop p) (
      read_digits-digits (n / 10) (smaller (n / 10) (tenth-lt p)) ((b'0' + n % 10) ∷ out)
      ∙ read_digits_digit (n % 10) (n / 10) out (omega arith)
      ∙ ap (λ k. read_digits k out) (whole n))
  | no p ↦
      let alone : 0 * 10 + n ≡ n = omega arith in
      rw (dif_neg _ p) (read_digits_digit n 0 out (omega arith) ∙ ap (λ k. read_digits k out) alone)
]

abbrev pub IsDigit : ℕ → Type 0
IsDigit c = (b'0' ≤ c) × (c ≤ b'9')

-- A number is written with a digit at its head.
abbrev StartsWithDigit : Bytes → Type 0
StartsWithDigit [] = ⊥
StartsWithDigit (c ∷ s) = (b'0' ≤ c) × (c ≤ b'9')

digits-StartsWithDigit : (n : ℕ) (w : Acc ◌<◌ n) (out : Bytes) → StartsWithDigit (digits n w out)
unfolding digits
digits-StartsWithDigit n (Acc.intro _ smaller) out = elim (dec_lt 9 n) [
  | yes p ↦
      rw (dif_pos _ le_prop p)
        (digits-StartsWithDigit (n / 10) (smaller (n / 10) (tenth-lt p)) ((b'0' + n % 10) ∷ out))
  | no p ↦ rw (dif_neg _ p) (omega arith)
]

atoi-number :
    (s : Bytes) (n : ℕ)
    → StartsWithDigit s
    → read_digits 0 s ≡ some n
    → n < 2 ^ 63
    → atoi s ≡ some (pos n)
unfolding atoi positive
atoi-number [] n h e l = absurd h
atoi-number (c ∷ s) n h e l = ground (arith, h.0, h.1, e)

-- `Atoi` reads what `%d` writes of a number in range.
pub atoi-format_int : (n : ℕ) → n < 2 ^ 63 → atoi (format_int n) ≡ some (pos n)
unfolding format_int
atoi-format_int n l =
    let w = nat-WellFounded.apply n in
    atoi-number (digits n w []) n (digits-StartsWithDigit n w [])
      (unfold read_digits in read_digits-digits n w []) l

digits-IsDigit :
    (n : ℕ) (w : Acc ◌<◌ n) (out : Bytes) → All IsDigit out → All IsDigit (digits n w out)
unfolding digits
digits-IsDigit n (Acc.intro _ smaller) out h = elim (dec_lt 9 n) [
  | yes p ↦ rw (dif_pos _ le_prop p) (
      digits-IsDigit (n / 10) (smaller (n / 10) (tenth-lt p)) ((b'0' + n % 10) ∷ out)
        ((omega arith, omega arith), h))
  | no p ↦ rw (dif_neg _ p) ((omega arith, omega arith), h)
]

pub format_int-IsDigit : (n : ℕ) → All IsDigit (format_int n)
unfolding format_int
format_int-IsDigit n = digits-IsDigit n (nat-WellFounded.apply n) [] tt

-- Digits are none of the bytes outside their range.
pub IsDigit-Lacks : (c : ℕ) (s : Bytes) → c < b'0' ⊎ b'9' < c → All IsDigit s → Lacks c s
IsDigit-Lacks c [] out h = tt
IsDigit-Lacks c (d ∷ s) (inl below) h = (ground arith, IsDigit-Lacks c s (inl below) h.1)
IsDigit-Lacks c (d ∷ s) (inr above) h = (ground arith, IsDigit-Lacks c s (inr above) h.1)

pub format_int-ne-nil : (n : ℕ) → format_int n ≢ []
unfolding format_int
format_int-ne-nil n e =
    subst StartsWithDigit e (digits-StartsWithDigit n (nat-WellFounded.apply n) [])
