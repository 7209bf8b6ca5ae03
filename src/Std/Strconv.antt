-- ===== src/Std/Strconv.antt =====
-- Package strconv: numbers in decimal.
pub mod Parse
use mathlib.Core.WellFounded.{Acc, WellFounded}
use mathlib.Core.Logic.{dite, dif_pos, dif_neg}
use native.Mathlib.Decide.{dec_lt}
use native.Mathlib.Bridge.{le_prop}
use golang_iothub.Base.{
  ℕ, zero, suc, ℤ, pos, negsuc, ◌+◌, ◌/◌, ◌%◌, ◌<◌, ◌≡◌, refl, [], ◌∷◌, arith, Bytes, codes, All,
}

-- Every number that is less than `bound` is accessible.
below-Acc : (bound : ℕ) {n : ℕ} → n < bound → Acc ◌<◌ n
below-Acc zero impossible = absurd (omega arith)
below-Acc (suc bound) within = Acc.intro _ λ smaller less. below-Acc bound (omega arith)

nat-WellFounded : WellFounded ◌<◌
unfolding below-Acc
nat-WellFounded = record { apply = λ top. below-Acc (top + 1) (omega arith) }

pub tenth-lt : {n : ℕ} → 9 < n → n / 10 < n
tenth-lt more = omega arith

-- The digits of a number, before what is written already.
digits : (n : ℕ) → Acc ◌<◌ n → Bytes → Bytes
digits n (Acc.intro _ smaller) out =
    dite (dec_lt 9 n) (λ h. digits (n / 10) (smaller (n / 10) (tenth-lt h)) ((b'0' + n % 10) ∷ out))
      (λ _. (b'0' + n) ∷ out)

-- `%d` and `FormatInt(n, 10)` of a number that is not negative.
unfoldable pub format_int : ℕ → Bytes
unfolding digits nat-WellFounded dec_lt
format_int n = digits n (nat-WellFounded.apply n) []

digits-IsBytes :
    (n : ℕ) (w : Acc ◌<◌ n) (out : Bytes)
    → All (λ c. c < 256) out
    → All (λ c. c < 256) (digits n w out)
unfolding digits
digits-IsBytes n (Acc.intro _ smaller) out h = elim (dec_lt 9 n) [
  | yes p ↦ rw (dif_pos _ le_prop p) (
      digits-IsBytes (n / 10) (smaller (n / 10) (tenth-lt p)) ((b'0' + n % 10) ∷ out)
        (omega arith, h))
  | no p ↦ rw (dif_neg _ p) (omega arith, h)
]

pub format_int-IsBytes : (n : ℕ) → All (λ c. c < 256) (format_int n)
unfolding format_int
format_int-IsBytes n = digits-IsBytes n (nat-WellFounded.apply n) [] tt

format_int_1483236061 : format_int 1483236061 ≡ codes "1483236061"
unfolding format_int
format_int_1483236061 = refl

-- `%d` of an int.
unfoldable pub format_signed : ℤ → Bytes
format_signed (pos n) = format_int n
format_signed (negsuc n) = b'-' ∷ format_int (suc n)
