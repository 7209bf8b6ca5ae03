-- ===== src/Eventhub/Random.antt =====
-- eventhub/client.go: `RandString`.
use golang_iothub.Base.{
  ℕ, ◌<◌, ◌+◌, ◌*◌, ◌/◌, ◌%◌, ◌≡◌, refl, [], ◌∷◌, All, Bytes, length, ltb, if◌then◌else◌, Result,
  ok, ◌>>=◌, arith,
}

-- `%x` of a byte slice.
abbrev pub hex_digit : ℕ → ℕ
hex_digit n = if ltb n 10 then b'0' + n else 87 + n

unfoldable pub hex : Bytes → Bytes
hex [] = []
hex (b ∷ s) = hex_digit (b / 16) ∷ hex_digit (b % 16) ∷ hex s

-- `rand` is what `rand.Read` makes of the 16 bytes.
unfoldable pub rand_string : Result Bytes → Result Bytes
unfolding hex
rand_string rand = rand >>= λ b. ok (hex b)

length-hex : (s : Bytes) → length (hex s) ≡ 2 * length s
unfolding hex
length-hex [] = refl
length-hex (b ∷ s) = let rest = length-hex s in omega arith

hex_digit-injective : (a b : ℕ) → a < 16 → b < 16 → hex_digit a ≡ hex_digit b → a ≡ b
hex_digit-injective a b l k h = ground arith

hex-injective : (s t : Bytes) → All (λ b. b < 256) s → All (λ b. b < 256) t → hex s ≡ hex t → s ≡ t
unfolding hex
hex-injective [] [] l k h = refl
hex-injective [] (b ∷ t) l k h = cc h
hex-injective (a ∷ s) [] l k h = cc h
hex-injective (a ∷ s) (b ∷ t) (l, ls) (k, ks) h =
    let high : hex_digit (a / 16) ≡ hex_digit (b / 16) = cc h in
    let low : hex_digit (a % 16) ≡ hex_digit (b % 16) = cc h in
    let rest : hex s ≡ hex t = cc h in
    let high' : a / 16 ≡ b / 16 =
      hex_digit-injective (a / 16) (b / 16) (omega arith) (omega arith) high in
    let low' : a % 16 ≡ b % 16 =
      hex_digit-injective (a % 16) (b % 16) (omega arith) (omega arith) low in
    let one : a ≡ b = omega arith in cc (one, hex-injective s t ls ks rest)

-- `RandString` makes 32 bytes of the 16 that it reads, and different ones of different ones.
rand_string_lem :
    (s t : Bytes)
    → All (λ b. b < 256) s
    → All (λ b. b < 256) t
    → length s ≡ 16
    → ((r : Bytes) × (rand_string (ok s) ≡ ok r) × (length r ≡ 32))
      × (rand_string (ok s) ≡ rand_string (ok t) → s ≡ t)
unfolding rand_string
rand_string_lem s t l k h =
    let long = length-hex s in ((hex s, refl, omega arith), λ e. hex-injective s t l k (cc e))
