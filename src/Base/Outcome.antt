-- ===== src/Base/Outcome.antt =====
-- Go's `(T, error)`, with the third outcome of a call: a panic.
use mathlib.Core.Path.{◌≡◌, refl}
use mathlib.Core.Logic.{◌≢◌, ◌⊎◌, inl, inr}
use mathlib.Core.Bool.{Bool, true, false, ◌||◌}
use Prim.Native.Nat.{ℕ}
use golang_iothub.Base.Text.{Bytes}
use golang_iothub.Base.Tests.{ltb, if◌then◌else◌}
use golang_iothub.Base.Lists.{length, take, drop}
use golang_iothub.Base.Integers.{ℤ}

-- The errors that the source makes, and `other` for an error with a text of its own that comes
-- from a library, a server or a caller.
pub data Error : Type 0 where
  malformed_connection_string : Error
  uri_is_blank duration_is_zero key_is_blank : Error
  credentials_required transport_required : Error
  not_connected already_connected closed : Error
  name_is_blank payload_is_nil payload_is_empty : Error
  device_id_is_empty method_name_is_empty key_not_available : Error
  already_registered not_registered : Bytes → Error
  not_supported request_timed_out invalid_url_escape : Error
  request_failed : ℤ → Error
  context_done : Error
  no_status correlation_mismatch no_value no_partition_ids redirect_expected : Error
  bad_status : ℤ → Bytes → Error
  bad_response : ℕ → Bytes → Error
  no_target : Error
  malformed_topic rid_not_available invalid_number : Error
  unexpected_values : ℕ → Error
  invalid_usage odd_arguments : Error
  unknown_ack : Bytes → Error
  other : Bytes → Error

pub data Result {ℓ} (T : Type ℓ) : Type ℓ where
  panic : Result T
  err : (reason : Error) → Result T
  ok : (value : T) → Result T

-- `x, err := first(); if err != nil { return err }; return then(x)`.
infixl 5 ◌>>=◌ ◌>>◌
abbrev pub ◌>>=◌ {ℓ κ} :
    {S : Type ℓ} {T : Type κ} (first : Result S) (then_do : S → Result T) → Result T
panic >>= _ = panic
(err reason) >>= _ = err reason
(ok value) >>= then_do = then_do value

abbrev pub ◌>>◌ {ℓ} : {T : Type ℓ} (first : Result (Unit {0})) (second : Result T) → Result T
first >> second = first >>= λ _. second

-- An early `return err` under a test.
abbrev pub refuse_if : Bool → Error → Result (Unit {0})
refuse_if true e = err e
refuse_if false e = ok tt

-- A call that neither fails nor panics returns.
pub ok_of_ne {ℓ} :
    {A : Type ℓ} (r : Result A) → r ≢ panic → ((e : Error) → r ≢ err e) → (a : A) × (r ≡ ok a)
ok_of_ne (ok a) p q = (a, refl)
ok_of_ne (err e) p q = absurd (q e refl)
ok_of_ne panic p q = absurd (p refl)

pub >>=-eq-ok {ℓ κ} :
    {S : Type ℓ} {T : Type κ} (first : Result S) (then_do : S → Result T) {t : T}
    → (first >>= then_do) ≡ ok t
    → (s : S) × (first ≡ ok s) × (then_do s ≡ ok t)
>>=-eq-ok panic _ returned = cc
>>=-eq-ok (err _) _ returned = cc
>>=-eq-ok (ok value) _ returned = (value, refl, returned)

pub Result-cases {ℓ} :
    {A : Type ℓ} (r : Result A) → ((a : A) × (r ≡ ok a)) ⊎ ((e : Error) × (r ≡ err e)) ⊎ (r ≡ panic)
Result-cases (ok a) = inl (a, refl)
Result-cases (err e) = inr (inl (e, refl))
Result-cases panic = inr (inr refl)

-- `s[from:to]`.
abbrev pub slice : ℕ → ℕ → Bytes → Result Bytes
slice from to s = if ltb to from || ltb (length s) to then panic else ok (drop from (take to s))
