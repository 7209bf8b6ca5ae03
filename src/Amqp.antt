-- ===== src/Amqp.antt =====
-- Package pack.ag/amqp as eventhub/client.go and iotservice/client.go use it: connections,
-- sessions and links that are opened and closed, and the answers of the other side, which are a
-- parameter.
pub mod Balance
use golang_iothub.Base.{
  ℕ, suc, List, [], ◌∷◌, Option, none, some, Bool, not, ◌==◌, Bytes, Dict, ℤ, keep_if, Result, ok,
  err, panic, Error,
}

-- A value of `ApplicationProperties` or a correlation id.
pub data Value : Type 0 where
  int32 : ℤ → Value
  text : Bytes → Value
  foreign : Value

-- A value of the map in the body of a management response.
pub data Item : Type 0 where
  strings : List Bytes → Item
  foreign_item : Item

-- A message that was received. `correlation_id` is `none` where `Properties` is a nil pointer,
-- `value` where the body is no `map[string]interface{}`.
pub record Reply : Type 0 where
  pub application_properties : Dict Value
  pub correlation_id : Option Value
  pub value : Option (Dict Item)

-- How a receiver ends on the first read of an event hub's address: with a message, with an error,
-- or detached by a redirect, whose entries are `none` where they are no strings.
pub data Detach : Type 0 where
  message : Detach
  failed : Error → Detach
  redirected : Option Bytes → Option Bytes → Detach

-- What the other side, and the random source, do at the k-th call.
pub record Peer : Type 0 where
  pub opens : ℕ → Option Error
  pub closes : ℕ → Option Error
  pub sends : ℕ → Option Error
  pub receives : ℕ → Result Reply
  pub detaches : ℕ → Detach
  pub random : ℕ → Result Bytes

-- How many calls were made, and what is open: a connection, session or link is the number of the
-- call that opened it.
pub record World : Type 0 where
  pub calls : ℕ
  pub is_open : List ℕ

abbrev pub Run {ℓ} : Type ℓ → Type ℓ
Run A = World → World × Result A

abbrev pub tick : World → World
tick w = record w { calls = suc w.calls }

-- `return a, err`.
unfoldable pub lift {ℓ} : {A : Type ℓ} → Result A → Run A
lift r w = (w, r)

-- `a, err := m(); if err != nil { return err }`.
unfoldable pub and_then {ℓ κ} :
    {A : Type ℓ} {B : Type κ} (outcome : World × Result A) (f : A → Run B) → World × Result B
and_then (w, ok a) f = f a w
and_then (w, err e) f = (w, err e)
and_then (w, panic) f = (w, panic)

infixl 5 ◌>>=◌ ◌>>◌
unfoldable pub ◌>>=◌ {ℓ κ} : {A : Type ℓ} {B : Type κ} (m : Run A) (f : A → Run B) → Run B
unfolding and_then
(m >>= f) w = and_then (m w) f

unfoldable pub ◌>>◌ {ℓ} : {B : Type ℓ} (m : Run (Unit {0})) (k : Run B) → Run B
m >> k = m >>= λ _. k

-- `Dial`, `NewSession`, `NewSender` or `NewReceiver`.
unfoldable pub acquire : Peer → Run ℕ
acquire peer w = elim (peer.opens w.calls) [
  | some e ↦ (tick w, err e)
  | none ↦ (record w { calls = suc w.calls; is_open = w.calls ∷ w.is_open }, ok w.calls)
]

abbrev pub release : ℕ → World → World
release h w = record { calls = suc w.calls; is_open = keep_if (λ j. not (j == h)) w.is_open }

-- `Close`.
unfoldable pub close : Peer → ℕ → Run (Unit {0})
close peer h w = elim (peer.closes w.calls) [
  | some e ↦ (release h w, err e)
  | none ↦ (release h w, ok tt)
]

-- `defer h.Close()`: the rest of the function, and the close whatever it returns.
unfoldable pub deferred {ℓ} : {A : Type ℓ} → ℕ → Run A → Run A
deferred h body w = (release h (body w).0, (body w).1)

-- An open whose close is deferred.
unfoldable pub with_handle {ℓ} : {A : Type ℓ} → Peer → (ℕ → Run A) → Run A
unfolding ◌>>=◌ acquire deferred
with_handle peer body = acquire peer >>= λ h. deferred h (body h)

unfoldable pub send : Peer → Run (Unit {0})
send peer w = elim (peer.sends w.calls) [ some e ↦ (tick w, err e) | none ↦ (tick w, ok tt) ]

unfoldable pub receive : Peer → Run Reply
receive peer w = (tick w, peer.receives w.calls)

unfoldable pub random_string : Peer → Run Bytes
random_string peer w = (tick w, peer.random w.calls)

unfoldable pub first_read : Peer → Run Detach
first_read peer w = (tick w, ok (peer.detaches w.calls))
