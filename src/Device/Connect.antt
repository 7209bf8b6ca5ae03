-- ===== src/Device/Connect.antt =====
-- iotdevice/client.go: `Connect`, with its retry loop.
use golang_iothub.Base.{
  ℕ, zero, suc, ◌+◌, ◌<◌, ◌≡◌, subst, ◌∙◌, Option, none, some, Bool, true, false, ◌&&◌, arith,
  if◌then◌else◌, Error, List, [], ◌∷◌, ◌++◌, refl, inl, inr, Option-cases,
}
use native.Mathlib.Nat.{add-zero}

-- The transport as the loop meets it: what its k-th `Connect` returns (`none` is success), and
-- `IsNetworkError`.
pub record Attempts : Type 0 where
  pub outcome : ℕ → Option Error
  pub is_network_error : Error → Bool

-- `err != nil && ignoreNetErrors && IsNetworkError(err)`.
unfoldable pub is_retried : (Error → Bool) → Bool → Option Error → Bool
is_retried net ignore none = false
is_retried net ignore (some e) = ignore && net e

-- The loop from its k-th attempt on fuel: how many attempts were made, and `c.connErr`, which is
-- also what `Connect` returns; `none` where the fuel runs out.
unfoldable pub connect_from : ℕ → ℕ → Attempts → Bool → Option (ℕ × Option Error)
unfolding is_retried
connect_from zero k a ignore = none
connect_from (suc fuel) k a ignore =
    let again = connect_from fuel (suc k) a ignore in
    if is_retried a.is_network_error ignore (a.outcome k) then again else some (suc k, a.outcome k)

swap_suc : (k i : ℕ) → k + suc i ≡ suc k + i
swap_suc k i = omega arith

-- The loop is left at the first attempt whose outcome is not retried: if the `n` attempts from the
-- k-th are all network errors that are ignored and the next is none, any fuel above `n` is enough,
-- `n + 1` attempts are made, and the last one's outcome is stored and returned.
pub connect_from_lem :
    (n fuel k : ℕ) (a : Attempts) (ignore : Bool)
    → n < fuel
    → ((i : ℕ) → i < n → is_retried a.is_network_error ignore (a.outcome (k + i)) ≡ true)
    → is_retried a.is_network_error ignore (a.outcome (k + n)) ≡ false
    → connect_from fuel k a ignore ≡ some (suc (k + n), a.outcome (k + n))
unfolding connect_from
connect_from_lem n zero k a ignore enough before last = absurd (omega arith)
connect_from_lem zero (suc fuel) k a ignore enough before last =
    let here : k + 0 ≡ k = omega arith in ground (arith, here)
connect_from_lem (suc n) (suc fuel) k a ignore enough before last =
    let first : is_retried a.is_network_error ignore (a.outcome k) ≡ true =
      subst (λ j. is_retried a.is_network_error ignore (a.outcome j) ≡ true) (add-zero k)
        (before 0 (omega arith)) in
    let moved : suc k + n ≡ k + suc n = omega arith in
    rw first (
      connect_from_lem n fuel (suc k) a ignore (omega arith)
        (λ i l.
          subst (λ j. is_retried a.is_network_error ignore (a.outcome j) ≡ true) (swap_suc k i)
            (before (suc i) (omega arith)))
        (rw moved last)
      ∙ rw moved)

-- The error that `Connect` stores is never a network error where those are ignored.
connect_from-ne-network :
    (fuel k n : ℕ) (a : Attempts) (e : Error)
    → connect_from fuel k a true ≡ some (n, some e)
    → a.is_network_error e ≡ false
unfolding connect_from
connect_from-ne-network zero k n a e h = cc
connect_from-ne-network (suc fuel) k n a e h =
    ground (arith, connect_from-ne-network fuel (suc k) n a e)

-- `connection`, and the option that sets its one field.
pub record Connection : Type 0 where
  pub ignore_net_errors : Bool

abbrev pub ConnOption : Type 0
ConnOption = Connection → Connection

unfoldable pub with_conn_ignore_net_errors : Bool → ConnOption
with_conn_ignore_net_errors ignore c = record c { ignore_net_errors = ignore }

unfoldable pub apply_conn_options : List ConnOption → Connection → Connection
apply_conn_options [] conn = conn
apply_conn_options (opt ∷ opts) conn = apply_conn_options opts (opt conn)

-- `Connect` with its options, from the attempt that is the transport's first.
unfoldable pub connect : ℕ → Attempts → List ConnOption → Option (ℕ × Option Error)
unfolding apply_conn_options
connect fuel a opts =
    connect_from fuel 0 a
      (apply_conn_options opts (record { ignore_net_errors = false })).ignore_net_errors

-- The last option wins.
apply_conn_options-last :
    (opts : List ConnOption) (ignore : Bool) (conn : Connection)
    → apply_conn_options (opts ++ with_conn_ignore_net_errors ignore ∷ []) conn
      ≡ record { ignore_net_errors = ignore }
unfolding apply_conn_options with_conn_ignore_net_errors
apply_conn_options-last [] ignore conn = refl
apply_conn_options-last (opt ∷ opts) ignore conn = apply_conn_options-last opts ignore (opt conn)

-- Without an option that says so, `Connect` makes one attempt and returns what it ends with.
connect_once : (fuel : ℕ) (a : Attempts) → connect (suc fuel) a [] ≡ some (1, a.outcome 0)
unfolding connect apply_conn_options connect_from is_retried
connect_once fuel a = elim (Option-cases (a.outcome 0)) [
  | inl e ↦ rw e refl
  | inr (x, e) ↦ rw e refl
]
