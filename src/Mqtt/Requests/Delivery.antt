-- ===== src/Mqtt/Requests/Delivery.antt =====
-- What the handler of twin responses does with one that arrives.
use golang_iothub.Base.{
  ℕ, ◌≡◌, ◌∷◌, none, some, pos, ◌⊎◌, ℤ-cases, Option-cases, inl, inr, update, ok, panic,
}
use golang_iothub.Mqtt.Requests.{Resp, Arrival, System, resp_of, deliver}

-- What the handler of a response does with it.
pub deliver-cases :
    (m : Arrival) (s : System)
    → (deliver m s ≡ ok s)
      ⊎ ((r c : ℕ) × (s.table r ≡ some c)
          × (s.buffer c ≡ none)
          × (deliver m s
              ≡ ok (record s {
                buffer = update s.buffer c (some (resp_of m));
                delivered = (r, resp_of m) ∷ s.delivered;
              })))
      ⊎ ((r c : ℕ) × (x : Resp) × (m.rid ≡ pos r)
          × (s.table r ≡ some c)
          × (s.buffer c ≡ some x)
          × (deliver m s ≡ panic))
unfolding deliver
deliver-cases m s = elim (ℤ-cases m.rid) [
  | inr (n, e) ↦ inl (rw e)
  | inl (r, e) ↦ elim (Option-cases (s.table r)) [
    | inl f ↦ inl (rw (e, deliver, f))
    | inr (c, f) ↦ elim (Option-cases (s.buffer c)) [
      | inl g ↦ inr (inl (r, c, f, g, rw (e, deliver, f, g)))
      | inr (x, g) ↦ inr (inr (r, c, x, e, f, g, rw (e, deliver, f, g)))
    ]
  ]
]
