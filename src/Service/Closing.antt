-- ===== src/Service/Closing.antt =====
-- iotservice/client.go: `Close`, behind a `Connect`.
use golang_iothub.Base.{
  ℕ, ◌≡◌, refl, ap, ◌∙◌, Option, none, some, Bool, true, false, Bytes, if◌then◌else◌, Result, ok,
}
use golang_iothub.Amqp.{Peer, World}
use golang_iothub.Amqp.Balance.{Below}
use golang_iothub.Eventhub.{Client, close_client}
use golang_iothub.Service.Connect.{connect, connect_releases, closed_both}

-- The fields of the client that `Close` uses: whether `done` is closed, and the connection.
pub record Life : Type 0 where
  pub is_done : Bool
  pub conn : Option Client

-- `c.conn.Close()`, where there is a connection.
unfoldable pub close_conn : Peer → Option Client → World → World × Result (Unit {0})
close_conn peer none w = (w, ok tt)
close_conn peer (some eh) w = let (x, eh', r) = close_client peer eh w in (x, r)

unfoldable pub close_service : Peer → Life → World → World × Life × Result (Unit {0})
unfolding close_conn
close_service peer c w =
    let (x, r) = close_conn peer c.conn w in
    if c.is_done then (w, c, ok tt) else (x, record c { is_done = true }, r)

-- `Close` behind a `Connect` that succeeds leaves nothing open of what `Connect` has opened, if no close fails, and
-- from then on `Close` does nothing and returns nil.
pub close_service-connect :
    (peer : Peer) (sas : Result Bytes) (w : World) (eh : Client)
    → Below w
    → ((k : ℕ) → peer.closes k ≡ none)
    → (connect peer sas none w).1 ≡ ok eh
    → let closed =
        close_service peer
          (record { is_done = false; conn = some eh })
          (connect peer sas none w).0 in
      (closed.0.is_open ≡ w.is_open)
      × ((x : World) → close_service peer closed.1 x ≡ (x, closed.1, ok tt))
unfolding close_service
close_service-connect peer sas w eh b closes connected =
    let (same, both_open) = (connect_releases peer sas w b closes).1 eh connected in
    (
      ap (λ c. (close_client peer c (connect peer sas none w).0).0.is_open) same
          ∙ closed_both peer w (connect peer sas none w).0 b closes both_open,
      λ x. refl,
    )
