-- ===== src/Service/EventHub/Tests.antt =====
-- The connection to the event hub, with a peer that redirects.
use golang_iothub.Base.{ℕ, ◌≡◌, ◌≢◌, refl, ◌⊎◌, [], ◌∷◌, none, some, Bytes, codes, ok, err, Error}
use golang_iothub.Std.Strings.{index, has_prefix}
use golang_iothub.Common.Credentials.{Credentials, blank}
use golang_iothub.Amqp.{Peer, World, redirected}
use golang_iothub.Service.EventHub.{connect_to_event_hub, group_of, group_start}
use golang_iothub.Service.EventHub.Leaks.{connect_to_event_hub_leaks}

abbrev owner : Credentials
owner = record blank { host_name = codes "h.net"; shared_access_key_name = codes "iothubowner" }

-- A broker where everything opens, and which sends the client to a consumer group.
abbrev redirecting : Peer
redirecting = record {
  opens = λ k. none;
  closes = λ k. none;
  sends = λ k. some Error.context_done;
  receives = λ k. err Error.context_done;
  detaches = λ k. redirected (some (codes "amqps://h:5671/grp/")) (some (codes "h"));
  random = λ k. ok [];
}

abbrev idle : World
idle = record { calls = 0; is_open = [] }

group_test : group_of (codes "amqps://h:5671/grp/") ≡ ok (codes "grp")
unfolding group_of group_start index has_prefix
group_test = refl

connect_to_event_hub_leaks_example :
    let r = connect_to_event_hub redirecting owner (ok []) idle in
    ((c : ℕ) (g : Bytes) → r.1 ≡ ok (c, g) → (c ≢ 0) × (r.0.is_open ≡ c ∷ 0 ∷ []))
    × ((e : Error)
        → r.1 ≡ err e
        → (r.0.is_open ≡ []) ⊎ ((e ≡ Error.redirect_expected) × (r.0.is_open ≡ 0 ∷ [])))
connect_to_event_hub_leaks_example = connect_to_event_hub_leaks redirecting owner (ok []) idle tt
