-- ===== src/Client/Program.antt =====
-- main.cpp: what becomes of the program, whatever the server sends.
use xds_client.Base.{
  ℕ, zero, suc, ◌+◌, ◌*◌, ◌≤◌, Bool, true, false, not, ◌&&◌, ◌||◌, none, some, List, [], ◌∷◌, ◌≡◌,
  refl, ap, ◌∙◌, fault, null_stream, empty_pop, ◌>>=◌, arith, ◌==◌, eq_iff, length,
}
use xds_client.Wire.{DiscoveryResponse}
use xds_client.Client.State.{
  AdsClient, new_client, set_channel, api_state_for, cluster_url, clear_nonce,
}
use xds_client.Client.Requests.{queue_discovery_request, drain_requests}
use xds_client.Client.Streams.{on_stream_established, request_subscriptions, shutdown, main}
use xds_client.Client.Loop.{Ready, is_empty, some_asks}
use xds_client.Client.Loop.Entry.{queue_discovery_request_reentrant}
use xds_client.Client.Steps.Established.{opened}

-- The server sends at least one cluster.
abbrev pub has_clusters : List DiscoveryResponse → Bool
has_clusters [] = false
has_clusters (m ∷ ms) = (cluster_url == m.type_url && not (is_empty m.resources)) || has_clusters ms

-- The client of `main` when its stream has been made.
abbrev pub start : List DiscoveryResponse → AdsClient
start inbound = opened inbound (set_channel (new_client false))

pub start-Ready : (inbound : List DiscoveryResponse) → Ready (start inbound)
unfolding set_channel new_client clear_nonce
start-Ready inbound = record { stream = (_, refl); queue = ([], refl); known = tt; live = λ u. tt }

pub start_asks :
    (inbound ms : List DiscoveryResponse)
    → some_asks (api_state_for cluster_url (start inbound)).1 ms ≡ has_clusters ms
unfolding set_channel new_client clear_nonce api_state_for
start_asks inbound [] = refl
start_asks inbound (m ∷ ms) =
    rw (start_asks inbound ms) (ground (arith, eq_iff cluster_url m.type_url))

first_request :
    (f : ℕ) (inbound : List DiscoveryResponse)
    → has_clusters inbound ≡ true
    → 4 * length inbound + 4 ≤ f
    → queue_discovery_request (drain_requests f) cluster_url (start inbound) ≡ fault empty_pop
unfolding set_channel new_client clear_nonce api_state_for
first_request f inbound h fuel =
    queue_discovery_request_reentrant cluster_url (start inbound) f (start-Ready inbound) refl refl
      (omega arith) (start_asks inbound inbound ∙ h)

-- `main` does not return when the stub gives no stream: it dereferences a null pointer in `shutdown`.
-- Nor does it, given fuel of at least four times the number of messages plus five, when some message
-- that the server sends has a cluster: the client then pops its empty queue.
pub main_faults :
    (f : ℕ) (inbound : List DiscoveryResponse)
    → has_clusters inbound ≡ true
    → 4 * length inbound + 5 ≤ f
    → (main f none ≡ fault null_stream) × (main f (some inbound) ≡ fault empty_pop)
unfolding main new_client set_channel on_stream_established request_subscriptions
main_faults zero inbound h fuel = absurd (omega arith)
main_faults (suc f) inbound h fuel = (
  refl,
  ap (λ r. r >>= (λ c1. request_subscriptions f 1 c1) >>= shutdown)
      (first_request f inbound h (omega arith)),
)
