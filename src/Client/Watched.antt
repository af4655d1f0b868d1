-- ===== src/Client/Watched.antt =====
-- Runs of a client that watches clusters, and the theorems on streams and watches at those runs.
use xds_client.Base.{
  ℕ, ◌≡◌, refl, true, none, some, String, List, [], ◌∷◌, ◌++◌, contains, Outcome, ok, fault,
  out_of_fuel, arith, put, store, ◌==◌, Bool-cases, All, ◌⊎◌, inl, inr, insert_all,
}
use xds_client.Wire.{DiscoveryRequest, DiscoveryResponse}
use xds_client.Client.State.{
  AdsClient, ApiState, Watcher, new_api_state, new_client, cluster_url, api_state_for, clear_nonce,
}
use xds_client.Client.Requests.{
  queue_discovery_request, push_request, drain_requests, front_request, send_discovery_request,
  send_request, watched, add_names, fill_node, write, read_responses, read_response,
  on_discovery_response, accept_response, pop_request,
}
use xds_client.Client.Streams.{new_stream, on_stream_established, request_subscriptions}
use xds_client.Client.Watches.{unlink, delete_watcher, update_watcher}
use xds_client.Client.Asking.{Asked, AskedAll}
use xds_client.Client.Loop.{Ready, written}
use xds_client.Client.Returning.{delete_watcher_returns, update_watcher_returns}
use xds_client.Client.Steps.Established.{on_stream_established_nonces}
use xds_client.Client.Steps.Nodes.{TailNodeless, on_stream_established_nodes}
use xds_client.Client.Content.{NoRepeats, is_watched, send_request_content}
use xds_client.Client.Shutdown.{queue_discovery_request_shut}

-- A server that has no clusters.
abbrev no_clusters : DiscoveryResponse
no_clusters = record { version_info = "1"; resources = []; type_url = cluster_url; nonce = "n1" }

-- A client with a channel, and the client that a run returns.
abbrev fresh : AdsClient
fresh = new_client true

abbrev given : Outcome AdsClient → AdsClient
given r = elim r [ ok d ↦ d | fault e ↦ fresh | out_of_fuel ↦ fresh ]

abbrev established : Outcome AdsClient
established = on_stream_established 6 (some (no_clusters ∷ [])) fresh

-- The nonces of that stream.
abbrev IsSeen : String → Type 0
IsSeen n = (n ≡ "") ⊎ (n ≡ "n1")

on_stream_established_nonces_example :
    All (λ (r : DiscoveryRequest). IsSeen r.response_nonce) (written (given established))
unfolding new_client on_stream_established request_subscriptions clear_nonce queue_discovery_request
    api_state_for push_request drain_requests front_request send_discovery_request send_request
    watched add_names fill_node write read_responses read_response on_discovery_response
    accept_response pop_request
on_stream_established_nonces_example =
    on_stream_established_nonces IsSeen (inl refl) 6 (no_clusters ∷ []) fresh (given established)
      refl (inr refl, tt)

on_stream_established_nodes_example : TailNodeless (written (given established))
unfolding new_client on_stream_established request_subscriptions clear_nonce queue_discovery_request
    api_state_for push_request drain_requests front_request send_discovery_request send_request
    watched add_names fill_node write read_responses read_response on_discovery_response
    accept_response pop_request
on_stream_established_nodes_example =
    on_stream_established_nodes 6 (no_clusters ∷ []) fresh (given established) refl
      (λ u a e. absurd (ground (arith, e)))

-- A client on a stream, whose watch at 0 is set on one cluster.
abbrev one_watch : AdsClient
one_watch = record fresh {
  stream = some (new_stream []);
  request_queue = some [];
  api_state =
      put (λ _. none) cluster_url (record new_api_state { watches = 0 ∷ []; subscribed = true });
  heap = store (λ _. none) 0 (some (record { resources = "c" ∷ []; type_url = cluster_url }));
  next_watcher = 1;
}

abbrev sent : Outcome AdsClient
sent = send_request cluster_url one_watch

send_request_content_example :
    (r : DiscoveryRequest) × (written (given sent) ≡ [] ++ r ∷ [])
    × NoRepeats r.resource_names
    × ((x : String) → contains r.resource_names x ≡ is_watched one_watch.heap (0 ∷ []) x)
    × (r.version_info ≡ "")
    × (r.response_nonce ≡ "")
unfolding new_client api_state_for send_request watched add_names fill_node write
send_request_content_example = send_request_content cluster_url one_watch (given sent) refl

abbrev shut_client : AdsClient
shut_client = record one_watch { shut_down = true; request_queue = some (cluster_url ∷ []) }

queue_discovery_request_shut_example :
    (d : AdsClient) × (queue_discovery_request (drain_requests 4) cluster_url shut_client ≡ ok d)
    × (d.stream ≡ shut_client.stream)
    × (d.shut_down ≡ true)
queue_discovery_request_shut_example =
    queue_discovery_request_shut 4 cluster_url (cluster_url ∷ []) shut_client refl refl
      (omega arith)

abbrev cluster_watch : Watcher
cluster_watch = record { resources = "c" ∷ []; type_url = cluster_url }

-- The state of its type without it.
abbrev unwatched : ApiState
unwatched = record new_api_state { subscribed = true }

one_watch-Ready : Ready one_watch
unfolding new_client watched
one_watch-Ready = record {
  stream = (new_stream [], refl);
  queue = ([], refl);
  known = tt;
  live =
      λ u. elim (Bool-cases (cluster_url == u)) [ inl e ↦ rw e ("c" ∷ [], refl) | inr e ↦ rw e tt ];
}

delete_watcher_returns_example :
    (d : AdsClient) × (delete_watcher 4 0 one_watch ≡ ok d)
    × Asked one_watch.heap
        (put one_watch.api_state cluster_url unwatched)
        (cluster_url ∷ [])
        one_watch
        d
    × (d.heap ≡ store one_watch.heap 0 none)
    × ((b : ApiState) × (xs ys : List ℕ) × (d.api_state cluster_url ≡ some b)
        × (0 ∷ [] ≡ xs ++ 0 ∷ ys)
        × (b.watches ≡ xs ++ ys))
unfolding new_client unlink
delete_watcher_returns_example =
    delete_watcher_returns 4 0 cluster_watch
      (record new_api_state { watches = 0 ∷ []; subscribed = true }) [] one_watch one_watch-Ready
      refl refl refl refl refl refl (omega arith)

update_watcher_returns_example :
    (d : AdsClient) × (update_watcher 4 0 ("b" ∷ "a" ∷ []) one_watch ≡ ok d)
    × (d.request_queue ≡ some [])
    × ((qs rs : List DiscoveryRequest) × (written d ≡ written one_watch ++ qs ++ rs)
        × AskedAll one_watch.heap
            (put one_watch.api_state cluster_url unwatched)
            (cluster_url ∷ [])
            qs
        × AskedAll
            (store one_watch.heap 0
              (some (record cluster_watch { resources = insert_all ("b" ∷ "a" ∷ []) [] })))
            (put one_watch.api_state cluster_url (record unwatched { watches = 0 ∷ [] }))
            (cluster_url ∷ [])
            rs)
    × (d.heap 0
        ≡ some (record { resources = insert_all ("b" ∷ "a" ∷ []) []; type_url = cluster_url }))
    × ((b : ApiState) × (xs ys : List ℕ) × (d.api_state cluster_url ≡ some b)
        × (0 ∷ [] ≡ xs ++ 0 ∷ ys)
        × (b.watches ≡ 0 ∷ xs ++ ys))
unfolding new_client unlink
update_watcher_returns_example =
    update_watcher_returns 4 0 cluster_watch
      (record new_api_state { watches = 0 ∷ []; subscribed = true }) [] one_watch one_watch-Ready
      refl refl refl refl refl refl (omega arith) ("b" ∷ "a" ∷ [])
