-- ===== src/Client/Examples.antt =====
-- Runs of the client, and the theorems at concrete inputs.
use xds_client.Base.{
  ℕ, insert_all, ◌≡◌, refl, true, false, none, some, List, [], ◌∷◌, Outcome, ok, fault, out_of_fuel,
  null_stream, empty_pop, arith, String, put, store,
}
use xds_client.Wire.{DiscoveryResponse, Stream, default_request}
use xds_client.Client.State.{AdsClient, ApiState, new_api_state, cluster_url, api_state_for}
use xds_client.Client.Requests.{
  queue_discovery_request, push_request, drain_requests, front_request, send_discovery_request,
  send_request, watched, add_names, fill_node, write, read_responses, read_response,
  on_discovery_response, accept_response, pop_request,
}
use xds_client.Client.Streams.{new_stream}
use xds_client.Client.Streams.{main}
use xds_client.Client.Watches.{add_watch}
use xds_client.Client.Added.{add_watch_returns}
use xds_client.Client.Asking.{Asked, queue_discovery_request_asks}
use xds_client.Client.Watches.{subscribe}
use xds_client.Client.Watching.{watching}
use xds_client.Client.Program.{main_faults}
use xds_client.Client.Chat.{Chat, new_chat, opening, aggregated_discovery_service}
use xds_client.Client.Chatting.{answers, aggregated_discovery_service-answers}
use xds_client.Client.Loop.{Ready, inbound}
use xds_client.Client.Loop.Entry.{queue_discovery_request_reentrant}
use xds_client.Client.Steps.{Reach}
use xds_client.Client.Steps.Drains.{queue_discovery_request-Reach}
use xds_client.Client.Steps.Versions.{Unacknowledged, queue_discovery_request-Unacknowledged}

abbrev clusters : DiscoveryResponse
clusters = record {
  version_info = "1";
  resources = (record { type_url = cluster_url; value = "c" }) ∷ [];
  type_url = cluster_url;
  nonce = "n1";
}

-- A client that has just got its stream, on which the server will send `inbound`.
abbrev connected : List DiscoveryResponse → AdsClient
connected inbound = record {
  has_stub = true;
  context_used = true;
  stream = some (new_stream inbound);
  first_stream_request = true;
  shut_down = false;
  subscriptions = cluster_url ∷ [];
  api_state = λ _. none;
  request_queue = some [];
  heap = λ _. none;
  next_watcher = 0;
}

connected-Ready : (inbound : List DiscoveryResponse) → Ready (connected inbound)
connected-Ready inbound = record {
  stream = (new_stream inbound, refl);
  queue = ([], refl);
  known = tt;
  live = λ u. tt;
}

queue_discovery_request_reentrant_example :
    queue_discovery_request (drain_requests 10) cluster_url (connected (clusters ∷ []))
    ≡ fault empty_pop
unfolding api_state_for
queue_discovery_request_reentrant_example =
    queue_discovery_request_reentrant cluster_url (connected (clusters ∷ [])) 10
      (connected-Ready (clusters ∷ [])) refl refl (omega arith) refl

queue_discovery_request_asks_example :
    (d : AdsClient) × (queue_discovery_request (drain_requests 4) cluster_url (connected []) ≡ ok d)
    × (d.request_queue ≡ some [])
    × (inbound d ≡ [])
    × Asked (connected []).heap (connected []).api_state (cluster_url ∷ []) (connected []) d
unfolding api_state_for
queue_discovery_request_asks_example =
    queue_discovery_request_asks cluster_url (connected []) 4 (connected-Ready []) refl refl
      (omega arith) refl

-- The client that a run returns.
abbrev returned : Outcome AdsClient → AdsClient
returned r = elim r [ ok d ↦ d | fault e ↦ connected [] | out_of_fuel ↦ connected [] ]

abbrev listener_url : String
listener_url = "type.googleapis.com/envoy.config.listener.v3.Listener"

-- A state that is watched by the watch at 0, and paused.
abbrev paused_state : ApiState
paused_state = record new_api_state { watches = 0 ∷ []; pauses = 1; subscribed = true }

-- A client that watches one cluster, whose type is paused while the server sends the clusters.
abbrev watching_client : AdsClient
watching_client = record (connected (clusters ∷ [])) {
  api_state = put (λ _. none) cluster_url paused_state;
  heap = store (λ _. none) 0 (some (record { resources = "c" ∷ []; type_url = cluster_url }));
  next_watcher = 1;
}

abbrev watching_run : Outcome AdsClient
watching_run = queue_discovery_request (drain_requests 6) listener_url watching_client

queue_discovery_request-Unacknowledged_example :
    (b : ApiState) × ((returned watching_run).api_state cluster_url ≡ some b)
    × Unacknowledged paused_state b
unfolding queue_discovery_request api_state_for push_request drain_requests front_request
    send_discovery_request send_request watched add_names fill_node write read_responses
    read_response on_discovery_response accept_response pop_request
queue_discovery_request-Unacknowledged_example =
    queue_discovery_request-Unacknowledged 6 listener_url cluster_url watching_client
      (returned watching_run) paused_state refl refl

queue_discovery_request-Reach_example : Reach watching_client (returned watching_run)
unfolding queue_discovery_request api_state_for push_request drain_requests front_request
    send_discovery_request send_request watched add_names fill_node write read_responses
    read_response on_discovery_response accept_response pop_request
queue_discovery_request-Reach_example =
    queue_discovery_request-Reach 6 listener_url watching_client (returned watching_run) refl

main_faults_example :
    (main 9 none ≡ fault null_stream) × (main 9 (some (clusters ∷ [])) ≡ fault empty_pop)
main_faults_example = main_faults 9 (clusters ∷ []) refl (omega arith)

-- A stream on which two answers will come.
abbrev two_answers : Stream
two_answers = new_stream (clusters ∷ clusters ∷ [])

aggregated_discovery_service-answers_example :
    (d : Chat) × (aggregated_discovery_service (new_chat (some two_answers)) ≡ ok (true, d))
    × (d.stream
        ≡ some (record two_answers {
          inbound = [];
          written = opening default_request ∷ answers (opening default_request) two_answers.inbound;
        }))
aggregated_discovery_service-answers_example =
    aggregated_discovery_service-answers (new_chat (some two_answers)) two_answers refl

-- With the watch of the example.
abbrev added : AdsClient
added = subscribe cluster_url (watching ("c" ∷ []) cluster_url (connected []))

add_watch_returns_example :
    (p : ℕ) × (d : AdsClient) × (add_watch 4 cluster_url ("c" ∷ []) (connected []) ≡ ok (p, d))
    × (d.request_queue ≡ some [])
    × Asked added.heap added.api_state (cluster_url ∷ []) (connected []) d
    × (p ≡ (connected []).next_watcher)
    × (d.heap p ≡ some (record { resources = insert_all ("c" ∷ []) []; type_url = cluster_url }))
    × ((b : ApiState) × (d.api_state cluster_url ≡ some b)
        × (b.watches ≡ p ∷ (api_state_for cluster_url (connected [])).0.watches)
        × (b.subscribed ≡ true))
unfolding api_state_for
add_watch_returns_example =
    add_watch_returns cluster_url ("c" ∷ []) (connected []) (connected-Ready []) 4 refl refl refl
      (omega arith)
