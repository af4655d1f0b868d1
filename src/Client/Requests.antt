-- ===== src/Client/Requests.antt =====
-- AdsClient.cpp: `queueDiscoveryRequest`, `drainRequests`, `sendDiscoveryRequest` and
-- `onDiscoveryResponse`, which call one another.
use xds_client.Base.{
  ℕ, zero, suc, String, true, false, ◌||◌, Option, none, some, List, [], ◌∷◌, ◌++◌, if◌then◌else◌,
  contains, Outcome, ok, fault, out_of_fuel, null_stream, null_queue, empty_pop, dangling, ◌>>=◌,
}
use xds_client.Wire.{Node, DiscoveryRequest, DiscoveryResponse}
use xds_client.Client.State.{AdsClient, ApiState, Watcher, paused, api_state_for, set_api}

-- `AdsClient::node`.
abbrev pub node : Node
node = record {
  id = "test-id";
  cluster = "test-cluster";
  user_agent_name = "";
  metadata = ("test", "data1") ∷ [];
}

-- The names that the watches of a list hold, in the order of the two nested loops.
unfoldable pub watched : (ℕ → Option Watcher) → List ℕ → Outcome (List String)
watched heap [] = ok []
watched heap (p ∷ ps) =
    let rest = watched heap ps in
    elim (heap p) [ none ↦ fault dangling | some w ↦ (rest >>= λ names. ok (w.resources ++ names)) ]

-- The body of those loops: `resources` holds what was added to the request before.
unfoldable pub add_names : List String → List String → List String
add_names resources [] = []
add_names resources (r ∷ rs) =
    let fresh = r ∷ add_names (r ∷ resources) rs in
    let seen = add_names resources rs in if contains resources r then seen else fresh

-- The part of `sendDiscoveryRequest` between the names and the write: whether the node goes along.
unfoldable pub fill_node : String → ApiState → AdsClient → ApiState × AdsClient
fill_node t a c =
    if a.must_send_node || c.first_stream_request
    then (if a.subscribed then (record a { must_send_node = false }, c) else (
      record a {
        request = record a.request { type_url = t; node = some node };
        subscribed = true;
        must_send_node = false;
      },
      record c { subscriptions = c.subscriptions ++ t ∷ [] },
    ))
    else (record a { request = record a.request { node = none } }, c)

-- `stream_->Write`.
unfoldable pub write : DiscoveryRequest → AdsClient → Outcome AdsClient
write r c = elim c.stream [
  | none ↦ fault null_stream
  | some st ↦ ok (record c { stream = some (record st { written = st.written ++ r ∷ [] }) })
]

-- `sendDiscoveryRequest` up to the first read.
unfoldable pub send_request : String → AdsClient → Outcome AdsClient
send_request t c =
    let (a, c1) = api_state_for t c in
    watched c1.heap a.watches >>= λ names.
    let named = record a { request = record a.request { resource_names = add_names [] names } } in
    let (b, c2) = fill_node t named c1 in
    write b.request c2 >>= λ c3.
    ok (record (set_api t (record b { request = record b.request { error_detail = none } }) c3) {
      first_stream_request = false;
    })

-- `read` is the loop that reads and handles the answers.
unfoldable pub send_discovery_request :
    (AdsClient → Outcome AdsClient) → String → AdsClient → Outcome AdsClient
send_discovery_request read t c = if c.shut_down then ok c else send_request t c >>= read

-- `request_queue_->emplace`.
unfoldable pub push_request : String → AdsClient → Outcome AdsClient
push_request t c = elim c.request_queue [
  | none ↦ fault null_queue
  | some q ↦ ok (record c { request_queue = some (q ++ t ∷ []) })
]

-- `request_queue_->pop`: undefined on an empty queue.
unfoldable pub pop_request : AdsClient → Outcome AdsClient
pop_request c = elim c.request_queue [
  | none ↦ fault null_queue
  | some [] ↦ fault empty_pop
  | some (t ∷ q) ↦ ok (record c { request_queue = some q })
]

-- `drain` is `drainRequests`.
unfoldable pub queue_discovery_request :
    (AdsClient → Outcome AdsClient) → String → AdsClient → Outcome AdsClient
queue_discovery_request drain t c = elim c.stream [
  | none ↦ ok c
  | some st ↦
      let (a, c1) = api_state_for t c in
      if paused a
      then ok (set_api t (record a { pending = true }) c1)
      else (push_request t c1 >>= drain)
]

-- The end of `onDiscoveryResponse`, for a type that has a state.
unfoldable pub accept_response :
    (AdsClient → Outcome AdsClient) → DiscoveryResponse → ApiState → AdsClient → Outcome AdsClient
accept_response drain m a c =
    let nonced = record a { request = record a.request { response_nonce = m.nonce } } in
    elim a.watches [
      | [] ↦ elim m.resources [
        | [] ↦ ok (
            set_api m.type_url
              (record nonced { request = record nonced.request { version_info = m.version_info } })
              c)
        | _ ∷ _ ↦ queue_discovery_request drain m.type_url (set_api m.type_url nonced c)
      ]
      | _ ∷ _ ↦
          queue_discovery_request drain m.type_url
            (set_api m.type_url (record nonced { previously_fetched_data = true }) c)
    ]

unfoldable pub on_discovery_response :
    (AdsClient → Outcome AdsClient) → DiscoveryResponse → AdsClient → Outcome AdsClient
on_discovery_response drain m c = elim (c.api_state m.type_url) [
  | none ↦ ok c
  | some a ↦ accept_response drain m a c
]

-- `stream_->Read`: the next message, taken off the stream, or `none` for false.
unfoldable pub read_response : AdsClient → Outcome (Option (DiscoveryResponse × AdsClient))
read_response c = elim c.stream [
  | none ↦ fault null_stream
  | some st ↦ elim st.inbound [
    | [] ↦ ok none
    | m ∷ rest ↦ ok (some (m, record c { stream = some (record st { inbound = rest }) }))
  ]
]

-- The front of the queue that `drainRequests` looks at.
unfoldable pub front_request : AdsClient → Outcome (Option String)
front_request c = elim c.request_queue [
  | none ↦ fault null_queue
  | some [] ↦ ok none
  | some (t ∷ q) ↦ ok (some t)
]

-- `drainRequests`, and the loop `while (stream_->Read(...))` of `sendDiscoveryRequest`. The fuel
-- bounds how deep their calls nest.
unfoldable mutual
  pub drain_requests : ℕ → AdsClient → Outcome AdsClient
  drain_requests zero c = out_of_fuel
  drain_requests (suc f) c = front_request c >>= elim [
    | none ↦ ok c
    | some t ↦
        (send_discovery_request (read_responses f) t c >>= λ c1.
        pop_request c1 >>= λ c2. drain_requests f c2)
  ]

  pub read_responses : ℕ → AdsClient → Outcome AdsClient
  read_responses zero c = out_of_fuel
  read_responses (suc f) c = read_response c >>= elim [
    | none ↦ ok c
    | some (m, c1) ↦ (on_discovery_response (drain_requests f) m c1 >>= λ c2. read_responses f c2)
  ]
