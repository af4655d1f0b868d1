-- ===== src/Client/State.antt =====
-- The state of src/ads_protocol_client: AdsClient.h (`AdsClient`, `ApiState`) and Watcher.h
-- (`Watcher`), with the functions that look an `ApiState` up.
use xds_client.Base.{ℕ, String, Bool, true, false, Option, none, some, List, [], ◌∷◌, put, ltb}
use xds_client.Wire.{DiscoveryRequest, Stream, default_request}

-- A watch on a set of resources, listed in the order of `std::set`. `parent_` is the one client,
-- `watches_` the list of the watch's type, and `iter_` the node of that list that holds the watch.
pub record Watcher : Type 0 where
  pub resources : List String
  pub type_url : String

-- Watches are pointers into the client's `heap`.
pub record ApiState : Type 0 where
  pub watches : List ℕ
  pub request : DiscoveryRequest
  pub pauses : ℕ
  pub pending : Bool
  pub subscribed : Bool
  pub must_send_node : Bool
  pub control_plane_identifier : String
  pub previously_fetched_data : Bool

abbrev pub new_api_state : ApiState
new_api_state = record {
  watches = [];
  request = default_request;
  pauses = 0;
  pending = false;
  subscribed = false;
  must_send_node = false;
  control_plane_identifier = "";
  previously_fetched_data = false;
}

abbrev pub paused : ApiState → Bool
paused a = ltb 0 a.pauses

-- `none` is a null pointer for `stream` and `request_queue`. `has_stub` tells if a channel was set,
-- `context_used` if a call was made with `context_`, which gRPC allows once.
-- `heap` and `next_watcher` stand for the memory in which the watches live.
pub record AdsClient : Type 0 where
  pub has_stub : Bool
  pub context_used : Bool
  pub stream : Option Stream
  pub first_stream_request : Bool
  pub shut_down : Bool
  pub subscriptions : List String
  pub api_state : String → Option ApiState
  pub request_queue : Option (List String)
  pub heap : ℕ → Option Watcher
  pub next_watcher : ℕ

abbrev pub cluster_url : String
cluster_url = "type.googleapis.com/envoy.config.cluster.v3.Cluster"

-- The constructors: without a channel, and with one.
unfoldable pub new_client : Bool → AdsClient
new_client channel = record {
  has_stub = channel;
  context_used = false;
  stream = none;
  first_stream_request = true;
  shut_down = false;
  subscriptions = cluster_url ∷ [];
  api_state = λ _. none;
  request_queue = none;
  heap = λ _. none;
  next_watcher = 0;
}

unfoldable pub set_channel : AdsClient → AdsClient
set_channel c = record c { has_stub = true }

-- `apiStateFor`: the state of a type, allocated if it is not there.
unfoldable pub api_state_for : String → AdsClient → ApiState × AdsClient
api_state_for t c = elim (c.api_state t) [
  | none ↦ (new_api_state, record c { api_state = put c.api_state t new_api_state })
  | some a ↦ (a, c)
]

-- A write through the reference that `apiStateFor` returned.
abbrev pub set_api : String → ApiState → AdsClient → AdsClient
set_api t a c = record c { api_state = put c.api_state t a }

-- `clearNonce`: the entries are never null.
unfoldable pub clear_nonce : AdsClient → AdsClient
clear_nonce c = record c {
  api_state = λ t. elim (c.api_state t) [
    | none ↦ none
    | some a ↦ some (record a { request = record a.request { response_nonce = "" } })
  ];
}
