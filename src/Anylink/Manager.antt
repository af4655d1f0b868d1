-- ===== src/Anylink/Manager.antt =====
-- grpc/manager/AdsManager.h and AdsManager.cpp: the exchange of messages on one call.
use xds_client.Base.{
  String, false, Option, none, some, List, [], ◌∷◌, ◌++◌, put, Outcome, ok, fault, null_stream,
  null_subscription, ◌>>=◌,
}
use xds_client.Wire.{DiscoveryRequest, DiscoveryResponse, Stream}
use xds_client.Anylink.Local.{LocalInfo, new_local_info}
use xds_client.Anylink.Subscriptions.{Subscription, type_url, make_request}

-- `none` for `rpc` is the null pointer. `heard` lists what `onResponseDiscoveryService` was called
-- with, and on which subscription: it only writes that to the log.
pub record AdsManager : Type 0 where
  pub local_info : LocalInfo
  pub subscribe_map : String → Option Subscription
  pub rpc : Option Stream
  pub heard : List (Subscription × DiscoveryResponse)

-- The constructor, for what `LocalUtil::getLocalAddress` returns.
unfoldable pub new_manager : String → String → AdsManager
new_manager address node_id = record {
  local_info = new_local_info address "????????????" node_id;
  subscribe_map = λ _. none;
  rpc = none;
  heard = [];
}

-- `subscribe_map.insert`: the entry that is there stays.
unfoldable pub add_subscription : Subscription → AdsManager → AdsManager
add_subscription s m = elim (m.subscribe_map (type_url s)) [
  | none ↦ record m { subscribe_map = put m.subscribe_map (type_url s) s }
  | some _ ↦ m
]

-- `subscribe_map[url]`, which is dereferenced at once: for a missing key it is a null pointer.
unfoldable pub subscription_at : String → AdsManager → Outcome Subscription
subscription_at url m = elim (m.subscribe_map url) [
  | none ↦ fault null_subscription
  | some s ↦ ok s
]

-- `rpc->Write`: whether the write succeeded only goes to the log.
unfoldable pub write_rpc : DiscoveryRequest → AdsManager → Outcome AdsManager
write_rpc r m = elim m.rpc [
  | none ↦ fault null_stream
  | some st ↦ ok (record m { rpc = some (record st { written = st.written ++ r ∷ [] }) })
]

unfoldable pub init_subscribe : Subscription → AdsManager → Outcome (DiscoveryRequest × AdsManager)
unfolding make_request write_rpc
init_subscribe s m =
    let request = make_request s m.local_info.node in write_rpc request m >>= λ m1. ok (request, m1)

-- A message as it is before it is read into.
abbrev pub default_response : DiscoveryResponse
default_response = record { version_info = ""; resources = []; type_url = ""; nonce = "" }

unfoldable pub receive_ads : AdsManager → Outcome (DiscoveryResponse × AdsManager)
unfolding subscription_at
receive_ads m = elim m.rpc [
  | none ↦ fault null_stream
  | some st ↦ elim st.inbound [
    | [] ↦ ok (default_response, m)
    | p ∷ rest ↦ subscription_at p.type_url m >>= λ s.
        ok (
          p,
          record m { rpc = some (record st { inbound = rest }); heard = m.heard ++ (s, p) ∷ [] },
        )
  ]
]

unfoldable pub send_ack : DiscoveryRequest → DiscoveryResponse → AdsManager → Outcome AdsManager
unfolding write_rpc
send_ack request p m =
    write_rpc (record request { version_info = p.version_info; response_nonce = p.nonce }) m

unfoldable pub send_nack : DiscoveryRequest → DiscoveryResponse → AdsManager → Outcome AdsManager
unfolding write_rpc
send_nack request p m = write_rpc (record request { response_nonce = p.nonce }) m

-- One turn of the loop in `startClient`.
unfoldable pub exchange : String → AdsManager → Outcome AdsManager
unfolding subscription_at init_subscribe receive_ads send_ack
exchange url m = subscription_at url m >>= λ s.
    init_subscribe s m >>= λ asked. receive_ads asked.1 >>= λ got. send_ack asked.0 got.0 got.1

unfoldable pub exchange_all : List String → AdsManager → Outcome AdsManager
unfolding exchange
exchange_all [] m = ok m
exchange_all (url ∷ urls) m = exchange url m >>= exchange_all urls

-- `urlList`.
abbrev pub url_list : List String
url_list =
    "type.googleapis.com/envoy.config.cluster.v3.Cluster"
    ∷ "type.googleapis.com/envoy.config.listener.v3.Listener"
    ∷ "type.googleapis.com/envoy.config.endpoint.v3.ClusterLoadAssignment"
    ∷ "type.googleapis.com/envoy.config.route.v3.RouteConfiguration" ∷ []

-- `startClient`, for the messages that the server will send on the call.
unfoldable pub start_client : List DiscoveryResponse → AdsManager → Outcome AdsManager
unfolding exchange_all
start_client inbound m =
    exchange_all url_list
      (record m { rpc = some (record { inbound = inbound; written = []; writes_done = false }) })
