-- ===== src/Anylink/Subscriptions.antt =====
-- grpc/subscription: the four classes of `Subscription`.
use xds_client.Base.{String, some, [], ◌∷◌}
use xds_client.Wire.{Node, DiscoveryRequest, default_request}

pub data Subscription : Type 0 where
  cluster listener endpoint route : Subscription

-- What the constructors of the four classes give to the constructor of `Subscription`.
abbrev cluster_type_url : String
cluster_type_url = "type.googleapis.com/envoy.config.cluster.v3.Cluster"

abbrev listener_type_url : String
listener_type_url = "type.googleapis.com/envoy.config.listener.v3.Listener"

abbrev endpoint_type_url : String
endpoint_type_url = "type.googleapis.com/envoy.config.endpoint.v3.ClusterLoadAssignment"

abbrev route_type_url : String
route_type_url = "type.googleapis.com/envoy.config.route.v3.RouteConfiguration"

-- `type_url_`, and `getTypeUrl`.
abbrev pub type_url : Subscription → String
type_url Subscription.cluster = cluster_type_url
type_url Subscription.listener = listener_type_url
type_url Subscription.endpoint = endpoint_type_url
type_url Subscription.route = route_type_url

-- `makeRequestDiscoveryService` of the four classes: the node is merged into an empty one.
unfoldable make_cluster_request : Node → DiscoveryRequest
make_cluster_request node = record default_request {
  type_url = type_url Subscription.cluster;
  node = some node;
}

unfoldable make_listener_request : Node → DiscoveryRequest
make_listener_request node = record default_request {
  type_url = type_url Subscription.listener;
  node = some node;
}

unfoldable make_endpoint_request : Node → DiscoveryRequest
make_endpoint_request node = record default_request {
  type_url = type_url Subscription.endpoint;
  resource_names = "outbound|80||gateway-test.default.svc.cluster.local" ∷ [];
  node = some node;
}

unfoldable make_route_request : Node → DiscoveryRequest
make_route_request node = record default_request {
  type_url = type_url Subscription.route;
  resource_names = "80" ∷ [];
  node = some node;
}

-- The virtual call.
unfoldable pub make_request : Subscription → Node → DiscoveryRequest
unfolding make_cluster_request make_listener_request make_endpoint_request make_route_request
make_request Subscription.cluster node = make_cluster_request node
make_request Subscription.listener node = make_listener_request node
make_request Subscription.endpoint node = make_endpoint_request node
make_request Subscription.route node = make_route_request node
