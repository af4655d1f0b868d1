-- ===== src/Config.antt =====
-- src/ads_protocol_client/Config.h: the node and the first request of a configuration.
pub mod Fields
pub mod Examples
use xds_client.Base.{String, some, List, [], ◌∷◌, ◌==◌, if◌then◌else◌}
use xds_client.Wire.{Node, DiscoveryRequest, default_node, default_request}

-- `mutable_fields()->insert`: an entry that is there stays.
unfoldable pub insert_field : String → String → List (String × String) → List (String × String)
insert_field k v [] = (k, v) ∷ []
insert_field k v ((j, w) ∷ fields) =
    let rest = insert_field k v fields in if j == k then (j, w) ∷ fields else (j, w) ∷ rest

-- The loop of `build_struct`.
unfoldable pub insert_fields :
    List (String × String) → List (String × String) → List (String × String)
unfolding insert_field
insert_fields [] fields = fields
insert_fields ((k, v) ∷ items) fields = insert_fields items (insert_field k v fields)

unfoldable pub build_struct : List (String × String) → List (String × String)
unfolding insert_fields
build_struct key_value = insert_fields key_value []

unfoldable pub config_node : Node
unfolding build_struct
config_node = record default_node {
  id = "test-id";
  cluster = "test-cluster";
  metadata = build_struct (("test", "data1") ∷ []);
}

unfoldable pub construct_initial_request : String → DiscoveryRequest
unfolding config_node
construct_initial_request request_type = record default_request {
  node = some config_node;
  type_url = request_type;
}
