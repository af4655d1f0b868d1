-- ===== src/Anylink/Local.antt =====
-- local/LocalInfo.h: how the node names itself.
use Prim.Native.String.{◌++◌, slice}
use text.Mathlib.Text.{find?}
use xds_client.Base.{String, ◌==◌, List, [], ◌∷◌, none, some, if◌then◌else◌}
use xds_client.Wire.{Node, default_node}

pub record LocalInfo : Type 0 where
  pub node : Node
  pub address : String

-- `address.substr(0, address.find(":"))`.
unfoldable pub host : String → String
host address = elim (find? address ":") [ none ↦ address | some i ↦ slice address 0 i ]

-- `fullNodeId`.
unfoldable pub full_node_id : String → String → String
unfolding host
full_node_id address node_id = "sidecar~" ++ host address ++ "~" ++ node_id ++ "~" ++ "testDNS"

abbrev pub meta_data : List (String × String)
meta_data =
    ("CLUSTER_ID", "Kubernetes")
    ∷ ("CONFIG_NAMESPACE", "default")
    ∷ ("ISTIO_VERSION", "1.5.1")
    ∷ ("NAME", "test")
    ∷ ("NAMESPACE", "default")
    ∷ ("POD_NAME", "test")
    ∷ []

-- The constructor with a cluster name.
unfoldable pub new_local_info : String → String → String → LocalInfo
unfolding full_node_id
new_local_info address cluster_name node_id = record {
  node = record {
    id = if node_id == "" then "" else full_node_id address node_id;
    cluster = cluster_name;
    user_agent_name = "anylinkLibrary";
    metadata = meta_data;
  };
  address = address;
}

-- The constructor without one.
unfoldable pub new_plain_info : String → String → LocalInfo
new_plain_info address node_id = record {
  node = record default_node { id = node_id };
  address = address;
}
