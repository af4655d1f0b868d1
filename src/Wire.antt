-- ===== src/Wire.antt =====
-- The messages of the aggregated discovery service that the client reads and writes, with the fields
-- that its code touches.
use xds_client.Base.{String, Bool, List, [], Option, none}

-- `google.protobuf.Any`.
pub record Any : Type 0 where
  pub type_url : String
  pub value : String

-- `envoy.config.core.v3.Node`; `metadata` lists the fields of the `Struct`.
pub record Node : Type 0 where
  pub id : String
  pub cluster : String
  pub user_agent_name : String
  pub metadata : List (String × String)

abbrev pub default_node : Node
default_node = record { id = ""; cluster = ""; user_agent_name = ""; metadata = [] }

-- `node` and `error_detail` are submessages, present or not.
pub record DiscoveryRequest : Type 0 where
  pub version_info : String
  pub node : Option Node
  pub resource_names : List String
  pub type_url : String
  pub response_nonce : String
  pub error_detail : Option String

abbrev pub default_request : DiscoveryRequest
default_request = record {
  version_info = "";
  node = none;
  resource_names = [];
  type_url = "";
  response_nonce = "";
  error_detail = none;
}

pub record DiscoveryResponse : Type 0 where
  pub version_info : String
  pub resources : List Any
  pub type_url : String
  pub nonce : String

-- A bidirectional stream as the client sees it. `inbound` is what the server still sends before it
-- ends the stream: each `Read` takes one message and returns false once there are none.
pub record Stream : Type 0 where
  pub inbound : List DiscoveryResponse
  pub written : List DiscoveryRequest
  pub writes_done : Bool
