-- ===== src/Client/Chat.antt =====
-- AdsClient.h: `AggregatedDiscoveryService` and `continueChat`, which talk on the stream by
-- themselves.
use Prim.Native.String.{◌++◌ as ◌<>◌}
use xds_client.Base.{
  String, Bool, true, false, Option, none, some, List, [], ◌∷◌, ◌++◌, Outcome, ok, fault,
  null_stream, ◌>>=◌,
}
use xds_client.Wire.{
  Node, DiscoveryRequest, DiscoveryResponse, Stream, default_node, default_request,
}
use xds_client.Client.State.{cluster_url}

-- The fields of `AdsClient` that only these two use, and `stream_`.
pub record Chat : Type 0 where
  pub request : DiscoveryRequest
  pub version_info : String
  pub nonce : String
  pub is_ok : Bool
  pub stream : Option Stream

abbrev pub new_chat : Option Stream → Chat
new_chat stream = record {
  request = default_request;
  version_info = "";
  nonce = "";
  is_ok = false;
  stream = stream;
}

unfoldable pub write_chat : DiscoveryRequest → Chat → Outcome Chat
write_chat r c = elim c.stream [
  | none ↦ fault null_stream
  | some st ↦ ok (record c { stream = some (record st { written = st.written ++ r ∷ [] }) })
]

-- `mutable_node`, and the two calls of `append`.
abbrev pub append_node : Option Node → Node
append_node o =
    let node : Node = elim o [ none ↦ default_node | some n ↦ n ] in
    record node { cluster = node.cluster <> "test-cluster"; id = node.id <> "test-id" }

-- The request with which `AggregatedDiscoveryService` starts.
abbrev pub opening : DiscoveryRequest → DiscoveryRequest
opening r = record r { version_info = ""; node = some (append_node r.node); type_url = cluster_url }

unfoldable pub continue_chat : Chat → Outcome Chat
unfolding write_chat
continue_chat c =
    let r = record c.request { version_info = c.version_info; response_nonce = c.nonce } in
    write_chat r (record c { request = r }) >>= λ d. ok (record d { is_ok = true })

-- One message comes in, with `rest` still to come.
abbrev pub take_message : DiscoveryResponse → List DiscoveryResponse → Chat → Chat
take_message p rest c = record c {
  version_info = p.version_info;
  nonce = p.nonce;
  stream = elim c.stream [ none ↦ none | some st ↦ some (record st { inbound = rest }) ];
}

-- The loop, over what the stream still brings.
unfoldable pub read_chat : List DiscoveryResponse → Chat → Outcome Chat
unfolding continue_chat
read_chat [] c = ok c
read_chat (p ∷ ps) c = continue_chat (take_message p ps c) >>= read_chat ps

unfoldable pub aggregated_discovery_service : Chat → Outcome (Bool × Chat)
unfolding write_chat read_chat
aggregated_discovery_service c = elim c.stream [
  | none ↦ fault null_stream
  | some st ↦
      let r = opening c.request in
      (write_chat r (record c { request = r }) >>= read_chat st.inbound >>= λ d. ok (d.is_ok, d))
]
