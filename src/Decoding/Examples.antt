-- ===== src/Decoding/Examples.antt =====
-- A wrapped cluster and a bare one, and the theorems at these.
use xds_client.Base.{String, true, some, [], ◌∷◌, ◌==◌}
use xds_client.Wire.{Any}
use xds_client.Decoding.{Resource, ResourceParser, OpaqueResourceDecoder, from_resource}
use xds_client.Decoding.Laws.{Carries, from_resource-Carries}

-- A decoder that takes the body as a text, and finds the name in the text.
abbrev texts : OpaqueResourceDecoder String
texts = record { decode_resource = λ a. a.value; resource_name = λ s. s }

abbrev cluster : Any
cluster = record { type_url = "Cluster"; value = "body" }

abbrev wrapper : Resource
wrapper = record { name = "c1"; aliases = "c2" ∷ []; version = "7"; resource = some cluster }

-- A protobuf library for which every wrapper holds that one.
abbrev one_wrapper : ResourceParser
one_wrapper = record {
  is_resource = λ a. a.type_url == "Resource";
  parse_resource = λ s. (true, wrapper);
}

abbrev wrapped : Any
wrapped = record { type_url = "Resource"; value = "w" }

from_resource-Carries_example :
    Carries texts "c1" cluster true "8" (from_resource texts one_wrapper wrapped "8")
from_resource-Carries_example = from_resource-Carries texts one_wrapper wrapped "8"
