-- ===== src/Config/Examples.antt =====
-- `build_struct` of src/ads_protocol_client/Config.h on a list that repeats a key.
use xds_client.Base.{String, List, [], ◌∷◌, ◌≡◌}
use xds_client.Config.{build_struct}
use xds_client.Config.Fields.{lookup, Distinct, build_struct-lookup}

abbrev repeated : List (String × String)
repeated = ("a", "1") ∷ ("b", "2") ∷ ("a", "3") ∷ []

build_struct-lookup_example :
    Distinct (build_struct repeated)
    × ((u : String) → lookup (build_struct repeated) u ≡ lookup repeated u)
build_struct-lookup_example = build_struct-lookup repeated
