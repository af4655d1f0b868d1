-- ===== src/Known.antt =====
-- src/ads_protocol_client/State.h: the resources that are known.
pub mod Laws
pub mod Examples
use xds_client.Base.{String, Option, none, some, List, [], put, set_insert}

-- `demand` and `demand_tx` are what was received and sent.
pub record State : Type 0 where
  pub known_resources : String → Option (List String)
  pub pending : String → Option String
  pub demand : String
  pub demand_tx : String

unfoldable pub new_state : State
new_state = record { known_resources = λ _. none; pending = λ _. none; demand = ""; demand_tx = "" }

-- `known_resources_[type_url]`, an empty set if it is not there.
abbrev pub known : State → String → List String
known s t = elim (s.known_resources t) [ none ↦ [] | some names ↦ names ]

unfoldable pub add_resource : String → String → State → State
add_resource type_url name s = record s {
  known_resources = put s.known_resources type_url (set_insert name (known s type_url));
}
