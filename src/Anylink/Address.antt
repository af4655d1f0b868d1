-- ===== src/Anylink/Address.antt =====
-- local/util/LocalUtil.h and LocalUtil.cpp: `getLocalAddress`.
use xds_client.Base.{ℕ, String, Bool, Option, List, [], ◌∷◌, ◌++◌, if◌then◌else◌}

-- What the calls of the system give: the descriptor that `socket` returns, `none` for -1, and whether
-- `connect` and `getsockname` succeed.
pub record SocketCalls : Type 0 where
  pub descriptor : Option ℕ
  pub connects : Bool
  pub names : Bool

-- The descriptors that are closed, in order, and the result. What `inet_ntop` gives is only printed.
unfoldable pub get_local_address : SocketCalls → List (Option ℕ) × String
get_local_address s =
    let connecting = if s.connects then [] else s.descriptor ∷ [] in
    let naming = if s.names then connecting else connecting ++ s.descriptor ∷ [] in
    (naming ++ s.descriptor ∷ [], "0.0.0.0")
