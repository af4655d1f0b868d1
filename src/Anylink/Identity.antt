-- ===== src/Anylink/Identity.antt =====
-- local/LocalInfo.h: nodes that are given different names have different ids.
use Prim.Native.String.{◌++◌, count}
use text.Mathlib.TextLemmas.{append_cancel_left, append_cancel_right, length-append}
use xds_client.Base.{String, ◌≡◌, sym, ap, ◌∙◌, ◌==◌, eq_iff, arith, inl, inr, Bool-cases}
use xds_client.Anylink.Local.{full_node_id, host, new_local_info}

full_node_id-injective :
    (address n k : String) → full_node_id address n ≡ full_node_id address k → n ≡ k
unfolding full_node_id
full_node_id-injective address n k h = append_cancel_right n k ("~" ++ "testDNS") (
    append_cancel_left "~" _ _
      (append_cancel_left (host address) _ _ (append_cancel_left "sidecar~" _ _ h)))

prefix_filled : (t : String) → "sidecar~" ++ t ≡ "" → ⊥
prefix_filled t h = omega (arith, ap count h, length-append "sidecar~" t)

full_node_id-filled : (address n : String) → full_node_id address n ≡ "" → n ≡ ""
unfolding full_node_id
full_node_id-filled address n h = absurd (prefix_filled _ h)

-- Two nodes at the same address have the same id only if they were given the same name; the empty
-- name, for which the id stays empty, is no exception.
pub new_local_info-injective :
    (address cluster_name n k : String)
    → (new_local_info address cluster_name n).node.id
      ≡ (new_local_info address cluster_name k).node.id
    → n ≡ k
unfolding new_local_info
new_local_info-injective address cluster_name n k h = elim (Bool-cases (n == "")) [
  | inl e ↦ elim (Bool-cases (k == "")) [
    | inl g ↦ (eq_iff n "").0 e ∙ sym ((eq_iff k "").0 g)
    | inr g ↦ (eq_iff n "").0 e ∙ sym (full_node_id-filled address k (ground arith))
  ]
  | inr e ↦ elim (Bool-cases (k == "")) [
    | inl g ↦ full_node_id-filled address n (ground arith) ∙ sym ((eq_iff k "").0 g)
    | inr g ↦ full_node_id-injective address n k (ground arith)
  ]
]
