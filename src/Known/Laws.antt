-- ===== src/Known/Laws.antt =====
-- src/ads_protocol_client/State.h: what `add_resource` makes known.
use xds_client.Base.{
  String, ◌&&◌, ◌||◌, ◌≡◌, refl, ap, ◌∙◌, arith, ◌==◌, eq_iff, contains, set_insert, inl, inr,
  Bool-cases, if◌then◌else◌,
}
use mathlib.Core.Path.{subst}
use xds_client.Base.Sets.{IsAscending, set_insert-IsAscending, contains-set_insert}
use xds_client.Known.{State, known, add_resource}

-- Every set is in strictly ascending order, as a `std::set` is.
abbrev pub IsOrdered : State → Type 0
IsOrdered s = (t : String) → IsAscending (known s t)

known-add_resource :
    (t n u : String) (s : State)
    → known (add_resource t n s) u ≡ (if t == u then set_insert n (known s t) else known s u)
unfolding add_resource
known-add_resource t n u s = ground arith

-- After `add_resource`, the name is known for its type, and all else is known that was and no more;
-- the sets stay in strictly ascending order.
pub add_resource-IsOrdered :
    (t n : String) (s : State)
    → IsOrdered s
    → IsOrdered (add_resource t n s)
      × ((u m : String)
          → contains (known (add_resource t n s) u) m
            ≡ ((t == u && n == m) || contains (known s u) m))
add_resource-IsOrdered t n s h = (
  λ u. rw (known-add_resource t n u s) (elim (Bool-cases (t == u)) [
    | inl e ↦ rw e (set_insert-IsAscending n (known s t) (h t))
    | inr e ↦ rw e (h u)
  ]),
  λ u m. ap (λ l. contains l m) (known-add_resource t n u s) ∙ elim (Bool-cases (t == u)) [
    | inl e ↦
        subst
          (λ v.
            contains (if t == v then set_insert n (known s t) else known s v) m
            ≡ ((t == v && n == m) || contains (known s v) m))
          ((eq_iff t u).0 e) (ground (arith, eq_iff t t, contains-set_insert n m (known s t)))
    | inr e ↦ rw e refl
  ],
)
