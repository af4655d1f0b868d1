-- ===== src/Config/Fields.antt =====
-- src/ads_protocol_client/Config.h: what `build_struct` makes of its list.
use xds_client.Base.{
  String, Bool, true, false, Option, none, some, List, [], ◌∷◌, ◌≡◌, refl, sym, ap, ◌∙◌, ◌==◌,
  eq_iff, arith, Bool-cases, inl, inr, if◌then◌else◌,
}
use xds_client.Config.{insert_field, insert_fields, build_struct}

-- The first value of a key.
abbrev pub lookup : List (String × String) → String → Option String
lookup [] k = none
lookup ((j, w) ∷ fields) k = if j == k then some w else lookup fields k

abbrev or_else : Option String → Option String → Option String
or_else (some v) o = some v
or_else none o = o

or_else-none : (o : Option String) → or_else o none ≡ o
or_else-none none = refl
or_else-none (some v) = refl

or_else_assoc : (a b c : Option String) → or_else (or_else a b) c ≡ or_else a (or_else b c)
or_else_assoc none b c = refl
or_else_assoc (some v) b c = refl

lookup-insert_field :
    (k v u : String) (fields : List (String × String))
    → lookup (insert_field k v fields) u
      ≡ or_else (lookup fields u) (if k == u then some v else none)
unfolding insert_field
lookup-insert_field k v u [] = refl
lookup-insert_field k v u ((j, w) ∷ fields) = ground (
  arith,
  eq_iff j k,
  eq_iff j u,
  eq_iff k u,
  lookup-insert_field k v u fields,
  or_else-none (lookup fields u),
)

or_else_if :
    (k v u : String) (o : Option String)
    → or_else (if k == u then some v else none) o ≡ (if k == u then some v else o)
or_else_if k v u o = ground arith

lookup-insert_fields :
    (items fields : List (String × String)) (u : String)
    → lookup (insert_fields items fields) u ≡ or_else (lookup fields u) (lookup items u)
unfolding insert_fields
lookup-insert_fields [] fields u = sym (or_else-none (lookup fields u))
lookup-insert_fields ((k, v) ∷ items) fields u =
    lookup-insert_fields items (insert_field k v fields) u
    ∙ ap (λ o. or_else o (lookup items u)) (lookup-insert_field k v u fields)
    ∙ or_else_assoc (lookup fields u) _ (lookup items u)
    ∙ ap (λ o. or_else (lookup fields u) o) (or_else_if k v u (lookup items u))

-- How often a key is listed.
abbrev has_key : List (String × String) → String → Bool
has_key [] k = false
has_key ((j, w) ∷ fields) k = if j == k then true else has_key fields k

abbrev pub Distinct : List (String × String) → Type 0
Distinct [] = Unit
Distinct ((j, w) ∷ fields) = (has_key fields j ≡ false) × Distinct fields

has_key-insert_field :
    (k v u : String) (fields : List (String × String))
    → has_key fields u ≡ false
    → (k == u) ≡ false
    → has_key (insert_field k v fields) u ≡ false
unfolding insert_field
has_key-insert_field k v u [] h n = ground (arith, n)
has_key-insert_field k v u ((j, w) ∷ fields) h n = elim (Bool-cases (j == u)) [
  | inl e ↦ absurd (ground (arith, h, e))
  | inr e ↦ ground (arith, h, n, e, has_key-insert_field k v u fields (ground (arith, h, e)) n)
]

flipped : (j k : String) → (j == k) ≡ false → (k == j) ≡ false
flipped j k e = ground (arith, e, eq_iff j k, eq_iff k j)

Distinct-insert_field :
    (k v : String) (fields : List (String × String))
    → Distinct fields
    → Distinct (insert_field k v fields)
unfolding insert_field
Distinct-insert_field k v [] d = (refl, tt)
Distinct-insert_field k v ((j, w) ∷ fields) d = elim (Bool-cases (j == k)) [
  | inl e ↦ rw e d
  | inr e ↦
      rw e (
        has_key-insert_field k v j fields d.0 (flipped j k e),
        Distinct-insert_field k v fields d.1,
      )
]

insert_fields-Distinct :
    (items fields : List (String × String))
    → Distinct fields
    → Distinct (insert_fields items fields)
unfolding insert_fields
insert_fields-Distinct [] fields d = d
insert_fields-Distinct ((k, v) ∷ items) fields d =
    insert_fields-Distinct items (insert_field k v fields) (Distinct-insert_field k v fields d)

-- The struct that `build_struct` makes lists each key once, with the first value that the key has in
-- the list, and has no other keys.
pub build_struct-lookup :
    (items : List (String × String))
    → Distinct (build_struct items)
      × ((u : String) → lookup (build_struct items) u ≡ lookup items u)
unfolding build_struct
build_struct-lookup items =
    (insert_fields-Distinct items [] tt, λ u. lookup-insert_fields items [] u)
