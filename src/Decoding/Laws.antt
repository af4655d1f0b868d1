-- ===== src/Decoding/Laws.antt =====
-- DecodedResource.h: what becomes of the parts of a resource, by each way to decode one.
use xds_client.Base.{
  String, Bool, true, false, none, some, [], ◌≡◌, refl, sym, ap, ◌∙◌, ◌==◌, if◌then◌else◌,
  Option-cases, Bool-cases, inl, inr,
}
use xds_client.Wire.{Any}
use xds_client.Decoding.{
  default_any, Resource, InlineEntry, ResourceParser, OpaqueResourceDecoder, DecodedResource,
  new_decoded, of_resource, of_inline_entry, from_resource,
}

-- What a wrapper holds, and whether it holds something.
abbrev pub held : Resource → Any
held r = elim r.resource [ none ↦ default_any | some a ↦ a ]

abbrev pub holds : Resource → Bool
holds r = elim r.resource [ none ↦ false | some a ↦ true ]

-- The decoded resource with the parts as they should be.
abbrev pub Carries :
    {M : Type 0}
    → OpaqueResourceDecoder M
    → String
    → Any
    → Bool
    → String
    → DecodedResource M
    → Type 0
Carries decoder name body present version d =
    (d.resource ≡ decoder.decode_resource body)
    × (d.has_resource ≡ present)
    × (d.version ≡ version)
    × (d.aliases ≡ [])
    × (d.name ≡ (if name == "" then decoder.resource_name (decoder.decode_resource body) else name))

-- The wrapper that stands in an `Any`, as far as it can be parsed, and for any other content a
-- wrapper without a name around it.
abbrev pub wrapper_of : ResourceParser → Any → Resource
wrapper_of protobuf a =
    if protobuf.is_resource a
    then (protobuf.parse_resource a.value).1
    else (record { name = ""; aliases = []; version = ""; resource = some a })

of_resource-Carries :
    {M : Type 0} (decoder : OpaqueResourceDecoder M) (r : Resource)
    → Carries decoder r.name (held r) (holds r) r.version (of_resource decoder r)
unfolding of_resource
of_resource-Carries decoder r = elim (Option-cases r.resource) [
  | inl e ↦ rw (e, of_resource) (refl, refl, refl, refl, refl)
  | inr (a, e) ↦ rw (e, of_resource) (refl, refl, refl, refl, refl)
]

of_resource-some :
    {M : Type 0} (decoder : OpaqueResourceDecoder M) (r : Resource) (body : Any)
    → r.resource ≡ some body
    → of_resource decoder r ≡ new_decoded decoder r.name [] body true r.version
unfolding of_resource
of_resource-some decoder r body e = rw (e, of_resource) refl

module _ {M : Type 0} (decoder : OpaqueResourceDecoder M) (protobuf : ResourceParser) where
  -- What `fromResource` makes of an `Any` has the decoded body of the wrapper, the version that is
  -- given in place of the wrapper's, no aliases, and the wrapper's name, or if that is empty the name
  -- that the decoder finds in the decoded body. An `Any` that holds no wrapper is a body without a
  -- name.
  pub from_resource-Carries :
      (a : Any) (version : String)
      → let r = wrapper_of protobuf a in
        Carries decoder r.name (held r) (holds r) version (from_resource decoder protobuf a version)
  unfolding from_resource
  from_resource-Carries a version = elim (Bool-cases (protobuf.is_resource a)) [
    | inl e ↦ rw e (
        of_resource-Carries decoder
          (record (protobuf.parse_resource a.value).1 { version = version }))
    | inr e ↦ rw e (refl, refl, refl, refl, refl)
  ]

  -- An inline entry, and a wrapper with its name and its body, whatever the wrapper's aliases and own
  -- version, decode to the same resource when the entry's version is given.
  of_inline_entry-eq-from_resource :
      (e : InlineEntry) (a : Any) (r : Resource)
      → protobuf.is_resource a ≡ true
      → protobuf.parse_resource a.value ≡ (true, r)
      → r.name ≡ e.name
      → r.resource ≡ some e.resource
      → of_inline_entry decoder e ≡ from_resource decoder protobuf a e.version
  unfolding of_inline_entry from_resource
  of_inline_entry-eq-from_resource e a r w p n b =
      ap (λ name. new_decoded decoder name [] e.resource true e.version) (sym n)
      ∙ sym (of_resource-some decoder (record r { version = e.version }) e.resource b)
      ∙ ap (λ (x : Bool × Resource). of_resource decoder (record x.1 { version = e.version }))
          (sym p)
      ∙ rw w refl
