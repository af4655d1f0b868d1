-- ===== src/Decoding.antt =====
-- src/ads_protocol_client: DecodedResource.h, OpaqueResourceDecoder.h and ResourceName.h, how a
-- resource of an answer becomes a message with a name.
pub mod Laws
pub mod Examples
use Prim.Native.String.{◌++◌ as ◌<>◌}
use xds_client.Base.{
  String, Bool, true, false, Option, none, some, List, [], ◌∷◌, ◌++◌, ◌==◌, if◌then◌else◌,
}
use xds_client.Wire.{Any}

abbrev pub default_any : Any
default_any = record { type_url = ""; value = "" }

-- `envoy.service.discovery.v3.Resource`.
pub record Resource : Type 0 where
  pub name : String
  pub aliases : List String
  pub version : String
  pub resource : Option Any

-- `xds.core.v3.CollectionEntry.InlineEntry`.
pub record InlineEntry : Type 0 where
  pub name : String
  pub version : String
  pub resource : Any

-- What the code calls of protobuf: `Any::Is<Resource>`, and `ParseFromString` of a `Resource`, with
-- its success and the message that it leaves.
pub record ResourceParser : Type 0 where
  pub is_resource : Any → Bool
  pub parse_resource : String → Bool × Resource

-- A message class `Current`: a new one, and its `ParseFromString`.
pub record MessageClass (M : Type 0) : Type 0 where
  pub new_message : M
  pub parse_message : String → Bool × M

pub record OpaqueResourceDecoder (M : Type 0) : Type 0 where
  pub decode_resource : Any → M
  pub resource_name : M → String

pub record DecodedResource (M : Type 0) : Type 0 where
  pub resource : M
  pub has_resource : Bool
  pub name : String
  pub aliases : List String
  pub version : String

-- `unpackToOrThrow` prints if the parse fails, and leaves the message as the parse left it.
unfoldable pub unpack_to_or_throw {ℓ} : {A : Type ℓ} → (String → Bool × A) → Any → A
unpack_to_or_throw parse a = (parse a.value).1

-- `anyConvertAndValidate`, by way of `anyConvert`: nothing is validated.
unfoldable pub any_convert_and_validate {ℓ} : {A : Type ℓ} → (String → Bool × A) → Any → A
unfolding unpack_to_or_throw
any_convert_and_validate parse a = unpack_to_or_throw parse a

unfoldable pub get_string_field : {M : Type 0} → M → String → String
get_string_field message field_name = ""

-- `OpaqueResourceDecoderImpl`, for its class and its `name_field_`. It does not derive from
-- `OpaqueResourceDecoder`.
pub record OpaqueResourceDecoderImpl (M : Type 0) : Type 0 where
  pub class : MessageClass M
  pub name_field : String

-- Its `decodeResource` and `resourceName`.
unfoldable pub impl_decode_resource : {M : Type 0} → OpaqueResourceDecoderImpl M → Any → M
unfolding any_convert_and_validate
impl_decode_resource d a =
    if a.type_url == ""
    then d.class.new_message
    else any_convert_and_validate d.class.parse_message a

unfoldable pub impl_resource_name : {M : Type 0} → OpaqueResourceDecoderImpl M → M → String
unfolding get_string_field
impl_resource_name d m = get_string_field m d.name_field

-- `std::copy` into the end of a vector.
unfoldable pub copy_to : List String → List String → List String
copy_to [] ys = ys
copy_to (x ∷ xs) ys = copy_to xs (ys ++ x ∷ [])

unfoldable pub repeated_ptr_field_to_vector : List String → List String
unfolding copy_to
repeated_ptr_field_to_vector xs = copy_to xs []

module _ {M : Type 0} (decoder : OpaqueResourceDecoder M) where
  -- The private constructor.
  unfoldable pub new_decoded : String → List String → Any → Bool → String → DecodedResource M
  unfolding repeated_ptr_field_to_vector
  new_decoded name aliases resource has_resource version =
      let message = decoder.decode_resource resource in
      record {
        resource = message;
        has_resource = has_resource;
        name = if name == "" then decoder.resource_name message else name;
        aliases = repeated_ptr_field_to_vector aliases;
        version = version;
      }

  -- The constructor on a `Resource`; an accessor of an absent field gives an empty `Any`.
  unfoldable pub of_resource : Resource → DecodedResource M
  unfolding new_decoded
  of_resource r = elim r.resource [
    | none ↦ new_decoded r.name [] default_any false r.version
    | some a ↦ new_decoded r.name [] a true r.version
  ]

  unfoldable pub of_inline_entry : InlineEntry → DecodedResource M
  unfolding new_decoded
  of_inline_entry e = new_decoded e.name [] e.resource true e.version

  -- `fromResource` on an `Any`.
  unfoldable pub from_resource : ResourceParser → Any → String → DecodedResource M
  unfolding of_resource new_decoded unpack_to_or_throw
  from_resource protobuf resource version =
      if protobuf.is_resource resource
      then of_resource
          (record (unpack_to_or_throw protobuf.parse_resource resource) { version = version })
      else new_decoded "" [] resource true version

-- The constructor on a message.
unfoldable pub of_message : {M : Type 0} → M → String → List String → String → DecodedResource M
of_message resource name aliases version = record {
  resource = resource;
  has_resource = true;
  name = name;
  aliases = aliases;
  version = version;
}

-- `getResourceName` and `getTypeUrl`, which are the same for every class.
unfoldable pub get_resource_name : String
get_resource_name = ""

unfoldable pub get_type_url : String
unfolding get_resource_name
get_type_url = "type.googleapis.com/" <> get_resource_name
