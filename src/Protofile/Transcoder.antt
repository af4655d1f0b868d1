-- ===== src/Protofile/Transcoder.antt =====
-- text_format_transcoder.h, text_format_transcoder.cc and create_dynamic_message.cc: the class
-- `TextFormatTranscoder`.
use xds_client.Base.{String, Bool, true, false, ◌&&◌, not, Option, none, some, if◌then◌else◌}
use xds_client.Protofile.{FileDescriptorInfo, Deps, file_info, no_deps, dep, Descriptors}

-- What the code calls of protobuf's messages: `FindMessageTypeByName`, the pool of the compiled
-- messages, which may be null, the text parser (`none` if it fails) and `SerializePartialToString`
-- for dynamic messages, and for the caller's message `GetTypeName`, `ParseFromString`, with its
-- success, and `SerializePartialAsString`.
pub record Messages (d : Descriptors) (Dynamic Message : Type 0) : Type 0 where
  pub find_message : d.Pool → String → Bool
  pub generated_pool : Option d.Pool
  pub parse_text : String → Dynamic → Option Dynamic
  pub serialize : Dynamic → Option String
  pub parse_partial : String → Dynamic → Dynamic
  pub type_name : Message → String
  pub parse_from_string : String → Message → Bool × Message
  pub serialize_as_string : Message → String

module _ (d : Descriptors) where
  -- `internals_` is the pool; the message factory is not used.
  pub record TextFormatTranscoder : Type 0 where
    pub descriptor_pool : d.Pool
    pub allow_global_fallback : Bool

  -- `loadFileDescriptors` of the class: the bytes that are parsed are never filled.
  unfoldable mutual
    pub load_into : FileDescriptorInfo → d.Pool → d.Pool
    load_into (file_info name bytes deps) p = elim (d.find_file p name) [
      | true ↦ p
      | false ↦ d.build_file (d.parse_file "") (load_deps_into deps p)
    ]

    pub load_deps_into : Deps → d.Pool → d.Pool
    load_deps_into no_deps p = p
    load_deps_into (dep i deps) p = load_deps_into deps (load_into i p)

  unfoldable pub load : FileDescriptorInfo → TextFormatTranscoder → TextFormatTranscoder
  unfolding load_into
  load i t = record t { descriptor_pool = load_into i t.descriptor_pool }

  module _ {Dynamic Message : Type 0} (m : Messages d Dynamic Message)
      (t : TextFormatTranscoder) where
    -- The test for a descriptor in `createEmptyDynamicMessage`.
    unfoldable pub has_descriptor : String → Bool
    has_descriptor type_name =
        let found = m.find_message t.descriptor_pool type_name in
        if t.allow_global_fallback && not found
        then (elim m.generated_pool [ none ↦ false | some p ↦ m.find_message p type_name ])
        else found

    -- Its second null pointer stands where the code that makes the message is commented out.
    unfoldable pub create_empty_dynamic_message : String → Option Dynamic
    unfolding has_descriptor
    create_empty_dynamic_message type_name = if not (has_descriptor type_name) then none else none

    -- `toBinarySerializationInternal`: `none` for false.
    unfoldable pub to_binary_serialization : String → String → Option String
    unfolding create_empty_dynamic_message
    to_binary_serialization type_name input = elim (create_empty_dynamic_message type_name) [
      | none ↦ none
      | some message ↦ elim (m.parse_text input message) [
        | none ↦ none
        | some parsed ↦ m.serialize parsed
      ]
    ]

    unfoldable pub parse_into : String → Message → Bool × Message
    unfolding to_binary_serialization
    parse_into text message = elim (to_binary_serialization (m.type_name message) text) [
      | none ↦ (false, message)
      | some serialization ↦ m.parse_from_string serialization message
    ]

    -- `createDynamicMessage`.
    unfoldable pub create_dynamic_message : Message → Option Dynamic
    unfolding create_empty_dynamic_message
    create_dynamic_message message = elim (create_empty_dynamic_message (m.type_name message)) [
      | none ↦ none
      | some made ↦ some (m.parse_partial (m.serialize_as_string message) made)
    ]
