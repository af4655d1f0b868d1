-- ===== src/Protofile/Unloaded.antt =====
-- text_format_transcoder.cc: what the class cannot do while parts of it are commented out.
use xds_client.Base.{
  String, false, none, ◌≡◌, refl, ap, ◌∙◌, ◌==◌, eq_iff, arith, Bool-cases, inl, inr,
}
use xds_client.Protofile.{
  FileDescriptorInfo, Deps, file_info, no_deps, dep, Descriptors, DescriptorLaws,
}
use xds_client.Protofile.Transcoder.{
  Messages, TextFormatTranscoder, load_into, load_deps_into, load, parse_into,
  create_dynamic_message,
}

parse_into_fails :
    (d : Descriptors) {Dynamic Message : Type 0} (m : Messages d Dynamic Message)
    (t : TextFormatTranscoder d) (i : FileDescriptorInfo) (text : String) (message : Message)
    → (parse_into d m (load d i t) text message ≡ (false, message))
      × (create_dynamic_message d m (load d i t) message ≡ none)
unfolding parse_into create_dynamic_message
parse_into_fails d m t i text message = (ground arith, ground arith)

module _ (d : Descriptors) (laws : DescriptorLaws d) where
  module _ (n : String) (named : (n == "") ≡ false) where
    build_empty : (p : d.Pool) → d.find_file (d.build_file (d.parse_file "") p) n ≡ d.find_file p n
    build_empty p =
        laws.build_only (d.parse_file "") p n
          (ap (λ s. s == n) laws.parse_empty ∙ ground (arith, named, eq_iff n "", eq_iff "" n))

    mutual
      unfolding load_into

      load_into_nothing :
          (i : FileDescriptorInfo) (p : d.Pool) → d.find_file (load_into d i p) n ≡ d.find_file p n
      load_into_nothing (file_info name bytes deps) p = elim (Bool-cases (d.find_file p name)) [
        | inl e ↦ ground (arith, e)
        | inr e ↦ ground (arith, e, build_empty (load_deps_into d deps p), load_deps_nothing deps p)
      ]

      load_deps_nothing :
          (deps : Deps) (p : d.Pool) → d.find_file (load_deps_into d deps p) n ≡ d.find_file p n
      load_deps_nothing no_deps p = refl
      load_deps_nothing (dep i deps) p =
          load_deps_nothing deps (load_into d i p) ∙ load_into_nothing i p

  -- `loadFileDescriptors` of the class loads nothing: for every file name that is not empty, the file
  -- is found in the pool afterwards just when it was found before. And afterwards, with the fallback
  -- or without, `parseInto` fails for every text and every message and leaves the message as it was,
  -- and `createDynamicMessage` gives null.
  pub load_nothing :
      {Dynamic Message : Type 0} (m : Messages d Dynamic Message) (i : FileDescriptorInfo)
      (t : TextFormatTranscoder d) (n text : String) (message : Message)
      → (n == "") ≡ false
      → (d.find_file (load d i t).descriptor_pool n ≡ d.find_file t.descriptor_pool n)
        × (parse_into d m (load d i t) text message ≡ (false, message))
        × (create_dynamic_message d m (load d i t) message ≡ none)
  unfolding load
  load_nothing m i t n text message named =
      let (unparsed, null) = parse_into_fails d m t i text message in
      (load_into_nothing n named i t.descriptor_pool, unparsed, null)
