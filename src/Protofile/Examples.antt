-- ===== src/Protofile/Examples.antt =====
-- A descriptor pool that keeps the names of its files, two files, and the theorems at these.
use xds_client.Base.{
  String, true, false, none, some, List, [], ◌∷◌, ◌≡◌, refl, ◌==◌, eq_refl, arith, contains,
  if◌then◌else◌,
}
use xds_client.Protofile.{
  FileDescriptorInfo, file_info, no_deps, dep, FileDescriptorProto, all_found, Descriptors,
  DescriptorLaws, load_file_descriptors,
}
use xds_client.Protofile.Transcoder.{
  Messages, TextFormatTranscoder, load, parse_into, create_dynamic_message,
}
use xds_client.Protofile.Loading.{IsLoaded, IsClosed, load_file_descriptors-IsLoaded}
use xds_client.Protofile.Unloaded.{load_nothing}

abbrev base_proto : FileDescriptorProto
base_proto = record { name = "base"; dependencies = [] }

abbrev top_proto : FileDescriptorProto
top_proto = record { name = "top"; dependencies = "base" ∷ [] }

abbrev parse : String → FileDescriptorProto
parse bytes =
    if bytes == "b"
    then base_proto
    else if bytes == "t"
    then top_proto
    else (record { name = ""; dependencies = [] })

-- A file is added if its dependencies are there.
abbrev names : Descriptors
names = record {
  Pool = List String;
  find_file = contains;
  build_file = λ f p. if all_found (contains p) f.dependencies then f.name ∷ p else p;
  parse_file = parse;
  unescape = λ s. s;
  is_valid = λ f. true;
}

names_keep :
    (f : FileDescriptorProto) (p : List String) (n : String)
    → contains p n ≡ true
    → contains (if all_found (contains p) f.dependencies then f.name ∷ p else p) n ≡ true
names_keep f p n h = ground arith

names_only :
    (f : FileDescriptorProto) (p : List String) (n : String)
    → (f.name == n) ≡ false
    → contains (if all_found (contains p) f.dependencies then f.name ∷ p else p) n ≡ contains p n
names_only f p n h = ground arith

names_add :
    (f : FileDescriptorProto) (p : List String)
    → all_found (contains p) f.dependencies ≡ true
    → contains (if all_found (contains p) f.dependencies then f.name ∷ p else p) f.name ≡ true
names_add f p h = ground (arith, eq_refl f.name)

abbrev names_laws : DescriptorLaws names
names_laws = record {
  build_keeps = names_keep;
  build_only = names_only;
  build_adds = λ f p v h. names_add f p h;
  parse_empty = refl;
}

abbrev base_info : FileDescriptorInfo
base_info = file_info "base" "b" no_deps

abbrev top_info : FileDescriptorInfo
top_info = file_info "top" "t" (dep base_info no_deps)

abbrev info_of : String → FileDescriptorInfo
info_of n = if n == "base" then base_info else top_info

abbrev loaded : List String
loaded = load_file_descriptors names top_info []

load_file_descriptors-IsLoaded_example :
    IsLoaded names top_info loaded
    × ((n : String) → contains [] n ≡ true → contains loaded n ≡ true)
    × IsClosed names names_laws info_of loaded
    × (load_file_descriptors names top_info loaded ≡ loaded)
load_file_descriptors-IsLoaded_example =
    load_file_descriptors-IsLoaded names names_laws info_of top_info []
      (refl, refl, ((refl, refl, tt), tt)) (refl, ((refl, tt), tt))
      (λ n h. absurd (ground (arith, h)))

-- A transcoder with one file, and messages that are texts.
abbrev transcoder : TextFormatTranscoder names
transcoder = record { descriptor_pool = "base" ∷ []; allow_global_fallback = true }

abbrev texts : Messages names String String
texts = record {
  find_message = λ p n. true;
  generated_pool = none;
  parse_text = λ s m. some s;
  serialize = λ m. some m;
  parse_partial = λ s m. s;
  type_name = λ m. "T";
  parse_from_string = λ s m. (true, s);
  serialize_as_string = λ m. m;
}

load_nothing_example :
    (contains (load names top_info transcoder).descriptor_pool "top" ≡ contains ("base" ∷ []) "top")
    × (parse_into names texts (load names top_info transcoder) "text" "old" ≡ (false, "old"))
    × (create_dynamic_message names texts (load names top_info transcoder) "old" ≡ none)
load_nothing_example =
    load_nothing names names_laws texts top_info transcoder "top" "text" "old" refl
