-- ===== src/Protofile.antt =====
-- src/ads_protocol_client/protofile: file_descriptor_info.h and file_descriptor_info.cc, the loading
-- of file descriptors into a descriptor pool of protobuf.
pub mod Transcoder
pub mod Loading
pub mod Unloaded
pub mod Examples
use xds_client.Base.{String, Bool, true, false, ◌&&◌, List, [], ◌∷◌, ◌≡◌, ◌==◌}

-- `FileDescriptorInfo`; `deps` is an array of pointers to constants that ends with a null pointer,
-- and no file depends on itself.
mutual
  pub data FileDescriptorInfo : Type 0 where
    file_info : String → String → Deps → FileDescriptorInfo

  pub data Deps : Type 0 where
    no_deps : Deps
    dep : FileDescriptorInfo → Deps → Deps

abbrev pub file_name : FileDescriptorInfo → String
file_name (file_info name bytes deps) = name

abbrev pub dep_names : Deps → List String
dep_names no_deps = []
dep_names (dep i deps) = file_name i ∷ dep_names deps

-- The parts of a `FileDescriptorProto` on which its acceptance by a pool depends.
pub record FileDescriptorProto : Type 0 where
  pub name : String
  pub dependencies : List String

abbrev pub all_found : (String → Bool) → List String → Bool
all_found found [] = true
all_found found (n ∷ ns) = found n && all_found found ns

-- What the code calls of protobuf and absl: `DescriptorPool` with `FindFileByName` and `BuildFile`,
-- `ParseFromString` of a `FileDescriptorProto`, and `Base64Unescape`. `is_valid` says that a file has
-- no errors and no conflict with the other files of the program.
pub record Descriptors : Type 1 where
  pub Pool : Type 0
  pub find_file : Pool → String → Bool
  pub build_file : FileDescriptorProto → Pool → Pool
  pub parse_file : String → FileDescriptorProto
  pub unescape : String → String
  pub is_valid : FileDescriptorProto → Bool

-- What protobuf documents: a file that was built stays; a build adds at most the file of that name;
-- it adds the file if that is valid and its dependencies are there; empty bytes are a message with
-- no field set.
pub record DescriptorLaws (d : Descriptors) : Type 0 where
  pub build_keeps :
      (f : FileDescriptorProto) (p : d.Pool) (n : String)
      → d.find_file p n ≡ true
      → d.find_file (d.build_file f p) n ≡ true
  pub build_only :
      (f : FileDescriptorProto) (p : d.Pool) (n : String)
      → (f.name == n) ≡ false
      → d.find_file (d.build_file f p) n ≡ d.find_file p n
  pub build_adds :
      (f : FileDescriptorProto) (p : d.Pool)
      → d.is_valid f ≡ true
      → all_found (d.find_file p) f.dependencies ≡ true
      → d.find_file (d.build_file f p) f.name ≡ true
  pub parse_empty : (d.parse_file "").name ≡ ""

module _ (d : Descriptors) where
  -- `internal::loadFileDescriptors`, and its loop over `deps`.
  unfoldable mutual
    pub load_file_descriptors : FileDescriptorInfo → d.Pool → d.Pool
    load_file_descriptors (file_info name bytes deps) p = elim (d.find_file p name) [
      | true ↦ p
      | false ↦ d.build_file (d.parse_file (d.unescape bytes)) (load_deps deps p)
    ]

    pub load_deps : Deps → d.Pool → d.Pool
    load_deps no_deps p = p
    load_deps (dep i deps) p = load_deps deps (load_file_descriptors i p)
