-- ===== src/Protofile/Loading.antt =====
-- file_descriptor_info.cc: a file is loaded with all that it depends on, dependencies first.
use mathlib.Core.Path.{subst}
use xds_client.Base.{
  String, true, false, ◌≡◌, refl, sym, ap, ◌∙◌, ◌==◌, eq_iff, arith, Bool-cases, inl, inr,
}
use xds_client.Protofile.{
  FileDescriptorInfo, Deps, file_info, no_deps, dep, dep_names, FileDescriptorProto, all_found,
  Descriptors, DescriptorLaws, load_file_descriptors, load_deps,
}

module _ (d : Descriptors) where
  -- The bytes of a file and of all that it depends on are those of a valid file of its name, which
  -- depends on the same files.
  abbrev mutual
    pub IsGenuine : FileDescriptorInfo → Type 0
    IsGenuine (file_info name bytes deps) =
        (d.parse_file (d.unescape bytes) ≡ record { name = name; dependencies = dep_names deps })
        × (d.is_valid (d.parse_file (d.unescape bytes)) ≡ true)
        × AreGenuine deps

    pub AreGenuine : Deps → Type 0
    AreGenuine no_deps = Unit
    AreGenuine (dep i deps) = IsGenuine i × AreGenuine deps

  -- A file and all that it depends on are in the pool.
  abbrev mutual
    pub IsLoaded : FileDescriptorInfo → d.Pool → Type 0
    IsLoaded (file_info name bytes deps) p = (d.find_file p name ≡ true) × AreLoaded deps p

    pub AreLoaded : Deps → d.Pool → Type 0
    AreLoaded no_deps p = Unit
    AreLoaded (dep i deps) p = IsLoaded i p × AreLoaded deps p

  abbrev Grows : d.Pool → d.Pool → Type 0
  Grows p q = (n : String) → d.find_file p n ≡ true → d.find_file q n ≡ true

  mutual
    IsLoaded-Grows :
        (i : FileDescriptorInfo) (p q : d.Pool) → Grows p q → IsLoaded i p → IsLoaded i q
    IsLoaded-Grows (file_info name bytes deps) p q g h =
        (g name h.0, AreLoaded-Grows deps p q g h.1)

    AreLoaded-Grows : (deps : Deps) (p q : d.Pool) → Grows p q → AreLoaded deps p → AreLoaded deps q
    AreLoaded-Grows no_deps p q g h = tt
    AreLoaded-Grows (dep i deps) p q g h =
        (IsLoaded-Grows i p q g h.0, AreLoaded-Grows deps p q g h.1)

  AreLoaded-found :
      (deps : Deps) (p : d.Pool)
      → AreLoaded deps p
      → all_found (d.find_file p) (dep_names deps) ≡ true
  AreLoaded-found no_deps p h = refl
  AreLoaded-found (dep (file_info name bytes under) deps) p h =
      ground (arith, h.0.0, AreLoaded-found deps p h.1)

  pub load_found :
      (name bytes : String) (deps : Deps) (p : d.Pool)
      → d.find_file p name ≡ true
      → load_file_descriptors d (file_info name bytes deps) p ≡ p
  unfolding load_file_descriptors
  load_found name bytes deps p e = ground (arith, e)

  pub load_missing :
      (name bytes : String) (deps : Deps) (p : d.Pool)
      → d.find_file p name ≡ false
      → load_file_descriptors d (file_info name bytes deps) p
        ≡ d.build_file (d.parse_file (d.unescape bytes)) (load_deps d deps p)
  unfolding load_file_descriptors
  load_missing name bytes deps p e = ground (arith, e)

  load_again :
      (i : FileDescriptorInfo) (p : d.Pool) → IsLoaded i p → load_file_descriptors d i p ≡ p
  load_again (file_info name bytes deps) p h = load_found name bytes deps p h.0

  -- `info_of` gives the one description that the program has of each file.
  module _ (laws : DescriptorLaws d) (info_of : String → FileDescriptorInfo) where
    abbrev mutual
      pub IsListed : FileDescriptorInfo → Type 0
      IsListed (file_info name bytes deps) =
          (info_of name ≡ file_info name bytes deps) × AreListed deps

      pub AreListed : Deps → Type 0
      AreListed no_deps = Unit
      AreListed (dep i deps) = IsListed i × AreListed deps

    -- With each file that is in the pool, all that it depends on is.
    abbrev pub IsClosed : d.Pool → Type 0
    IsClosed p = (n : String) → d.find_file p n ≡ true → IsLoaded (info_of n) p

    -- A load leaves what is in the pool there, keeps the pool closed, and loads the file.
    record Loads (p q : d.Pool) : Type 0 where
      grows : Grows p q
      closed : IsClosed q

    -- A file is built on top of what it depends on.
    build_Loads :
        (name bytes : String) (deps : Deps) (p q : d.Pool)
        → IsGenuine (file_info name bytes deps)
        → IsListed (file_info name bytes deps)
        → Loads p q
        → AreLoaded deps q
        → let r = d.build_file (d.parse_file (d.unescape bytes)) q in
          Loads p r × IsLoaded (file_info name bytes deps) r
    build_Loads name bytes deps p q g l rest under =
        let f = d.parse_file (d.unescape bytes) in
        let r = d.build_file f q in
        let named : f.name ≡ name = ap (λ (x : FileDescriptorProto). x.name) g.0 in
        let ready =
          ap (λ (x : FileDescriptorProto). all_found (d.find_file q) x.dependencies) g.0
          ∙ AreLoaded-found deps q under in
        let added = subst (λ n. d.find_file r n ≡ true) named (laws.build_adds f q g.1 ready) in
        let stays = laws.build_keeps f q in
        let here : IsLoaded (file_info name bytes deps) r =
          (added, AreLoaded-Grows deps q r stays under) in
        (
          record {
            grows = λ n h. stays n (rest.grows n h);
            closed = λ n h. elim (Bool-cases (f.name == n)) [
              | inl same ↦
                  subst (λ m. IsLoaded (info_of m) r) (sym named ∙ (eq_iff f.name n).0 same)
                    (subst (λ i. IsLoaded i r) (sym l.0) here)
              | inr other ↦
                  IsLoaded-Grows (info_of n) q r stays
                    (rest.closed n (sym (laws.build_only f q n other) ∙ h))
            ];
          },
          here,
        )

    mutual
      unfolding load_file_descriptors

      load_file_descriptors-Loads :
          (i : FileDescriptorInfo) (p : d.Pool)
          → IsGenuine i
          → IsListed i
          → IsClosed p
          → Loads p (load_file_descriptors d i p) × IsLoaded i (load_file_descriptors d i p)
      load_file_descriptors-Loads (file_info name bytes deps) p g l c =
          elim (Bool-cases (d.find_file p name)) [
            | inl e ↦
                rw (load_found name bytes deps p e) (
                  record { grows = λ n h. h; closed = c },
                  subst (λ i. IsLoaded i p) l.0 (c name e),
                )
            | inr e ↦
                let (rest, under) = load_deps-Loads deps p g.2 l.1 c in
                rw (load_missing name bytes deps p e)
                  (build_Loads name bytes deps p (load_deps d deps p) g l rest under)
          ]

      load_deps-Loads :
          (deps : Deps) (p : d.Pool)
          → AreGenuine deps
          → AreListed deps
          → IsClosed p
          → Loads p (load_deps d deps p) × AreLoaded deps (load_deps d deps p)
      load_deps-Loads no_deps p g l c = (record { grows = λ n h. h; closed = c }, tt)
      load_deps-Loads (dep i deps) p g l c =
          let (first, here) = load_file_descriptors-Loads i p g.0 l.0 c in
          let p1 = load_file_descriptors d i p in
          let (rest, under) = load_deps-Loads deps p1 g.1 l.1 first.closed in
          (
            record { grows = λ n h. rest.grows n (first.grows n h); closed = rest.closed },
            (IsLoaded-Grows i p1 _ rest.grows here, under),
          )

    -- In a pool that is closed (with each file that is there, all that it depends on is), the load of
    -- a file whose bytes, and those of all that it depends on, are genuine, and of which the program
    -- has one description, makes it and all that it depends on found; whatever was found stays; the
    -- pool stays closed; and a second load changes nothing.
    pub load_file_descriptors-IsLoaded :
        (i : FileDescriptorInfo) (p : d.Pool)
        → IsGenuine i
        → IsListed i
        → IsClosed p
        → let q = load_file_descriptors d i p in
          IsLoaded i q
          × ((n : String) → d.find_file p n ≡ true → d.find_file q n ≡ true)
          × IsClosed q
          × (load_file_descriptors d i q ≡ q)
    load_file_descriptors-IsLoaded i p g l c =
        let (loads, here) = load_file_descriptors-Loads i p g l c in
        (here, loads.grows, loads.closed, load_again i _ here)
