-- ===== src/Mmdb/Open/Sound.antt =====
-- What `MMDB_open` guarantees: the conditions that a lookup relies on.
use qladder.Prelude.{
  ℕ, ◌+◌, ◌*◌, ◌/◌, ◌≤◌, ◌<◌, ◌^◌, ◌≡◌, ◌≢◌, ◌⊎◌, inl, inr, refl, ap, subst, ◌∙◌, List, ◌++◌,
  Option, some, Bool, false, ◌&&◌, ◌||◌, not, ltb, ◌==◌, u32, sub32, length, bytes_of, arith,
  Bool-cases, length-append,
}
use qladder.Mmdb.{ok, Holds, >>=-Holds, if-Holds}
use qladder.Mmdb.Tree.{Mmdb, separator}
use qladder.Mmdb.Tree.Safe.{IsOpen}
use qladder.Mmdb.Metadata.{
  Metadata, marker, find_metadata, nonzero, value_for_key_as_uint16, value_for_key_as_uint32,
  value_for_key_as_uint64, value_for_key_as_string, populate_languages_metadata,
  populate_description_metadata,
}
use qladder.Mmdb.Metadata.Find.{IsMetadata, find_metadata-IsMetadata}
use qladder.Mmdb.Metadata.Read.{
  Any, nonzero-Holds, uint16-Holds, uint32-Holds, uint64-Holds, string-Holds,
  populate_languages-Holds, populate_description-Holds,
}
use qladder.Mmdb.Open.{
  read_record_size, read_ip_version, read_metadata, place_sections, open_database,
}

-- The metadata that `read_metadata` lets through.
pub record IsRead (md : Metadata) : Type 0 where
  pub nodes : md.node_count ≢ 0
  pub size : (md.record_size ≡ 24) ⊎ (md.record_size ≡ 28) ⊎ (md.record_size ≡ 32)
  pub version : (md.ip_version ≡ 4) ⊎ (md.ip_version ≡ 6)

-- A database ready for lookups: well formed, with the data section the rest of the file; or the
-- size of the tree has wrapped around `u32_t` and the data section lies outside the file.
abbrev pub IsLoaded : List ℕ → Mmdb → Type 0
IsLoaded content m =
    (3 ≤ m.data_section_size)
    × ((IsOpen m × (m.data_section + m.data_section_size ≡ length content))
        ⊎ length content < m.data_section)

-- Metadata that was read, in a file of less than 4 GB: the sections are refused or give such a
-- database.
pub place_sections-IsLoaded :
    (content : List ℕ) (md : Metadata)
    → IsRead md
    → length content < 2 ^ 32
    → Holds (IsLoaded content) (place_sections content md)
unfolding place_sections
place_sections-IsLoaded content md read small =
    let tree : ℕ = u32 (md.node_count * (md.record_size * 2 / 8)) in
    let rest : ℕ = sub32 (sub32 (u32 (length content)) tree) separator in
    if-Holds (IsLoaded content) (not (md.binary_format_major_version == 2)) _ _ (λ _. tt)
      λ _.
        if-Holds (IsLoaded content) (ltb (u32 (length content)) (u32 (tree + separator))) _ _
          (λ _. tt)
          λ fits.
            if-Holds (IsLoaded content) (ltb rest 3) _ _ (λ _. tt)
              λ large.
                let three : 3 ≤ rest = ground arith in
                (
                  three,
                  elim (Bool-cases (ltb (length content) (tree + 16))) [
                    | inl outside ↦ inr (ground arith)
                    | inr inside ↦
                        let within : tree + 16 ≤ length content = ground arith in
                        inl (
                          record {
                            size = ground (arith, read.size);
                            mapped = within;
                            bits = ground (arith, read.version);
                            start = omega arith;
                          },
                          omega (arith, within, small),
                        )
                  ],
                )

-- With this number of nodes the sum of the tree's size and the separator wraps around `u32_t`: the
-- check lets a small file through, and its data section begins 4 GB behind the file's end.
pub place_sections_wraps :
    (content : List ℕ) (md : Metadata)
    → md.node_count ≡ 715827882
    → md.record_size ≡ 24
    → md.binary_format_major_version ≡ 2
    → 15 ≤ length content
    → length content < 2 ^ 32
    → (m : Mmdb) × (place_sections content md ≡ ok m) × (length content < m.data_section)
unfolding place_sections
place_sections_wraps content md nodes size major big small =
    let version : not (md.binary_format_major_version == 2) ≡ false = ground arith in
    let fits : ltb (u32 (length content)) (u32 (4294967292 + 16)) ≡ false = ground arith in
    let large : ltb (sub32 (sub32 (u32 (length content)) 4294967292) 16) 3 ≡ false = ground arith in
    rw (version, nodes, size) (rw (fits, large) (_, refl, omega arith))

module _ (malloc calloc : ℕ → Bool) (strtol : List ℕ → Option (ℕ × Bool)) (fuel : ℕ) where
  module _ (mem : List ℕ) (big : 3 ≤ length mem) (small : length mem < 2 ^ 32)
      (enough : length mem < fuel) where
    record_size-Holds :
        Holds (λ n. (n ≡ 24) ⊎ (n ≡ 28) ⊎ (n ≡ 32)) (read_record_size malloc calloc strtol fuel mem)
    unfolding read_record_size
    record_size-Holds =
        >>=-Holds (λ n. n ≢ 0) _
          (nonzero (value_for_key_as_uint16 malloc calloc strtol fuel mem (bytes_of "record_size")))
          _ (nonzero-Holds _ (uint16-Holds malloc calloc strtol fuel mem big small enough _))
          λ n _.
            if-Holds (λ n. (n ≡ 24) ⊎ (n ≡ 28) ⊎ (n ≡ 32))
              (not (n == 24) && not (n == 28) && not (n == 32)) _ _ (λ _. tt) λ e. ground arith

    ip_version-Holds :
        Holds (λ n. (n ≡ 4) ⊎ (n ≡ 6)) (read_ip_version malloc calloc strtol fuel mem)
    unfolding read_ip_version
    ip_version-Holds =
        >>=-Holds (λ n. n ≢ 0) _
          (nonzero (value_for_key_as_uint16 malloc calloc strtol fuel mem (bytes_of "ip_version")))
          _ (nonzero-Holds _ (uint16-Holds malloc calloc strtol fuel mem big small enough _))
          λ n _.
            if-Holds (λ n. (n ≡ 4) ⊎ (n ≡ 6)) (not (n == 4 || n == 6)) _ _ (λ _. tt)
              λ e. ground arith

    read_metadata-IsRead : Holds IsRead (read_metadata malloc calloc strtol fuel mem)
    unfolding read_metadata
    read_metadata-IsRead =
        >>=-Holds (λ n. n ≢ 0) IsRead
          (nonzero (value_for_key_as_uint32 malloc calloc strtol fuel mem (bytes_of "node_count")))
          _ (nonzero-Holds _ (uint32-Holds malloc calloc strtol fuel mem big small enough _))
          λ nodes p.
            >>=-Holds (λ n. (n ≡ 24) ⊎ (n ≡ 28) ⊎ (n ≡ 32)) IsRead
              (read_record_size malloc calloc strtol fuel mem) _ record_size-Holds
              λ size q.
                >>=-Holds (λ n. (n ≡ 4) ⊎ (n ≡ 6)) IsRead
                  (read_ip_version malloc calloc strtol fuel mem) _ ip_version-Holds
                  λ version r.
                    >>=-Holds Any IsRead
                      (value_for_key_as_string malloc calloc strtol fuel mem
                        (bytes_of "database_type"))
                      _ (string-Holds malloc calloc strtol fuel mem big small enough _)
                      λ kind _.
                        >>=-Holds Any IsRead
                          (populate_languages_metadata malloc calloc strtol fuel mem
                            (bytes_of "languages"))
                          _
                          (populate_languages-Holds malloc calloc strtol fuel mem big small enough
                            _)
                          λ names _.
                            >>=-Holds (λ n. n ≢ 0) IsRead
                              (nonzero (
                                value_for_key_as_uint16 malloc calloc strtol fuel mem
                                  (bytes_of "binary_format_major_version")))
                              _
                              (nonzero-Holds _
                                (uint16-Holds malloc calloc strtol fuel mem big small enough _))
                              λ major _.
                                >>=-Holds Any IsRead
                                  (value_for_key_as_uint16 malloc calloc strtol fuel mem
                                    (bytes_of "binary_format_minor_version"))
                                  _ (uint16-Holds malloc calloc strtol fuel mem big small enough _)
                                  λ minor _.
                                    >>=-Holds (λ n. n ≢ 0) IsRead
                                      (nonzero (
                                        value_for_key_as_uint64 malloc calloc strtol fuel mem
                                          (bytes_of "build_epoch")))
                                      _
                                      (nonzero-Holds _ (
                                        uint64-Holds malloc calloc strtol fuel mem big small enough
                                          _))
                                      λ epoch _.
                                        >>=-Holds Any IsRead
                                          (populate_description_metadata malloc calloc strtol fuel
                                            mem (bytes_of "description"))
                                          _
                                          (populate_description-Holds malloc calloc strtol fuel mem
                                            big small enough _)
                                          λ texts _. record { nodes = p; size = q; version = r }

  shorter : (content mem pre : List ℕ) → content ≡ pre ++ mem → length mem ≤ length content
  shorter content mem pre e =
      let l : length content ≡ length pre + length mem = ap length e ∙ length-append pre mem in
      omega arith

  -- `MMDB_open` of any file of less than 4 GB with a metadata section of 3 bytes or more, with fuel
  -- above the file's length: no read outside the file and no NULL pointer followed, and it ends in
  -- an error code or in a database that is well formed as lookups require, with the data section the
  -- rest of the file, or in one whose tree size has wrapped, its data section outside the file.
  pub open_database-IsLoaded :
      (content mem : List ℕ)
      → length content < 2 ^ 32
      → length content < fuel
      → find_metadata fuel content ≡ ok (some mem)
      → 3 ≤ length mem
      → Holds
          (λ (r : Mmdb × Metadata). IsLoaded content r.0)
          (open_database malloc calloc strtol fuel content)
  unfolding open_database
  open_database-IsLoaded content mem small enough is_mem big =
      let found : IsMetadata content (some mem) =
        subst (Holds (IsMetadata content)) is_mem (find_metadata-IsMetadata fuel content enough) in
      let short : length mem ≤ length content =
        shorter content mem (found.0.0 ++ marker) found.0.1 in
      rw (is_mem, Holds)
        (>>=-Holds IsRead (λ (r : Mmdb × Metadata). IsLoaded content r.0)
          (read_metadata malloc calloc strtol fuel mem) _
          (read_metadata-IsRead mem big (omega arith) (omega arith))
          λ md read.
            >>=-Holds (IsLoaded content) (λ (r : Mmdb × Metadata). IsLoaded content r.0)
              (place_sections content md) _ (place_sections-IsLoaded content md read small)
              λ m h. h)
