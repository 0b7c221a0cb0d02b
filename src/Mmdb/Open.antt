-- ===== src/Mmdb/Open.antt =====
-- `read_metadata` and `MMDB_open`. Mapping the file and the copy of its name are the system's; `content`
-- is the mapped file.

pub mod Sound
use qladder.Prelude.{
  ℕ, ◌+◌, ◌*◌, ◌/◌, List, Option, none, some, Bool, true, false, ◌&&◌, ◌||◌, not, ltb, ◌==◌,
  if◌then◌else◌, u32, sub32, length, bytes_of,
}
use qladder.Mmdb.{Error, Outcome, ok, error, ◌>>=◌}
use qladder.Mmdb.Tree.{Mmdb, separator}
use qladder.Mmdb.Metadata.{
  Metadata, find_metadata, value_for_key_as_uint16, value_for_key_as_uint32,
  value_for_key_as_uint64, value_for_key_as_string, populate_languages_metadata,
  populate_description_metadata, nonzero,
}

-- What `MMDB_open` makes of the metadata: the sections, and the fields that a lookup reads.
pub place_sections : List ℕ → Metadata → Outcome Mmdb
place_sections content md =
    let file_size = length content in
    let full_size = md.record_size * 2 / 8 in
    let search_tree_size = u32 (md.node_count * full_size) in
    let data_size = sub32 (sub32 (u32 file_size) search_tree_size) separator in
    if not (md.binary_format_major_version == 2)
    then error Error.unknown_database_format
    else if ltb (u32 file_size) (u32 (search_tree_size + separator))
    then error Error.invalid_metadata
    else if ltb data_size 3
    then error Error.invalid_data
    else ok (record {
      file_content = content;
      data_section = search_tree_size + separator;
      data_section_size = data_size;
      node_count = md.node_count;
      ip_version = md.ip_version;
      full_record_byte_size = full_size;
      depth = if md.ip_version == 4 then 32 else 128;
      start_node_value = 0;
      start_netmask = 0;
    })

module _ (malloc calloc : ℕ → Bool) (strtol : List ℕ → Option (ℕ × Bool)) (fuel : ℕ) where
  pub read_record_size : List ℕ → Outcome ℕ
  read_record_size mem =
      nonzero (value_for_key_as_uint16 malloc calloc strtol fuel mem (bytes_of "record_size"))
      >>= λ n.
          if not (n == 24) && not (n == 28) && not (n == 32)
          then error Error.unknown_database_format
          else ok n

  pub read_ip_version : List ℕ → Outcome ℕ
  read_ip_version mem =
      nonzero (value_for_key_as_uint16 malloc calloc strtol fuel mem (bytes_of "ip_version"))
      >>= λ n. if not (n == 4 || n == 6) then error Error.invalid_metadata else ok n

  unfoldable pub read_metadata : List ℕ → Outcome Metadata
  read_metadata mem =
      nonzero (value_for_key_as_uint32 malloc calloc strtol fuel mem (bytes_of "node_count"))
      >>= λ nodes. read_record_size mem >>= λ size. read_ip_version mem >>= λ version.
          value_for_key_as_string malloc calloc strtol fuel mem (bytes_of "database_type")
          >>= λ kind.
              populate_languages_metadata malloc calloc strtol fuel mem (bytes_of "languages")
              >>= λ names.
                  nonzero (
                    value_for_key_as_uint16 malloc calloc strtol fuel mem
                      (bytes_of "binary_format_major_version"))
                  >>= λ major.
                      value_for_key_as_uint16 malloc calloc strtol fuel mem
                        (bytes_of "binary_format_minor_version")
                      >>= λ minor.
                          nonzero (
                            value_for_key_as_uint64 malloc calloc strtol fuel mem
                              (bytes_of "build_epoch"))
                          >>= λ epoch.
                              populate_description_metadata malloc calloc strtol fuel mem
                                (bytes_of "description")
                              >>= λ texts. ok (record {
                                node_count = nodes;
                                record_size = size;
                                ip_version = version;
                                database_type = kind;
                                languages = names;
                                binary_format_major_version = major;
                                binary_format_minor_version = minor;
                                build_epoch = epoch;
                                description = texts;
                              })

  unfoldable pub open_database : List ℕ → Outcome (Mmdb × Metadata)
  open_database content = find_metadata fuel content >>= λ found. elim found [
    | none ↦ error Error.invalid_metadata
    | some mem ↦ read_metadata mem >>= λ md. place_sections content md >>= λ m. ok (m, md)
  ]
