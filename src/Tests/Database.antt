-- ===== src/Tests/Database.antt =====
-- A whole file: a tree with one node, the text "US", and the metadata.
use qladder.Prelude.{
  ℕ, ◌+◌, ◌<◌, ◌≡◌, refl, List, [], ◌∷◌, ◌++◌, Bool, true, Option, none, some, length, bytes_of,
  arith,
}
use qladder.Mmdb.{ok, fault, at, Holds}
use qladder.Mmdb.Tree.{Mmdb}
use qladder.Mmdb.EntryList.{get_entry_data_list}
use qladder.Mmdb.EntryList.Complete.{IsComplete, get_entry_data_list-IsComplete}
use qladder.Mmdb.Metadata.{
  Metadata, marker, find_metadata, find_loop, search_area, memmem, memmem_loop, nonzero,
  value_for_key_as_uint32, value_for_key,
}
use qladder.Mmdb.Metadata.Find.{IsMetadata, find_metadata-IsMetadata}
use qladder.Mmdb.Skip.{same_bytes, aget_value}
use qladder.Mmdb.Decode.{decode_one, decode_one_follow}
use qladder.Mmdb.Open.{read_metadata, place_sections, open_database}
use qladder.Mmdb.Open.Sound.{IsLoaded, place_sections_wraps, open_database-IsLoaded}

abbrev text : List ℕ → List ℕ
text s = (0x40 + length s) ∷ s

abbrev tree_and_data : List ℕ
tree_and_data =
    0
    ∷ 0
    ∷ 1
    ∷ 0
    ∷ 0
    ∷ 17
    ∷ 0
    ∷ 0
    ∷ 0
    ∷ 0
    ∷ 0
    ∷ 0
    ∷ 0
    ∷ 0
    ∷ 0
    ∷ 0
    ∷ 0
    ∷ 0
    ∷ 0
    ∷ 0
    ∷ 0
    ∷ 0
    ∷ text (bytes_of "US")

abbrev languages : List ℕ
languages = 0x01 ∷ 0x04 ∷ text (bytes_of "en")

abbrev metadata : List ℕ
metadata =
    0xe9 ∷ (text (bytes_of "node_count") ++ (0xc1 ∷ 1 ∷ []))
    ++ (text (bytes_of "record_size") ++ (0xa1 ∷ 24 ∷ []))
    ++ (text (bytes_of "ip_version") ++ (0xa1 ∷ 4 ∷ []))
    ++ (text (bytes_of "database_type") ++ text (bytes_of "T"))
    ++ (text (bytes_of "languages") ++ languages)
    ++ (text (bytes_of "binary_format_major_version") ++ (0xa1 ∷ 2 ∷ []))
    ++ (text (bytes_of "binary_format_minor_version") ++ (0xa0 ∷ []))
    ++ (text (bytes_of "build_epoch") ++ (0x01 ∷ 0x02 ∷ 1 ∷ []))
    ++ (text (bytes_of "description") ++ (0xe1 ∷ text (bytes_of "en") ++ text (bytes_of "T")))

abbrev file : List ℕ
file = tree_and_data ++ marker ++ metadata

abbrev always : ℕ → Bool
always n = true

abbrev no_number : List ℕ → Option (ℕ × Bool)
no_number s = none

metadata_found : find_metadata 400 file ≡ ok (some metadata)
unfolding find_metadata find_loop search_area memmem memmem_loop same_bytes
metadata_found = refl

abbrev read_from_file : Metadata
read_from_file = record {
  node_count = 1;
  record_size = 24;
  ip_version = 4;
  database_type = bytes_of "T";
  languages = bytes_of "en" ∷ [];
  binary_format_major_version = 2;
  binary_format_minor_version = 0;
  build_epoch = 1;
  description = (bytes_of "en", bytes_of "T") ∷ [];
}

find_metadata-IsMetadata_example : Holds (IsMetadata file) (find_metadata 400 file)
find_metadata-IsMetadata_example = find_metadata-IsMetadata 400 file (omega arith)

open_database-IsLoaded_example :
    Holds
      (λ (r : Mmdb × Metadata). IsLoaded file r.0)
      (open_database always always no_number 400 file)
open_database-IsLoaded_example =
    open_database-IsLoaded always always no_number 400 file metadata (omega arith) (omega arith)
      metadata_found (omega arith)

place_sections_wraps_example :
    (m : Mmdb) × (place_sections file (record read_from_file { node_count = 715827882 }) ≡ ok m)
    × (length file < m.data_section)
place_sections_wraps_example =
    place_sections_wraps file (record read_from_file { node_count = 715827882 }) refl refl refl
      (omega arith) (omega arith)

get_entry_data_list-IsComplete_example : Holds IsComplete (get_entry_data_list always languages 0)
get_entry_data_list-IsComplete_example =
    get_entry_data_list-IsComplete languages (omega arith) (omega arith) always 0

-- A file that ends with the marker: the empty metadata section is read behind its end.
ends_at_marker : open_database always always no_number 400 marker ≡ fault
unfolding open_database find_metadata find_loop search_area memmem memmem_loop same_bytes
    read_metadata nonzero value_for_key_as_uint32 value_for_key aget_value decode_one_follow
    decode_one at
ends_at_marker = refl
