-- ===== src/Tests/Mmdb.antt =====
-- A database with one node: the addresses from 128.0.0.0 on lead to the text "US", the others to
-- nothing.
use qladder.Prelude.{
  ◌<◌, ℕ, zero, suc, ◌≡◌, inl, refl, List, [], ◌∷◌, Bool, true, false, Option, none, arith,
}
use qladder.Mmdb.{ok, IsDefined, at}
use qladder.Mmdb.Tree.{
  Mmdb, LookupResult, af_inet, find_address_in_search_tree, right_record_offset, walk, address_bit,
  child, read_record, after_child, maybe_populate_result, record_type,
  data_section_offset_for_record,
}
use qladder.Mmdb.Numbers.{get_uint24}
use qladder.Mmdb.Tree.Node.{SearchNode, HasRecords, read_node, search_node_of, read_node-child}
use qladder.Mmdb.Tree.Safe.{IsOpen}
use qladder.Mmdb.Tree.Bits.{digit, Agree}
use qladder.Mmdb.Tree.Lookup.{find_address-IsDefined, find_address-Agree}
use qladder.Mmdb.Decode.{EntryData, no_entry, decode_one}
use qladder.Mmdb.Decode.Bounds.{Advances, decode_one-Advances}
use qladder.Mmdb.Skip.{aget_value}
use qladder.Mmdb.Skip.Ends.{aget_value-IsDefined}

-- "US", then a map with the one pair "a": "b".
abbrev section : List ℕ
section = 0x42 ∷ 85 ∷ 83 ∷ 0xe1 ∷ 0x41 ∷ 97 ∷ 0x41 ∷ 98 ∷ []

abbrev db : Mmdb
db = record {
  file_content =
      0 ∷ 0 ∷ 1 ∷ 0 ∷ 0 ∷ 17 ∷ 0 ∷ 0 ∷ 0 ∷ 0 ∷ 0 ∷ 0 ∷ 0 ∷ 0 ∷ 0 ∷ 0 ∷ 0 ∷ 0 ∷ 0 ∷ 0 ∷ 0 ∷ 0
      ∷ section;
  data_section = 22;
  data_section_size = 24;
  node_count = 1;
  ip_version = 4;
  full_record_byte_size = 6;
  depth = 32;
  start_node_value = 0;
  start_netmask = 0;
}

abbrev nothing : LookupResult
nothing = record { found_entry = false; offset = 0; netmask = 0 }

abbrev hit : LookupResult
hit = record { found_entry = true; offset = 0; netmask = 1 }

db-IsOpen : IsOpen db
db-IsOpen = record { size = inl refl; mapped = omega arith; bits = refl; start = omega arith }

db6-IsOpen : IsOpen (record db { ip_version = 6; depth = 128 })
db6-IsOpen = record { size = inl refl; mapped = omega arith; bits = refl; start = omega arith }

found : find_address_in_search_tree db (128 ∷ 0 ∷ 0 ∷ 0 ∷ []) af_inet nothing ≡ ok (hit, db)
unfolding find_address_in_search_tree right_record_offset walk address_bit child read_record
    get_uint24 after_child maybe_populate_result record_type data_section_offset_for_record at
found = refl

agree : Agree 1 (128 ∷ 0 ∷ 0 ∷ 0 ∷ []) (200 ∷ 1 ∷ 2 ∷ 3 ∷ [])
agree = (refl, first)
  where
    first : (i : ℕ) → i < 1 → digit (128 ∷ 0 ∷ 0 ∷ 0 ∷ []) i ≡ digit (200 ∷ 1 ∷ 2 ∷ 3 ∷ []) i
    first zero h = refl
    first (suc i) h = absurd (omega arith)

find_address-IsDefined_example :
    IsDefined (find_address_in_search_tree db (128 ∷ 0 ∷ 0 ∷ 0 ∷ []) af_inet nothing)
find_address-IsDefined_example =
    find_address-IsDefined db db-IsOpen (128 ∷ 0 ∷ 0 ∷ 0 ∷ []) nothing af_inet (omega arith)

find_address-Agree_example :
    find_address_in_search_tree db (200 ∷ 1 ∷ 2 ∷ 3 ∷ []) af_inet nothing ≡ ok (hit, db)
find_address-Agree_example =
    find_address-Agree db db-IsOpen (128 ∷ 0 ∷ 0 ∷ 0 ∷ []) nothing (200 ∷ 1 ∷ 2 ∷ 3 ∷ []) af_inet
      hit db found agree

decode_one-Advances_example : Advances 1 8 (decode_one section 0 no_entry)
decode_one-Advances_example = decode_one-Advances section (omega arith) (omega arith) 0 no_entry

abbrev map_entry : EntryData
map_entry = record no_entry {
  has_data = true;
  offset = 3;
  offset_to_next = 4;
  data_size = 1;
  ty = 7;
}

-- Reads no number.
abbrev no_number : List ℕ → Option (ℕ × Bool)
no_number text = none

aget_value-IsDefined_example : IsDefined (aget_value section no_number 9 3 ((97 ∷ []) ∷ []))
aget_value-IsDefined_example =
    aget_value-IsDefined section (omega arith) (omega arith) no_number 9 3 ((97 ∷ []) ∷ [])
      (omega arith)

read_node-child_example : (n : SearchNode) × HasRecords db 0 n
read_node-child_example = read_node-child db 0 db-IsOpen (omega arith) (omega arith) (omega arith)

-- The tree has one node, and a node 1 is read all the same, out of the bytes that follow.
read_node_past : read_node db 1 ≡ ok (search_node_of db 0 0)
unfolding read_node right_record_offset read_record get_uint24 at
read_node_past = refl
