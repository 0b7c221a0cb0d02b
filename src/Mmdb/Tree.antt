-- ===== src/Mmdb/Tree.antt =====
-- The search tree: from the bits of an address to a record.
pub mod Safe
pub mod Bits
pub mod Prefix
pub mod Lookup
pub mod Node
use qladder.Prelude.{
  ℕ, zero, suc, ◌+◌, ◌-◌, ◌*◌, ◌%◌, ◌/◌, ◌^◌, ◌≤◌, ◌<◌, ◌≡◌, ◌⊎◌, inl, inr, refl, List, [], ◌∷◌,
  Bool, true, false, ◌&&◌, ◌||◌, not, bit_and, u16, u32, sub16, sub32, ltb, leb, ◌==◌,
  if◌then◌else◌, ◌<<<◌, ◌>>>◌, length,
}
use qladder.Mmdb.{Error, Outcome, ok, error, fault, spent, ◌>>=◌, at, bytes_at}
use qladder.Mmdb.Numbers.{get_uint32, get_uint24, get_left_28_bit_record, get_right_28_bit_record}

-- The fields of `MMDB_s` that a lookup reads. `data_section` is the pointer's distance from
-- `file_content`.
pub record Mmdb : Type 0 where
  pub file_content : List ℕ
  pub data_section : ℕ
  pub data_section_size : ℕ
  pub node_count : ℕ
  pub ip_version : ℕ
  pub full_record_byte_size : ℕ
  pub depth : ℕ
  pub start_node_value : ℕ
  pub start_netmask : ℕ

pub record LookupResult : Type 0 where
  pub found_entry : Bool
  pub offset : ℕ
  pub netmask : ℕ

pub data RecordType : Type 0 where
  search_node empty_record data_record invalid_record : RecordType

-- sa_family_t
pub data Family : Type 0 where
  af_inet af_inet6 : Family

-- MMDB_DATA_SECTION_SEPARATOR
abbrev pub separator : ℕ
separator = 16

unfoldable pub record_type : Mmdb → ℕ → RecordType
record_type m r =
    if r == 0
    then invalid_record
    else if ltb r m.node_count
    then search_node
    else if r == m.node_count
    then empty_record
    else if ltb (r - m.node_count) m.data_section_size
    then data_record
    else invalid_record

unfoldable pub data_section_offset_for_record : Mmdb → ℕ → ℕ
data_section_offset_for_record m r = sub32 (sub32 r m.node_count) separator

-- The result as it is after the call, beside the type.
unfoldable pub maybe_populate_result : Mmdb → ℕ → ℕ → LookupResult → RecordType × LookupResult
maybe_populate_result m r netmask result =
    let entry = data_section_offset_for_record m r in
    elim (record_type m r) [
      | search_node ↦ (search_node, result)
      | invalid_record ↦ (invalid_record, result)
      | empty_record ↦ (
        empty_record,
        record { found_entry = false; offset = entry; netmask = sub16 m.depth netmask },
      )
      | data_record ↦ (
        data_record,
        record { found_entry = true; offset = entry; netmask = sub16 m.depth netmask },
      )
    ]

-- `record_info.right_record_offset`; 0 is what `record_info_for_database` leaves for a size it
-- does not know.
unfoldable pub right_record_offset : Mmdb → ℕ
right_record_offset m =
    if m.full_record_byte_size == 6
    then 3
    else if m.full_record_byte_size == 7
    then 3
    else if m.full_record_byte_size == 8
    then 4
    else 0

-- The left or right record getter of `record_info_for_database`, called on a record at `p`.
unfoldable pub read_record : Mmdb → Bool → ℕ → Outcome ℕ
read_record m right p =
    if m.full_record_byte_size == 6
    then (do
      a ← at m.file_content p
      b ← at m.file_content (p + 1)
      c ← at m.file_content (p + 2)
      ok (get_uint24 a b c))
    else (do
      a ← at m.file_content p
      b ← at m.file_content (p + 1)
      c ← at m.file_content (p + 2)
      d ← at m.file_content (p + 3)
      ok (
          if m.full_record_byte_size == 7
          then (if right then get_right_28_bit_record a b c d else get_left_28_bit_record a b c d)
          else get_uint32 a b c d))

-- The bounds check on a node, and the chosen record of it.
unfoldable pub child : Mmdb → ℕ → Bool → Outcome ℕ
child m value right =
    let p = u32 (value * m.full_record_byte_size) in
    if ltb m.data_section (p + m.full_record_byte_size)
    then error Error.corrupt_search_tree
    else read_record m right (if right then p + right_record_offset m else p)

-- Bit `i` of the address, the most significant bit of the first byte being 0; `~i & 7` is `7 - i % 8`.
unfoldable pub address_bit : List ℕ → ℕ → Outcome Bool
address_bit address i = do b ← at address (i >>> 3); ok (not (bit_and b (2 ^ (7 - i % 8)) == 0))

-- The end of the loop's body: by the type of the record the lookup fails, ends or goes on with `rest`.
unfoldable pub after_child :
    Mmdb → ℕ → ℕ → LookupResult → Outcome LookupResult → Outcome LookupResult
after_child m current_bit value result rest =
    let (type, result') = maybe_populate_result m value current_bit result in
    elim type [
      | invalid_record ↦ error Error.corrupt_search_tree
      | search_node ↦ rest
      | empty_record ↦ ok result'
      | data_record ↦ ok result'
    ]

-- The loop of `find_address_in_search_tree` with `current_bit` one below its first argument.
unfoldable pub walk : Mmdb → List ℕ → ℕ → ℕ → LookupResult → Outcome LookupResult
walk m address zero value result = error Error.corrupt_search_tree
walk m address (suc current_bit) value result =
    address_bit address (m.depth - 1 - current_bit) >>= λ right. child m value right >>= λ value'.
    after_child m current_bit value' result (walk m address current_bit value' result)

-- The loop of `find_ipv4_start_node`, with `left` rounds to 96; gives the node value and the netmask.
pub ipv4_start_loop : Mmdb → ℕ → ℕ → Outcome (ℕ × ℕ)
ipv4_start_loop m zero value = ok (value, 96)
ipv4_start_loop m (suc left) value = child m value false >>= λ value'.
    elim (leb m.node_count value') [
      | true ↦ ok (value', 96 - suc left)
      | false ↦ ipv4_start_loop m left value'
    ]

pub find_ipv4_start_node : Mmdb → Outcome Mmdb
find_ipv4_start_node m =
    if not (m.start_node_value == 0)
    then ok m
    else (ipv4_start_loop m 96 0 >>= λ n.
        ok (record m { start_node_value = n.0; start_netmask = n.1 }))

-- A result beside the database that the lookup leaves.
abbrev pub with_db : Mmdb → Outcome LookupResult → Outcome (LookupResult × Mmdb)
with_db m found = found >>= λ r. ok (r, m)

-- The part of `find_address_in_search_tree` for an IPv4 address in an IPv6 database, once the start
-- node is known.
pub after_start : Mmdb → List ℕ → LookupResult → Outcome (LookupResult × Mmdb)
after_start m address result =
    let (type, result') = maybe_populate_result m m.start_node_value m.start_netmask result in
    elim type [
      | invalid_record ↦ error Error.corrupt_search_tree
      | search_node ↦
          with_db m (
            walk m address (suc (sub16 (sub16 m.depth 1) m.start_netmask)) m.start_node_value
              result)
      | empty_record ↦ ok (result', m)
      | data_record ↦ ok (result', m)
    ]

-- The database comes back too: the start node of the IPv4 addresses is kept in it.
unfoldable pub find_address_in_search_tree :
    Mmdb → List ℕ → Family → LookupResult → Outcome (LookupResult × Mmdb)
find_address_in_search_tree m address family result =
    let from_root = with_db m (walk m address (suc (sub16 m.depth 1)) 0 result) in
    if right_record_offset m == 0 then error Error.unknown_database_format else elim family [
      | af_inet ↦
          if m.ip_version == 6
          then (find_ipv4_start_node m >>= λ m'. after_start m' address result)
          else from_root
      | af_inet6 ↦ from_root
    ]

-- `MMDB_lookup_sockaddr`; `host` is the address of the socket address, 4 or 16 bytes.
pub lookup_sockaddr : Mmdb → Family → List ℕ → Outcome (LookupResult × Mmdb)
lookup_sockaddr m family host =
    let nothing : LookupResult = record { found_entry = false; offset = 0; netmask = 0 } in
    elim family [
      | af_inet6 ↦
          if m.ip_version == 4
          then error Error.ipv6_lookup_in_ipv4_database
          else find_address_in_search_tree m host af_inet6 nothing
      | af_inet ↦
          find_address_in_search_tree m
            (if m.ip_version == 4
              then host
              else 0 ∷ 0 ∷ 0 ∷ 0 ∷ 0 ∷ 0 ∷ 0 ∷ 0 ∷ 0 ∷ 0 ∷ 0 ∷ 0 ∷ host)
            af_inet nothing
    ]

-- What a record can be, to split on.
pub record_type-cases :
    (m : Mmdb) (r : ℕ)
    → (record_type m r ≡ search_node)
      ⊎ (record_type m r ≡ invalid_record)
      ⊎ ((record_type m r ≡ empty_record) ⊎ (record_type m r ≡ data_record))
record_type-cases m r =
    elim (record_type m r)
      as (λ t.
        (t ≡ search_node) ⊎ (t ≡ invalid_record) ⊎ ((t ≡ empty_record) ⊎ (t ≡ data_record))) [
          | search_node ↦ inl refl
          | invalid_record ↦ inr (inl refl)
          | empty_record ↦ inr (inr (inl refl))
          | data_record ↦ inr (inr (inr refl))
        ]
