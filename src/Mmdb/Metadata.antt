-- ===== src/Mmdb/Metadata.antt =====
-- The metadata of a database: `find_metadata`, the `value_for_key` functions and `read_metadata`.
pub mod Find
pub mod Read
use qladder.Prelude.{
  ℕ, zero, suc, ◌+◌, ◌-◌, ◌*◌, ◌/◌, List, [], ◌∷◌, Option, none, some, Bool, true, false, ◌&&◌,
  ◌||◌, not, ltb, ◌==◌, if◌then◌else◌, length, take, drop, get_or,
}
use qladder.Mmdb.{Error, Outcome, ok, error, fault, spent, ◌>>=◌}
use qladder.Mmdb.Decode.{EntryData, Payload, uint16, uint32, uint64}
use qladder.Mmdb.Skip.{same_bytes, text_of, aget_value}
use qladder.Mmdb.EntryList.{Nodes, get_entry_data_list}

-- METADATA_MARKER, "\xab\xcd\xefMaxMind.com"
abbrev pub marker : List ℕ
marker = 0xab ∷ 0xcd ∷ 0xef ∷ 77 ∷ 97 ∷ 120 ∷ 77 ∷ 105 ∷ 110 ∷ 100 ∷ 46 ∷ 99 ∷ 111 ∷ 109 ∷ []

-- METADATA_BLOCK_MAX_SIZE
abbrev pub block_max_size : ℕ
block_max_size = 131072

-- The loop of `mmdb_memmem`, and its call of `memchr` for one byte: what stands from the first
-- occurrence of `s` on.
unfoldable pub memmem_loop : List ℕ → List ℕ → Option (List ℕ)
memmem_loop s [] = none
memmem_loop s (x ∷ l) =
    if ltb (length (x ∷ l)) (length s)
    then none
    else if x == get_or s 0 0 && same_bytes (take (length s) (x ∷ l)) s
    then some (x ∷ l)
    else memmem_loop s l

unfoldable pub memmem : List ℕ → List ℕ → Option (List ℕ)
memmem l s =
    if length l == 0 || length s == 0
    then none
    else if ltb (length l) (length s)
    then none
    else memmem_loop s l

-- The `do … while` of `find_metadata`: the search area when no marker is left in it.
unfoldable pub find_loop : ℕ → List ℕ → Outcome (List ℕ)
find_loop zero area = spent
find_loop (suc fuel) area = elim (memmem area marker) [
  | none ↦ ok area
  | some tmp ↦ find_loop fuel (drop (length marker) tmp)
]

-- The part of the file that is searched.
unfoldable pub search_area : List ℕ → List ℕ
search_area content =
    if ltb block_max_size (length content)
    then drop (length content - block_max_size) content
    else content

-- The bytes behind the last marker; `none` for NULL.
unfoldable pub find_metadata : ℕ → List ℕ → Outcome (Option (List ℕ))
find_metadata fuel content = find_loop fuel (search_area content) >>= λ found.
    ok (if length found == length (search_area content) then none else some found)

pub record Metadata : Type 0 where
  pub node_count : ℕ
  pub record_size : ℕ
  pub ip_version : ℕ
  pub database_type : List ℕ
  pub languages : List (List ℕ)
  pub binary_format_major_version : ℕ
  pub binary_format_minor_version : ℕ
  pub build_epoch : ℕ
  pub description : List (List ℕ × List ℕ)

-- The number in the union.
abbrev pub uint_of : Payload → ℕ
uint_of (uint16 n) = n
uint_of (uint32 n) = n
uint_of (uint64 n) = n
uint_of other = 0

-- `mmdb_strnlen` and the copy: the bytes before the first that is 0.
pub before_nul : List ℕ → List ℕ
before_nul [] = []
before_nul (b ∷ r) = if b == 0 then [] else b ∷ before_nul r

-- Following `member->next`; a NULL pointer is read in the next line of the code.
pub next_node : List EntryData → Outcome Nodes
next_node [] = fault
next_node (m ∷ r) = ok (m, r)

-- A number that must not be 0.
unfoldable pub nonzero : Outcome ℕ → Outcome ℕ
nonzero value = value >>= λ n. if n == 0 then error Error.invalid_metadata else ok n

-- `malloc` says whether there is memory for a number of bytes, `calloc` for a list's node.
module _ (malloc calloc : ℕ → Bool) (strtol : List ℕ → Option (ℕ × Bool)) where
  pub strndup : List ℕ → Outcome (List ℕ)
  strndup text =
      if malloc (length (before_nul text) + 1)
      then ok (before_nul text)
      else error Error.out_of_memory

  -- The text of an entry that must be one.
  pub text_entry : EntryData → Outcome (List ℕ)
  text_entry e = if e.ty == 2 then strndup (text_of e.payload) else error Error.invalid_metadata

  -- The loop of `populate_languages_metadata`.
  pub languages_loop : ℕ → List EntryData → Outcome (List (List ℕ))
  languages_loop zero l = ok []
  languages_loop (suc left) l = next_node l >>= λ n.
      text_entry n.0 >>= λ name. languages_loop left n.1 >>= λ names. ok (name ∷ names)

  -- The loop of `populate_description_metadata`.
  pub description_loop : ℕ → List EntryData → Outcome (List (List ℕ × List ℕ))
  description_loop zero l = ok []
  description_loop (suc left) l =
      (if malloc 16 then next_node l else error Error.out_of_memory) >>= λ n.
      text_entry n.0 >>= λ language. next_node n.1 >>= λ k. text_entry k.0 >>= λ description.
      description_loop left k.1 >>= λ rest. ok ((language, description) ∷ rest)

  -- `mem` is the metadata section, which `make_fake_metadata_db` makes a data section.
  module _ (fuel : ℕ) (mem : List ℕ) where
    unfoldable pub value_for_key : List ℕ → Outcome EntryData
    value_for_key key = aget_value mem strtol fuel 0 (key ∷ [])

    pub value_for_key_as_uint16 : List ℕ → Outcome ℕ
    value_for_key_as_uint16 key = value_for_key key >>= λ e.
        if e.ty == 5 then ok (uint_of e.payload) else error Error.invalid_metadata

    unfoldable pub value_for_key_as_uint32 : List ℕ → Outcome ℕ
    value_for_key_as_uint32 key = value_for_key key >>= λ e.
        if e.ty == 6 then ok (uint_of e.payload) else error Error.invalid_metadata

    pub value_for_key_as_uint64 : List ℕ → Outcome ℕ
    value_for_key_as_uint64 key = value_for_key key >>= λ e.
        if e.ty == 9 then ok (uint_of e.payload) else error Error.invalid_metadata

    pub value_for_key_as_string : List ℕ → Outcome (List ℕ)
    value_for_key_as_string key = value_for_key key >>= text_entry

    pub populate_languages_metadata : List ℕ → Outcome (List (List ℕ))
    populate_languages_metadata key = value_for_key key >>= λ e.
        if e.ty == 11
        then (get_entry_data_list calloc mem e.offset >>= λ l.
            if malloc (l.0.data_size * 8)
            then languages_loop l.0.data_size l.1
            else error Error.out_of_memory)
        else error Error.invalid_metadata

    pub populate_description_metadata : List ℕ → Outcome (List (List ℕ × List ℕ))
    populate_description_metadata key = value_for_key key >>= λ e.
        if e.ty == 7
        then (get_entry_data_list calloc mem e.offset >>= λ l.
            if l.0.data_size == 0
            then ok []
            else if malloc (l.0.data_size * 8)
            then description_loop l.0.data_size l.1
            else error Error.out_of_memory)
        else error Error.invalid_metadata
