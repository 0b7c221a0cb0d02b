-- ===== src/Mmdb/Skip.antt =====
-- `skip_map_or_array` and the lookups of a path in the decoded data. The C code keeps one entry and
-- overwrites it; here each call returns the entry as it stands afterwards.
pub mod Ends
pub mod Located
use qladder.Prelude.{
  ℕ, zero, suc, ◌+◌, ◌-◌, List, [], ◌∷◌, Option, some, none, Bool, true, false, ◌&&◌, ◌||◌, not,
  ltb, leb, ◌==◌, if◌then◌else◌, length, u32, ◌≡◌, refl, arith,
}
use qladder.Mmdb.{Error, Outcome, ok, error, fault, spent, ◌>>=◌}
use qladder.Mmdb.Decode.{EntryData, no_entry, Payload, utf8_string, decode_one, decode_one_follow}

-- `key.data_size == path_elem_len && !memcmp(…)`: for a text of `data_size` bytes, equal bytes.
unfoldable pub same_bytes : List ℕ → List ℕ → Bool
same_bytes [] [] = true
same_bytes [] (y ∷ ys) = false
same_bytes (x ∷ xs) [] = false
same_bytes (x ∷ xs) (y ∷ ys) = x == y && same_bytes xs ys

pub same_bytes-eq : (xs ys : List ℕ) → same_bytes xs ys ≡ true → xs ≡ ys
unfolding same_bytes
same_bytes-eq [] [] h = refl
same_bytes-eq [] (y ∷ ys) h = absurd (ground arith)
same_bytes-eq (x ∷ xs) [] h = absurd (ground arith)
same_bytes-eq (x ∷ xs) (y ∷ ys) h =
    let e : x ≡ y = ground arith in let r : xs ≡ ys = same_bytes-eq xs ys (ground arith) in cc

-- The bytes behind `utf8_string` of the union.
abbrev pub text_of : Payload → List ℕ
text_of (utf8_string s) = s
text_of other = []

module _ (mem : List ℕ) where
  -- The `while (size-- > 0)` of a map (`keyed`) or an array with `size` entries to go. The call for
  -- the entry's own parts is the same loop, so one amount of fuel bounds rounds and depth.
  pub skip_loop : ℕ → Bool → ℕ → EntryData → Outcome EntryData
  skip_loop zero keyed size e = spent
  skip_loop (suc fuel) keyed zero e = ok e
  skip_loop (suc fuel) keyed (suc size) e =
      (if keyed then decode_one mem e.offset_to_next e else ok e) >>= λ k.
      decode_one mem k.offset_to_next k >>= λ v.
      (elim (v.ty == 7) [
        | true ↦ skip_loop fuel true v.data_size v
        | false ↦ elim (v.ty == 11) [ true ↦ skip_loop fuel false v.data_size v | false ↦ ok v ]
      ])
      >>= λ w. skip_loop fuel keyed size w

  pub skip_map_or_array : ℕ → EntryData → Outcome EntryData
  skip_map_or_array fuel e =
      if e.ty == 7
      then skip_loop fuel true e.data_size e
      else if e.ty == 11
      then skip_loop fuel false e.data_size e
      else ok e

  -- The loop of `lookup_path_in_map` with `size` keys to go.
  pub lookup_map_loop : ℕ → List ℕ → ℕ → ℕ → Outcome EntryData
  lookup_map_loop fuel path_elem zero offset = error Error.lookup_path_does_not_match_data
  lookup_map_loop fuel path_elem (suc size) offset =
      decode_one_follow mem offset no_entry >>= λ key. elim (key.ty == 2) [
        | false ↦ error Error.invalid_data
        | true ↦ elim (same_bytes path_elem (text_of key.payload)) [
          | true ↦ decode_one_follow mem key.offset_to_next no_entry
          | false ↦ decode_one mem key.offset_to_next no_entry >>= λ v.
              skip_map_or_array fuel v >>= λ w. lookup_map_loop fuel path_elem size w.offset_to_next
        ]
      ]

  pub lookup_path_in_map : ℕ → List ℕ → EntryData → Outcome EntryData
  lookup_path_in_map fuel path_elem e = lookup_map_loop fuel path_elem e.data_size e.offset_to_next

  -- The loop of `lookup_path_in_array` over the elements before the one asked for; its counter, an `int`,
  -- does not overflow here.
  pub lookup_array_loop : ℕ → ℕ → EntryData → Outcome EntryData
  lookup_array_loop fuel zero e = ok e
  lookup_array_loop fuel (suc left) e = decode_one mem e.offset_to_next e >>= λ v.
      skip_map_or_array fuel v >>= λ w. lookup_array_loop fuel left w

  -- `strtol` is the C library's: `none` for a negative number or one out of range, else the number
  -- and whether the whole text was read.
  module _ (strtol : List ℕ → Option (ℕ × Bool)) where
    pub lookup_path_in_array : ℕ → List ℕ → EntryData → Outcome EntryData
    lookup_path_in_array fuel path_elem e = elim (strtol path_elem) [
      | none ↦ error Error.invalid_lookup_path
      | some (array_index, all_read) ↦
          if not all_read || leb e.data_size (u32 array_index)
          then error Error.lookup_path_does_not_match_data
          else (lookup_array_loop fuel array_index e >>= λ w.
              decode_one_follow mem w.offset_to_next no_entry)
    ]

    -- The loop of `MMDB_aget_value` over the path.
    pub follow_path : ℕ → List (List ℕ) → EntryData → Outcome EntryData
    follow_path fuel [] e = ok e
    follow_path fuel (path_elem ∷ path) e =
        (if e.ty == 11
          then lookup_path_in_array fuel path_elem e
          else if e.ty == 7
          then lookup_path_in_map fuel path_elem e
          else error Error.lookup_path_does_not_match_data)
        >>= λ e'. follow_path fuel path e'

    unfoldable pub aget_value : ℕ → ℕ → List (List ℕ) → Outcome EntryData
    aget_value fuel offset path = decode_one_follow mem offset no_entry >>= λ e.
        if e.has_data then follow_path fuel path e else error Error.invalid_lookup_path
