-- ===== src/Mmdb/Decode.antt =====
-- `decode_one` and `decode_one_follow`: one value of the data section.
pub mod Bounds
pub mod Located
use qladder.Prelude.{
  ℕ, zero, suc, ◌+◌, ◌-◌, ◌*◌, ◌/◌, ◌%◌, ◌^◌, List, [], ◌∷◌, ◌++◌, Bool, true, false, ◌&&◌, ◌||◌,
  not, bit_and, u16, u32, sub32, ltb, leb, ◌==◌, if◌then◌else◌, ◌<<<◌, ◌>>>◌, length, replicate,
}
use qladder.Mmdb.{Error, Outcome, ok, error, fault, spent, ◌>>=◌, at, bytes_at}
use qladder.Mmdb.Numbers.{get_uint32, get_uint24, get_uint16, get_uint_x}

-- The union of `MMDB_entry_data_s`. A float or double is kept as its bytes, most significant first;
-- a text or byte string as the bytes that the pointer leads to.
pub data Payload : Type 0 where
  unset : Payload
  pointer uint16 uint32 int32 uint64 : ℕ → Payload
  boolean : Bool → Payload
  uint128 utf8_string bytes float_value double_value : List ℕ → Payload

-- The member `pointer` of the union.
abbrev pub pointer_of : Payload → ℕ
pointer_of (pointer p) = p
pointer_of other = 0

pub record EntryData : Type 0 where
  pub has_data : Bool
  pub payload : Payload
  pub offset : ℕ
  pub offset_to_next : ℕ
  pub data_size : ℕ
  pub ty : ℕ

-- `memset(entry_data, 0, …)`, and what a local variable is taken to hold at first.
abbrev pub no_entry : EntryData
no_entry = record {
  has_data = false;
  payload = unset;
  offset = 0;
  offset_to_next = 0;
  data_size = 0;
  ty = 0;
}

pub get_ext_type : ℕ → ℕ
get_ext_type raw_ext_type = 7 + raw_ext_type

-- `get_ptr_from`; the number of bytes is `ptr_size`.
pub get_ptr_from : ℕ → List ℕ → ℕ
get_ptr_from ctrl [] = 0
get_ptr_from ctrl (a ∷ []) = u32 (bit_and ctrl 7 <<< 8 + a)
get_ptr_from ctrl (a ∷ b ∷ []) = u32 (2048 + bit_and ctrl 7 <<< 16 + a <<< 8 + b)
get_ptr_from ctrl (a ∷ b ∷ c ∷ []) = u32 (2048 + 524288 + bit_and ctrl 7 <<< 24 + get_uint24 a b c)
get_ptr_from ctrl (a ∷ b ∷ c ∷ d ∷ r) = get_uint32 a b c d

-- The rest of the function reads `mem`, the data section; its length is `data_section_size`.
module _ (mem : List ℕ) where
  -- The type, and the offset behind it.
  pub decode_type : ℕ → ℕ → Outcome (ℕ × ℕ)
  decode_type ctrl offset =
      if bit_and (ctrl >>> 5) 7 == 0
      then (if ltb (sub32 (length mem) 1) offset
          then error Error.invalid_data
          else (at mem offset >>= λ b. ok (get_ext_type b, u32 (offset + 1))))
      else ok (bit_and (ctrl >>> 5) 7, offset)

  pub decode_pointer : ℕ → ℕ → EntryData → Outcome EntryData
  decode_pointer ctrl offset e =
      let psize = bit_and (ctrl >>> 3) 3 + 1 in
      if ltb (sub32 (length mem) psize) offset || ltb (length mem) psize
      then error Error.invalid_data
      else (bytes_at mem offset psize >>= λ b. ok (record e {
        payload = pointer (get_ptr_from ctrl b);
        data_size = psize;
        offset_to_next = u32 (offset + psize);
      }))

  -- The `switch` on the size in the control byte: the size, and the offset behind it.
  pub decode_size : ℕ → ℕ → Outcome (ℕ × ℕ)
  decode_size ctrl offset =
      let size = bit_and ctrl 31 in
      if size == 29
      then (if ltb (sub32 (length mem) 1) offset
          then error Error.invalid_data
          else (at mem offset >>= λ b. ok (29 + b, u32 (offset + 1))))
      else if size == 30
      then (if ltb (sub32 (length mem) 2) offset
          then error Error.invalid_data
          else (at mem offset >>= λ a.
              at mem (offset + 1) >>= λ b. ok (285 + get_uint16 a b, u32 (offset + 2))))
      else if size == 31
      then (if ltb (sub32 (length mem) 3) offset
          then error Error.invalid_data
          else (at mem offset >>= λ a. at mem (offset + 1) >>= λ b.
              at mem (offset + 2) >>= λ c. ok (65821 + get_uint24 a b c, u32 (offset + 3))))
      else ok (size, offset)

  -- The ladder of types behind the last bounds check, on the `size` bytes that it covers.
  pub decode_payload : ℕ → ℕ → List ℕ → EntryData → Outcome EntryData
  decode_payload ty size b e =
      if ty == 5
      then (if ltb 2 size
          then error Error.invalid_data
          else ok (record e { payload = uint16 (u16 (get_uint_x b)) }))
      else if ty == 6
      then (if ltb 4 size
          then error Error.invalid_data
          else ok (record e { payload = uint32 (u32 (get_uint_x b)) }))
      else if ty == 8
      then (if ltb 4 size
          then error Error.invalid_data
          else ok (record e { payload = int32 (u32 (get_uint_x b)) }))
      else if ty == 9
      then (if ltb 8 size
          then error Error.invalid_data
          else ok (record e { payload = uint64 (get_uint_x b) }))
      else if ty == 10
      then (if ltb 16 size
          then error Error.invalid_data
          else ok (record e { payload = uint128 (replicate (16 - size) 0 ++ b) }))
      else if ty == 15
      then (if size == 4
          then ok (record e { payload = float_value b })
          else error Error.invalid_data)
      else if ty == 3
      then (if size == 8
          then ok (record e { payload = double_value b })
          else error Error.invalid_data)
      else if ty == 2
      then ok (record e { payload = utf8_string b; data_size = size })
      else if ty == 4
      then ok (record e { payload = bytes b; data_size = size })
      else ok e

  -- From the size on: maps, arrays and Booleans end at once, all else has `size` bytes.
  pub decode_value : ℕ → ℕ → ℕ → EntryData → Outcome EntryData
  decode_value ty size offset e =
      if ty == 7 || ty == 11
      then ok (record e { data_size = size; offset_to_next = offset })
      else if ty == 14
      then ok
          (record e { payload = boolean (not (size == 0)); data_size = 0; offset_to_next = offset })
      else if ltb (sub32 (length mem) size) offset || ltb (length mem) size
      then error Error.invalid_data
      else (bytes_at mem offset size >>= λ b. decode_payload ty size b e >>= λ e'.
          ok (record e' { offset_to_next = u32 (offset + size) }))

  unfoldable pub decode_one : ℕ → EntryData → Outcome EntryData
  decode_one offset e =
      if ltb (sub32 (length mem) 1) offset
      then error Error.invalid_data
      else (at mem offset >>= λ ctrl. decode_type ctrl (u32 (offset + 1)) >>= λ t.
          let e' = record e { offset = offset; has_data = true; ty = t.0 } in
          if t.0 == 1
          then decode_pointer ctrl t.1 e'
          else (decode_size ctrl t.1 >>= λ s. decode_value t.0 s.0 s.1 e'))

  unfoldable pub decode_one_follow : ℕ → EntryData → Outcome EntryData
  decode_one_follow offset e = decode_one offset e >>= λ e1.
      if e1.ty == 1
      then (decode_one (pointer_of e1.payload) e1 >>= λ e2.
          if e2.ty == 1
          then error Error.invalid_data
          else ok (
              if e2.ty == 7 || e2.ty == 11
              then e2
              else record e2 { offset_to_next = e1.offset_to_next }))
      else ok e1
