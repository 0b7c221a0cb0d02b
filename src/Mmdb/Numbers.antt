-- ===== src/Mmdb/Numbers.antt =====
-- `get_uint16` to `get_uint32`, `get_uintX` and the 28-bit records, on bytes already read.
use qladder.Prelude.{ℕ, ◌+◌, ◌*◌, ◌%◌, ◌^◌, List, [], ◌∷◌, bit_and, u32, ◌<<<◌}

pub get_uint32 : ℕ → ℕ → ℕ → ℕ → ℕ
get_uint32 a b c d = u32 (a * 16777216 + b * 65536 + c * 256 + d)

unfoldable pub get_uint24 : ℕ → ℕ → ℕ → ℕ
get_uint24 a b c = u32 (a * 65536 + b * 256 + c)

pub get_uint16 : ℕ → ℕ → ℕ
get_uint16 a b = u32 (a * 256 + b)

-- The loop of `get_uintX`, on `uint64_t`.
pub get_uint_x_loop : ℕ → List ℕ → ℕ
get_uint_x_loop value [] = value
get_uint_x_loop value (b ∷ r) = get_uint_x_loop ((value * 2 ^ 8 % 2 ^ 64 + b) % 2 ^ 64) r

pub get_uint_x : List ℕ → ℕ
unfolding get_uint_x_loop
get_uint_x bytes = get_uint_x_loop 0 bytes

pub get_left_28_bit_record : ℕ → ℕ → ℕ → ℕ → ℕ
get_left_28_bit_record a b c d = u32 (a * 65536 + b * 256 + c + bit_and d 0xf0 <<< 20)

pub get_right_28_bit_record : ℕ → ℕ → ℕ → ℕ → ℕ
unfolding get_uint32
get_right_28_bit_record a b c d = bit_and (get_uint32 a b c d) 0xfffffff
