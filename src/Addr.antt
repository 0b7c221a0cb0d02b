-- ===== src/Addr.antt =====
-- Addresses: Carthage/Checkouts/tun2socks/lwip/src/core/ipv4/ip_addr.c, and the byte order of
-- lwip/src/core/def.c on a little-endian machine.
pub mod Mask
pub mod Text
use qladder.Prelude.{
  ℕ, zero, suc, ◌+◌, ◌*◌, ◌/◌, ◌%◌, ◌^◌, Bool, true, false, ◌==◌, if◌then◌else◌, u16, u32,
}

-- `lwip_htons` and `lwip_ntohs`. The fields that `|` joins do not overlap.
pub lwip_htons : ℕ → ℕ
lwip_htons n = n % 256 * 256 + n / 256 % 256

-- `lwip_htonl` and `lwip_ntohl`
unfoldable pub lwip_htonl : ℕ → ℕ
lwip_htonl n =
    n % 256 * 16777216 + n / 256 % 256 * 65536 + n / 65536 % 256 * 256 + n / 16777216 % 256

-- `(nm & mask) != 0` for the mask with the one bit `i`.
abbrev pub bit : ℕ → ℕ → ℕ
bit nm i = nm / 2 ^ i % 2

-- The second loop: no one from bit `i - 1` down.
pub zeros_loop : ℕ → ℕ → Bool
zeros_loop nm zero = true
zeros_loop nm (suc i) = if bit nm i == 0 then zeros_loop nm i else false

-- The first loop, with the second behind its `break`: the mask stays on the first zero.
pub ones_loop : ℕ → ℕ → Bool
ones_loop nm zero = true
ones_loop nm (suc i) = if bit nm i == 0 then zeros_loop nm (suc i) else ones_loop nm i

pub ip4_addr_netmask_valid : ℕ → Bool
ip4_addr_netmask_valid netmask = ones_loop (lwip_htonl netmask) 32
