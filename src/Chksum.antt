-- ===== src/Chksum.antt =====
-- Internet checksums: Carthage/Checkouts/tun2socks/lwip/src/core/ipv4/inet_chksum.c, with algorithm 2 of
-- `lwip_standard_chksum`, which is the default, on a little-endian machine.
pub mod Sum
pub mod Packet
pub mod Pseudo
use qladder.Prelude.{
  ℕ, ◌+◌, ◌-◌, ◌*◌, ◌/◌, ◌%◌, ◌^◌, List, [], ◌∷◌, Bool, true, false, not, u16, u32, sub16, ltb,
  ◌==◌, if◌then◌else◌, take,
}
use qladder.Pbuf.{Pbuf}

-- FOLD_U32T, on `u32_t`
abbrev pub fold : ℕ → ℕ
fold n = u32 (n / 65536 + n % 65536)

-- SWAP_BYTES_IN_WORD
abbrev pub swap_bytes : ℕ → ℕ
swap_bytes w = w % 256 * 256 + w / 256 % 256

-- The loop over whole words: the sum, and the byte left over.
unfoldable pub bulk : ℕ → List ℕ → ℕ × List ℕ
bulk sum [] = (sum, [])
bulk sum (a ∷ []) = (sum, a ∷ [])
bulk sum (a ∷ b ∷ r) = bulk (u32 (sum + (a + 256 * b))) r

-- The end bytes `t` with the byte left over in its first place.
abbrev pub end_bytes : ℕ → List ℕ → ℕ
end_bytes t [] = t
end_bytes t (x ∷ r) = t / 256 * 256 + x

-- From the aligned address on.
unfoldable pub aligned_chksum : ℕ → List ℕ → ℕ
aligned_chksum t bytes =
    let (sum, left) = bulk 0 bytes in fold (fold (u32 (sum + end_bytes t left)))

-- `odd`: whether the data begins at an odd address.
unfoldable pub lwip_standard_chksum : Bool → List ℕ → ℕ
lwip_standard_chksum false bytes = u16 (aligned_chksum 0 bytes)
lwip_standard_chksum true [] = u16 (swap_bytes (aligned_chksum 0 []))
lwip_standard_chksum true (a ∷ r) = u16 (swap_bytes (aligned_chksum (256 * a) r))

pub inet_chksum : Bool → List ℕ → ℕ
inet_chksum odd bytes = 65535 - lwip_standard_chksum odd bytes

-- The loop over a chain: `acc` and `swapped`. `odd` says of each buffer where its payload begins.
pub chain_loop : (Pbuf → Bool) → ℕ → Bool → List Pbuf → ℕ × Bool
chain_loop odd acc swapped [] = (acc, swapped)
chain_loop odd acc swapped (q ∷ r) =
    let acc' = fold (u32 (acc + lwip_standard_chksum (odd q) (take q.len q.payload))) in
    if q.len % 2 == 0
    then chain_loop odd acc' swapped r
    else chain_loop odd (swap_bytes acc') (not swapped) r

-- The sum over a chain, in the byte order of its first byte.
pub chain_chksum : (Pbuf → Bool) → List Pbuf → ℕ
chain_chksum odd p =
    let (acc, swapped) = chain_loop odd 0 false p in if swapped then swap_bytes acc else acc

pub inet_chksum_pbuf : (Pbuf → Bool) → List Pbuf → ℕ
inet_chksum_pbuf odd p = 65535 - chain_chksum odd p % 65536

-- What `inet_chksum_pseudo` adds for an address in network byte order.
abbrev pub add_address : ℕ → ℕ → ℕ
add_address acc addr = u32 (u32 (acc + addr % 65536) + addr / 65536 % 65536)

pub inet_chksum_pseudo : (Pbuf → Bool) → List Pbuf → ℕ → ℕ → ℕ → ℕ → ℕ
inet_chksum_pseudo odd p src dest proto proto_len =
    let acc = add_address (add_address (chain_chksum odd p) src) dest in
    let acc' = u32 (u32 (acc + swap_bytes (u16 proto)) + swap_bytes proto_len) in
    65535 - fold (fold acc') % 65536
