-- ===== src/Chksum/Pseudo.antt =====
-- `inet_chksum_pseudo` is the checksum of the pseudo header of RFC 793 and the packet behind it.
use qladder.Prelude.{
  ℕ, ◌+◌, ◌-◌, ◌*◌, ◌/◌, ◌%◌, ◌^◌, ◌<◌, ◌≡◌, List, [], ◌∷◌, ◌++◌, Bool, u16, u32, length,
  length-append, arith,
}
use qladder.Pbuf.{Pbuf}
use qladder.Pbuf.Content.{content, IsPacket}
use qladder.Chksum.{
  fold, swap_bytes, add_address, lwip_standard_chksum, inet_chksum, chain_chksum,
  inet_chksum_pseudo,
}
use qladder.Chksum.Sum.{
  total, AreBytes, AreBytes-append, Same, Same-refl, Same-trans, Same-sym, Same-add, Same-of_eq,
  Same-eq, fold-Sums, lwip_standard_chksum-Sums,
}
use qladder.Chksum.Packet.{chain_chksum-Sums}

-- An address as it stands in memory, in network byte order.
abbrev pub address_bytes : ℕ → List ℕ
address_bytes a = a % 256 ∷ a / 256 % 256 ∷ a / 65536 % 256 ∷ a / 16777216 ∷ []

abbrev pub pseudo_header : ℕ → ℕ → ℕ → ℕ → List ℕ
pseudo_header src dest proto proto_len =
    address_bytes src ++ address_bytes dest ++ (0 ∷ proto ∷ proto_len / 256 ∷ proto_len % 256 ∷ [])

-- The sum of the two addresses' halves, the protocol and the length, each in network byte order.
abbrev header_sum : ℕ → ℕ → ℕ → ℕ → ℕ
header_sum src dest proto proto_len =
    src % 65536 + src / 65536 + (dest % 65536 + dest / 65536) + 256 * proto + swap_bytes proto_len

low_half : (a : ℕ) → a % 256 + 256 * (a / 256 % 256) ≡ a % 65536
low_half a = ground arith

high_half : (a : ℕ) → a / 65536 % 256 + 256 * (a / 16777216) ≡ a / 65536
high_half a = ground arith

length_word : (n : ℕ) → n < 2 ^ 16 → n / 256 + 256 * (n % 256) ≡ swap_bytes n
length_word n h = ground arith

header-total :
    (src dest proto proto_len : ℕ) (bytes : List ℕ)
    → proto_len < 2 ^ 16
    → total (pseudo_header src dest proto proto_len ++ bytes)
      ≡ header_sum src dest proto proto_len + total bytes
header-total src dest proto proto_len bytes l =
    omega
      (arith, low_half src, high_half src, low_half dest, high_half dest, length_word proto_len l)

header-AreBytes :
    (src dest proto proto_len : ℕ)
    → src < 2 ^ 32
    → dest < 2 ^ 32
    → proto < 2 ^ 8
    → proto_len < 2 ^ 16
    → AreBytes (pseudo_header src dest proto proto_len)
header-AreBytes src dest proto proto_len h k p l = (
  omega arith,
  (
    omega arith,
    (
      omega arith,
      (
        omega (arith, h),
        (
          omega arith,
          (
            omega arith,
            (
              omega arith,
              (omega (arith, k), (omega arith, (p, (omega (arith, l), (omega arith, tt))))),
            ),
          ),
        ),
      ),
    ),
  ),
)

added :
    (acc src dest proto proto_len : ℕ)
    → acc < 2 ^ 16
    → src < 2 ^ 32
    → dest < 2 ^ 32
    → proto < 2 ^ 8
    → proto_len < 2 ^ 16
    → u32 (
        u32 (add_address (add_address acc src) dest + swap_bytes (u16 proto))
        + swap_bytes proto_len)
      ≡ acc + header_sum src dest proto proto_len
added acc src dest proto proto_len h a b p l = omega (arith, h, a, b, p, l)

-- For addresses of 32 bits, a protocol of 8, a length of 16, and a packet short enough that it and
-- the 12 bytes of the pseudo header are fewer than 65535 bytes: `inet_chksum_pseudo` is the checksum
-- of the bytes of the pseudo header with those of the packet behind it, however the packet is cut
-- into buffers and at whatever addresses they begin.
pub inet_chksum_pseudo-content :
    (odd : Pbuf → Bool) (c : List Pbuf) (src dest proto proto_len : ℕ) (at_odd : Bool)
    → IsPacket c
    → AreBytes (content c)
    → length (content c) < 2 ^ 16 - 13
    → src < 2 ^ 32
    → dest < 2 ^ 32
    → proto < 2 ^ 8
    → proto_len < 2 ^ 16
    → inet_chksum_pseudo odd c src dest proto proto_len
      ≡ inet_chksum at_odd (pseudo_header src dest proto proto_len ++ content c)
unfolding inet_chksum_pseudo inet_chksum
inet_chksum_pseudo-content odd c src dest proto proto_len at_odd packet bytes k h g p l =
    let all : List ℕ = pseudo_header src dest proto proto_len ++ content c in
    let head : ℕ = header_sum src dest proto proto_len in
    let s = chain_chksum-Sums odd c packet bytes (omega arith) in
    let e = added (chain_chksum odd c) src dest proto proto_len s.0 h g p l in
    let room : chain_chksum odd c + head < 2 ^ 32 = omega (arith, s.0) in
    let f = fold-Sums (chain_chksum odd c + head) room in
    let t =
      lwip_standard_chksum-Sums at_odd all
        (AreBytes-append (pseudo_header src dest proto proto_len) (content c)
          (header-AreBytes src dest proto proto_len h g p l) bytes)
        (omega (arith, length-append (pseudo_header src dest proto proto_len) (content c))) in
    let joined : Same (chain_chksum odd c + head) (total all) =
      Same-trans _ (total (content c) + head) _
        (Same-add _ (total (content c)) head head s.1 (Same-refl head))
        (Same-of_eq _ _ (omega (arith, header-total src dest proto proto_len (content c) l))) in
    let same : fold (fold (chain_chksum odd c + head)) ≡ lwip_standard_chksum at_odd all =
      Same-eq _ _
        (Same-trans _ (chain_chksum odd c + head) _ f.1
          (Same-trans _ (total all) _ joined (Same-sym _ _ t.1)))
        f.0 t.0 in
    rw e (omega (arith, same, f.0))
