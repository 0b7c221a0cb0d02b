-- ===== src/Tests/Addr.antt =====
-- The address 10.0.200.7 and the netmask 255.255.240.0.
use qladder.Prelude.{
  ℕ, ◌+◌, ◌≤◌, ◌^◌, ◌≡◌, ◌↔◌, refl, List, true, some, none, ltb, if◌then◌else◌, length, bytes_of,
  arith,
}
use qladder.Addr.{lwip_htonl, ip4_addr_netmask_valid}
use qladder.Addr.Mask.{ip4_addr_netmask_valid_lem}
use qladder.Addr.Text.{
  ipaddr_aton, ipaddr_ntoa, ipaddr_ntoa_r, parts_loop, number, number_start, number_loop,
  digit_step, concoct,
}
use qladder.Addr.Text.RoundTrip.{dotted_decimal, ipaddr_ntoa_r-dotted, ipaddr_aton-ipaddr_ntoa}

-- 10.0.200.7 as it is stored.
abbrev addr : ℕ
addr = 130547722

-- 255.255.240.0 as it is stored.
abbrev mask : ℕ
mask = 15794175

-- The parts before the last are not checked to be bytes.
first_part_wraps : ipaddr_aton (bytes_of "256.0.0.1") ≡ some 0x01000000
unfolding ipaddr_aton parts_loop number number_start number_loop digit_step concoct lwip_htonl
first_part_wraps = refl

-- An octal number may have the digit 9.
octal_nine : ipaddr_aton (bytes_of "09") ≡ some 0x09000000
unfolding ipaddr_aton parts_loop number number_start number_loop digit_step concoct lwip_htonl
octal_nine = refl

hexadecimal : ipaddr_aton (bytes_of "0xC0a80001 ") ≡ some 0x0100a8c0
unfolding ipaddr_aton parts_loop number number_start number_loop digit_step concoct lwip_htonl
hexadecimal = refl

ip4_addr_netmask_valid_lem_example :
    ip4_addr_netmask_valid mask ≡ true ↔ ((k : ℕ) × (k ≤ 32) × (lwip_htonl mask + 2 ^ k ≡ 2 ^ 32))
ip4_addr_netmask_valid_lem_example = ip4_addr_netmask_valid_lem mask

ipaddr_ntoa_r-dotted_example :
    let text = dotted_decimal 10 0 200 7 in
    ipaddr_ntoa_r addr 10 ≡ (if ltb (length text) 10 then some text else none)
ipaddr_ntoa_r-dotted_example = ipaddr_ntoa_r-dotted addr 10

ipaddr_aton-ipaddr_ntoa_example :
    (text : List ℕ) × (ipaddr_ntoa addr ≡ some text) × (ipaddr_aton text ≡ some addr)
ipaddr_aton-ipaddr_ntoa_example = ipaddr_aton-ipaddr_ntoa addr (omega arith)
