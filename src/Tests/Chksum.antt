-- ===== src/Tests/Chksum.antt =====
-- Five bytes, as two buffers and in one piece.
use qladder.Prelude.{ℕ, ◌/◌, ◌%◌, ◌≡◌, refl, List, [], ◌∷◌, ◌++◌, true, false, arith}
use qladder.Pbuf.{Pbuf}
use qladder.Pbuf.Content.{IsPacket}
use qladder.Chksum.{
  bulk, aligned_chksum, lwip_standard_chksum, inet_chksum, inet_chksum_pbuf, inet_chksum_pseudo,
}
use qladder.Chksum.Sum.{AreBytes, inet_chksum_verifies}
use qladder.Chksum.Pseudo.{pseudo_header, inet_chksum_pseudo-content}
use qladder.Chksum.Packet.{inet_chksum_pbuf-content}

abbrev first : Pbuf
first = record { payload = 255 ∷ 254 ∷ 3 ∷ []; tot_len = 5; len = 3; ref = 1 }

abbrev second : Pbuf
second = record { payload = 1 ∷ 128 ∷ []; tot_len = 2; len = 2; ref = 1 }

abbrev packet : List Pbuf
packet = first ∷ second ∷ []

packet-IsPacket : IsPacket packet
packet-IsPacket = (omega arith, refl, omega arith, (omega arith, refl, omega arith, tt))

abbrev five : List ℕ
five = 255 ∷ 254 ∷ 3 ∷ 1 ∷ 128 ∷ []

five-AreBytes : AreBytes five
five-AreBytes = (omega arith, (omega arith, (omega arith, (omega arith, (omega arith, tt)))))

sum_at_odd : lwip_standard_chksum true five ≡ lwip_standard_chksum false five
unfolding lwip_standard_chksum aligned_chksum bulk
sum_at_odd = refl

inet_chksum_pbuf-content_example : inet_chksum_pbuf (λ q. true) packet ≡ inet_chksum false five
inet_chksum_pbuf-content_example =
    inet_chksum_pbuf-content (λ q. true) packet false packet-IsPacket five-AreBytes (omega arith)

inet_chksum_verifies_example :
    let c = inet_chksum true (255 ∷ 254 ∷ []) in
    inet_chksum false (255 ∷ 254 ∷ c % 256 ∷ c / 256 ∷ []) ≡ 0
inet_chksum_verifies_example =
    inet_chksum_verifies true false (255 ∷ 254 ∷ []) (omega arith, (omega arith, tt)) (omega arith)
      refl

inet_chksum_pseudo-content_example :
    inet_chksum_pseudo (λ q. true) packet 16777343 33554559 6 5
    ≡ inet_chksum false (pseudo_header 16777343 33554559 6 5 ++ five)
inet_chksum_pseudo-content_example =
    inet_chksum_pseudo-content (λ q. true) packet 16777343 33554559 6 5 false packet-IsPacket
      five-AreBytes (omega arith) (omega arith) (omega arith) (omega arith) (omega arith)
