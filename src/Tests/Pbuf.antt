-- ===== src/Tests/Pbuf.antt =====
-- A packet of two buffers, "aaa" and "b".
use qladder.Prelude.{◌≡◌, refl, List, [], ◌∷◌, some, arith}
use qladder.Pbuf.{
  pbuf_chain, pbuf_dechain, Pbuf, pbuf_cat, pbuf_copy_partial, pbuf_get_at, pbuf_memcmp,
  pbuf_memfind, pbuf_take, pbuf_realloc, memfind_loop, memcmp_loop, locate,
}
use qladder.Pbuf.Content.{content, IsPacket, pbuf_copy_partial-content}
use qladder.Pbuf.Chain.{pbuf_dechain-pbuf_chain, pbuf_cat-content}
use qladder.Pbuf.Take.{pbuf_copy_partial-pbuf_take}
use qladder.Pbuf.Shrink.{Holds, pbuf_realloc-content}

abbrev first : Pbuf
first = record { payload = 97 ∷ 97 ∷ 97 ∷ []; tot_len = 4; len = 3; ref = 1 }

abbrev second : Pbuf
second = record { payload = 98 ∷ []; tot_len = 1; len = 1; ref = 2 }

abbrev packet : List Pbuf
packet = first ∷ second ∷ []

second-IsPacket : IsPacket (second ∷ [])
second-IsPacket = (omega arith, refl, omega arith, tt)

packet-IsPacket : IsPacket packet
packet-IsPacket = (omega arith, refl, omega arith, second-IsPacket)

-- "aab" stands at 1, and the search steps over it.
memfind_steps_over : pbuf_memfind 9 packet (97 ∷ 97 ∷ 98 ∷ []) 3 0 ≡ some 0xffff
unfolding pbuf_memfind memfind_loop pbuf_memcmp memcmp_loop pbuf_get_at locate
memfind_steps_over = refl

memcmp_finds : pbuf_memcmp packet 1 (97 ∷ 97 ∷ 98 ∷ []) 3 ≡ 0
unfolding pbuf_memcmp memcmp_loop pbuf_get_at locate
memcmp_finds = refl

pbuf_copy_partial-content_example :
    ((pbuf_copy_partial packet 2 2).1 ≡ 97 ∷ 98 ∷ []) × ((pbuf_copy_partial packet 2 2).0 ≡ 2)
pbuf_copy_partial-content_example =
    pbuf_copy_partial-content packet 2 2 packet-IsPacket (omega arith) (omega arith)

pbuf_cat-content_example :
    (content (pbuf_cat packet (second ∷ [])) ≡ 97 ∷ 97 ∷ 97 ∷ 98 ∷ 98 ∷ [])
    × IsPacket (pbuf_cat packet (second ∷ []))
pbuf_cat-content_example =
    pbuf_cat-content first (second ∷ []) (second ∷ []) packet-IsPacket second-IsPacket (omega arith)

pbuf_copy_partial-pbuf_take_example :
    pbuf_copy_partial (pbuf_take packet (1 ∷ 2 ∷ 3 ∷ 4 ∷ []) 4).1 4 0 ≡ (4, 1 ∷ 2 ∷ 3 ∷ 4 ∷ [])
pbuf_copy_partial-pbuf_take_example =
    pbuf_copy_partial-pbuf_take first (second ∷ []) (1 ∷ 2 ∷ 3 ∷ 4 ∷ []) packet-IsPacket
      (omega arith)

pbuf_realloc-content_example : Holds (pbuf_realloc packet 2) (97 ∷ 97 ∷ [])
pbuf_realloc-content_example = pbuf_realloc-content first (second ∷ []) 2 packet-IsPacket

abbrev alone : Pbuf
alone = record first { tot_len = 3 }

pbuf_dechain-pbuf_chain_example :
    pbuf_dechain (pbuf_chain (alone ∷ []) (second ∷ [])) ≡ (alone ∷ [], 0, second ∷ [])
pbuf_dechain-pbuf_chain_example =
    pbuf_dechain-pbuf_chain alone second [] (omega arith, refl, omega arith, tt) second-IsPacket
      (omega arith) (omega arith)
