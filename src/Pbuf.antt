-- ===== src/Pbuf.antt =====
-- Packet buffers: Carthage/Checkouts/tun2socks/lwip/src/core/pbuf.c. A packet is a chain of buffers;
-- the chain is the list of its buffers from the first on.
pub mod Content
pub mod Chain
pub mod Find
pub mod Take
pub mod Shrink
use qladder.Prelude.{
  ℕ, zero, suc, ◌+◌, ◌-◌, ◌%◌, ◌^◌, List, [], ◌∷◌, ◌++◌, Bool, true, false, ◌&&◌, ◌||◌, not, u8,
  u16, sub16, ltb, leb, ◌==◌, if◌then◌else◌, length, take, drop, get_or, Option, some, none,
}

-- `payload` is what the pointer leads to, `len` bytes of which are the buffer's data.
pub record Pbuf : Type 0 where
  pub payload : List ℕ
  pub tot_len : ℕ
  pub len : ℕ
  pub ref : ℕ

-- ERR_OK, ERR_ARG
pub data Err : Type 0 where
  err_ok err_arg : Err

-- `u8_t`, so a chain of 256 buffers counts 0.
unfoldable pub pbuf_clen : List Pbuf → ℕ
pbuf_clen [] = 0
pbuf_clen (p ∷ r) = u8 (pbuf_clen r + 1)

-- The number of buffers deallocated, and the chain that is left of `p`. The assertion that `ref` is above
-- 0 is left out; at 0 the counter wraps around.
pub pbuf_free : List Pbuf → ℕ × List Pbuf
pbuf_free [] = (0, [])
pbuf_free (p ∷ r) =
    let ref = sub16 p.ref 1 in
    let (count, rest) = pbuf_free r in
    if ref == 0 then (u8 (count + 1), rest) else (0, record p { ref = ref } ∷ r)

-- The loop of `pbuf_cat` over a chain that is not empty; `n` is `t->tot_len`.
unfoldable pub cat_loop : ℕ → List Pbuf → List Pbuf → List Pbuf
cat_loop n [] t = t
cat_loop n (p ∷ r) t = record p { tot_len = u16 (p.tot_len + n) } ∷ cat_loop n r t

-- An empty list stands for NULL, for which LWIP_ERROR aborts in this build; the chain is returned here.
-- The assertion on the last buffer's `tot_len` is left out.
unfoldable pub pbuf_cat : List Pbuf → List Pbuf → List Pbuf
pbuf_cat [] t = []
pbuf_cat (p ∷ r) [] = p ∷ r
pbuf_cat (p ∷ r) (q ∷ t) = cat_loop q.tot_len (p ∷ r) (q ∷ t)

-- `pbuf_ref`, on the first buffer of a chain.
unfoldable pub pbuf_ref : List Pbuf → List Pbuf
pbuf_ref [] = []
pbuf_ref (p ∷ r) = record p { ref = u16 (p.ref + 1) } ∷ r

-- The head chain after the call; its last part is `t`, now referenced by the head too.
pub pbuf_chain : List Pbuf → List Pbuf → List Pbuf
pbuf_chain [] t = []
pbuf_chain (p ∷ r) [] = p ∷ r
pbuf_chain (p ∷ r) (q ∷ t) = cat_loop q.tot_len (p ∷ r) (pbuf_ref (q ∷ t))

-- The first buffer as it stands afterwards, `tail_gone`, and what is left of the tail. The code
-- returns the tail if `tail_gone` is 0 and NULL otherwise. The assertions on the tail's and the first
-- buffer's `tot_len` are left out.
pub pbuf_dechain : List Pbuf → List Pbuf × ℕ × List Pbuf
pbuf_dechain [] = ([], 1, [])
pbuf_dechain (p ∷ []) = (p ∷ [], 1, [])
pbuf_dechain (p ∷ q ∷ r) =
    let (tail_gone, left) = pbuf_free (record q { tot_len = sub16 p.tot_len p.len } ∷ r) in
    (record p { tot_len = p.len } ∷ [], tail_gone, left)

-- `buf_copy_len` of `pbuf_copy_partial`.
abbrev pub copy_len : ℕ → ℕ → ℕ → ℕ
copy_len len avail offset = if ltb len (sub16 avail offset) then len else sub16 avail offset

-- The loop of `pbuf_copy_partial`: `copied_total` from here on, and the bytes written to `dataptr`,
-- one part behind the other.
pub copy_loop : List Pbuf → ℕ → ℕ → ℕ × List ℕ
copy_loop [] len offset = (0, [])
copy_loop (p ∷ r) len offset =
    let next = copy_loop r len (sub16 offset p.len) in
    let n = copy_len len p.len offset in
    let (total, rest) = copy_loop r (sub16 len n) 0 in
    if len == 0
    then (0, [])
    else if not (offset == 0) && leb p.len offset
    then next
    else (u16 (n + total), take n (drop offset p.payload) ++ rest)

-- For no buffer at all LWIP_ERROR aborts in this build; the result is 0 here.
pub pbuf_copy_partial : List Pbuf → ℕ → ℕ → ℕ × List ℕ
pbuf_copy_partial buf len offset = copy_loop buf len offset

-- `MEMCPY(payload, data, n)`: the new payload.
abbrev pub overwrite : ℕ → List ℕ → List ℕ → List ℕ
overwrite n src payload = take n src ++ drop n payload

-- The loop of `pbuf_take`: the chain with the bytes stored.
pub take_loop : List Pbuf → List ℕ → ℕ → List Pbuf
take_loop [] src total_copy_len = []
take_loop (p ∷ r) src total_copy_len =
    let n = if ltb p.len total_copy_len then p.len else total_copy_len in
    let rest = take_loop r (drop n src) (sub16 total_copy_len n) in
    if total_copy_len == 0 then p ∷ r else record p { payload = overwrite n src p.payload } ∷ rest

-- For no buffer at all LWIP_ERROR aborts in this build; the result here is the 0 that stands behind it.
pub pbuf_take : List Pbuf → List ℕ → ℕ → Err × List Pbuf
pbuf_take [] src len = (err_ok, [])
pbuf_take (p ∷ r) src len =
    if ltb p.tot_len len then (err_arg, p ∷ r) else (err_ok, take_loop (p ∷ r) src len)

-- The loop that `pbuf_get_at` and `pbuf_memcmp` share: the rest of the chain that begins with the
-- buffer of byte `offset`, and the offset in it.
unfoldable pub locate : List Pbuf → ℕ → List Pbuf × ℕ
locate [] offset = ([], offset)
locate (p ∷ r) offset =
    let rest = locate r (sub16 offset p.len) in if leb p.len offset then rest else (p ∷ r, offset)

abbrev pub byte_at : List Pbuf × ℕ → ℕ
byte_at ([], copy_from) = 0
byte_at (q ∷ r, copy_from) = get_or q.payload copy_from 0

unfoldable pub pbuf_get_at : List Pbuf → ℕ → ℕ
pbuf_get_at p offset = byte_at (locate p offset)

-- The `for` loop of `pbuf_memcmp` at index `i`, with `left` rounds to go.
unfoldable pub memcmp_loop : List Pbuf → ℕ → List ℕ → ℕ → ℕ → ℕ
memcmp_loop q start s2 i zero = 0
memcmp_loop q start s2 i (suc left) =
    let rest = memcmp_loop q start s2 (i + 1) left in
    if pbuf_get_at q (u16 (start + i)) == get_or s2 i 0 then rest else u16 (i + 1)

abbrev pub memcmp_at : List Pbuf × ℕ → List ℕ → ℕ → ℕ
memcmp_at ([], start) s2 n = 0xffff
memcmp_at (q ∷ r, start) s2 n = memcmp_loop (q ∷ r) start s2 0 n

unfoldable pub pbuf_memcmp : List Pbuf → ℕ → List ℕ → ℕ → ℕ
pbuf_memcmp p offset s2 n = memcmp_at (locate p offset) s2 n

-- The loop of `pbuf_memfind` at `i`; `none`: the fuel ran out.
unfoldable pub memfind_loop : ℕ → List Pbuf → List ℕ → ℕ → ℕ → ℕ → Option ℕ
memfind_loop zero p mem mem_len max i = none
memfind_loop (suc fuel) p mem mem_len max i =
    let plus = pbuf_memcmp p i mem mem_len in
    let rest = memfind_loop fuel p mem mem_len max (u16 (i + plus)) in
    if leb i max then (if plus == 0 then some i else rest) else some 0xffff

-- `none` also for no buffer at all, which the code reads `tot_len` of.
unfoldable pub pbuf_memfind : ℕ → List Pbuf → List ℕ → ℕ → ℕ → Option ℕ
pbuf_memfind fuel [] mem mem_len start_offset = none
pbuf_memfind fuel (p ∷ r) mem mem_len start_offset =
    if leb (mem_len + start_offset) p.tot_len
    then memfind_loop fuel (p ∷ r) mem mem_len (sub16 p.tot_len mem_len) start_offset
    else some 0xffff

-- The loop of `pbuf_realloc` and what follows it: the chain, and what `pbuf_free` made of the rest.
-- `mem_trim` leaves a block as it is, with the C library's malloc. `none`: the loop ran off the chain.
unfoldable pub realloc_loop : ℕ → List Pbuf → ℕ → Option (List Pbuf × (ℕ × List Pbuf))
realloc_loop grow [] rem_len = none
realloc_loop grow (q ∷ r) rem_len =
    let rest = realloc_loop grow r (sub16 rem_len q.len) in
    if ltb q.len rem_len
    then (elim rest [
      | none ↦ none
      | some (c, freed) ↦ some (record q { tot_len = u16 (q.tot_len + grow) } ∷ c, freed)
    ])
    else some (record q { len = rem_len; tot_len = rem_len } ∷ [], pbuf_free r)

unfoldable pub pbuf_realloc : List Pbuf → ℕ → Option (List Pbuf × (ℕ × List Pbuf))
pbuf_realloc [] new_len = none
pbuf_realloc (p ∷ r) new_len =
    if leb p.tot_len new_len
    then some (p ∷ r, (0, []))
    else realloc_loop (sub16 new_len p.tot_len) (p ∷ r) new_len
