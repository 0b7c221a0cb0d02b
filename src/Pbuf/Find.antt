-- ===== src/Pbuf/Find.antt =====
-- Reading a byte of a chain, comparing and searching.
use qladder.Prelude.{
  ℕ, zero, suc, ◌+◌, ◌-◌, ◌^◌, ◌≤◌, ◌<◌, ◌≡◌, ◌⊎◌, refl, ap, sym, ◌∙◌, subst, List, [], ◌∷◌, ◌++◌,
  u16, sub16, ◌==◌, leb, length, length-append, length-take, take, get_or, arith, Bool-cases, inl,
  inr, some, false,
}
use qladder.Pbuf.{
  Pbuf, locate, byte_at, pbuf_get_at, memcmp_loop, memcmp_at, pbuf_memcmp, memfind_loop,
  pbuf_memfind,
}
use qladder.Pbuf.Content.{content, IsPacket}

get_or-short : (xs ys : List ℕ) (i : ℕ) → i < length xs → get_or (xs ++ ys) i 0 ≡ get_or xs i 0
get_or-short [] ys i h = elim h [ ]
get_or-short (x ∷ xs) ys zero h = refl
get_or-short (x ∷ xs) ys (suc i) h = get_or-short xs ys i (omega arith)

get_or-long :
    (xs ys : List ℕ) (i : ℕ) → length xs ≤ i → get_or (xs ++ ys) i 0 ≡ get_or ys (i - length xs) 0
get_or-long [] ys i h = ap (λ j. get_or ys j 0) (omega arith)
get_or-long (x ∷ xs) ys zero h = absurd (omega arith)
get_or-long (x ∷ xs) ys (suc i) h =
    get_or-long xs ys i (omega arith) ∙ ap (λ j. get_or ys j 0) (omega arith)

get_or-take : (n : ℕ) (xs : List ℕ) (i : ℕ) → i < n → get_or (take n xs) i 0 ≡ get_or xs i 0
get_or-take zero xs i h = elim h [ ]
get_or-take (suc n) [] i h = refl
get_or-take (suc n) (x ∷ xs) zero h = refl
get_or-take (suc n) (x ∷ xs) (suc i) h = get_or-take n xs i (omega arith)

byte_at-locate :
    (c : List Pbuf) (offset : ℕ)
    → IsPacket c
    → offset < 2 ^ 16
    → byte_at (locate c offset) ≡ get_or (content c) offset 0
unfolding locate
byte_at-locate [] offset h k = refl
byte_at-locate (p ∷ r) offset h k = elim (Bool-cases (leb p.len offset)) [
  | inl past ↦
      let held : length (take p.len p.payload) ≡ p.len =
        omega (arith, h.0, length-take p.len p.payload) in
      let g : p.len ≤ offset = ground arith in
      let left : sub16 offset p.len ≡ offset - length (take p.len p.payload) =
        omega (arith, held, g) in
      rw (past, byte_at-locate r (sub16 offset p.len) h.3 (omega arith), left)
        (sym (get_or-long (take p.len p.payload) (content r) offset (omega (arith, held, g))))
  | inr here ↦
      let g : offset < p.len = ground arith in
      rw (here) (
        sym (
          get_or-short (take p.len p.payload) (content r) offset
            (omega (arith, h.0, g, length-take p.len p.payload))
          ∙ get_or-take p.len p.payload offset g))
]

-- `pbuf_get_at` reads the byte that the packet has at `offset`, and 0 behind its end.
pub pbuf_get_at-content :
    (c : List Pbuf) (offset : ℕ)
    → IsPacket c
    → offset < 2 ^ 16
    → pbuf_get_at c offset ≡ get_or (content c) offset 0
unfolding pbuf_get_at
pbuf_get_at-content c offset h k = byte_at-locate c offset h k

-- The chain from the buffer of byte `offset` on begins that many bytes before it.
locate-cases :
    (c : List Pbuf) (offset : ℕ)
    → IsPacket c
    → offset < 2 ^ 16
    → ((j : ℕ)
        → offset + j < 2 ^ 16
        → get_or (content (locate c offset).0) ((locate c offset).1 + j) 0
          ≡ get_or (content c) (offset + j) 0)
      × ((locate c offset).1 ≤ offset)
      × IsPacket (locate c offset).0
      × (length (content (locate c offset).0) + offset ≡ length (content c) + (locate c offset).1)
unfolding locate
locate-cases [] offset h k = (λ j m. refl, omega arith, tt, refl)
locate-cases (p ∷ r) offset h k = elim (Bool-cases (leb p.len offset)) [
  | inl past ↦
      let held : length (take p.len p.payload) ≡ p.len =
        omega (arith, h.0, length-take p.len p.payload) in
      let g : p.len ≤ offset = ground arith in
      let left : sub16 offset p.len ≡ offset - p.len = omega arith in
      let (same, below, packet, sizes) = locate-cases r (sub16 offset p.len) h.3 (omega arith) in
      rw (past) (
        λ j m.
            same j (omega arith)
            ∙ ap (λ i. get_or (content r) i 0) (omega (arith, left, held, g))
            ∙ sym (
                get_or-long (take p.len p.payload) (content r) (offset + j)
                  (omega (arith, held, g))),
        omega (arith, below, left),
        packet,
        omega (arith, sizes, left, g, held, length-append (take p.len p.payload) (content r)),
      )
  | inr here ↦ rw (here) (λ j m. refl, omega arith, h, refl)
]

extend :
    (P : ℕ → Type 0) (i left : ℕ)
    → P i
    → ((k : ℕ) → k < left → P (i + 1 + k))
    → (j : ℕ) → j < suc left
    → P (i + j)
extend P i left first rest zero m = subst P (omega arith) first
extend P i left first rest (suc j) m = subst P (omega arith) (rest j (omega arith))

-- `memcmp_loop` finds no difference, or one.
memcmp_loop-cases :
    (q : List Pbuf) (start : ℕ) (s2 : List ℕ) (i left : ℕ)
    → i + left < 2 ^ 16
    → ((memcmp_loop q start s2 i left ≡ 0)
        × ((j : ℕ) → j < left → pbuf_get_at q (u16 (start + (i + j))) ≡ get_or s2 (i + j) 0))
      ⊎ ((0 < memcmp_loop q start s2 i left) × (memcmp_loop q start s2 i left ≤ i + left))
unfolding memcmp_loop
memcmp_loop-cases q start s2 i zero h = inl (refl, λ j m. elim m [ ])
memcmp_loop-cases q start s2 i (suc left) h =
    elim (Bool-cases (pbuf_get_at q (u16 (start + i)) == get_or s2 i 0)) [
      | inl same ↦ elim (memcmp_loop-cases q start s2 (i + 1) left (omega arith)) [
        | inl (none_found, rest) ↦ rw (same) (
            inl (
              none_found,
              extend (λ k. pbuf_get_at q (u16 (start + k)) ≡ get_or s2 k 0) i left (ground arith)
                  rest,
            ))
        | inr (low, high) ↦ rw (same) (inr (low, omega (arith, high)))
      ]
      | inr other ↦ rw (other) (inr (omega arith, omega arith))
    ]

abbrev Matches : List Pbuf → List ℕ → ℕ → ℕ → Type 0
Matches c mem offset n = (j : ℕ) → j < n → get_or (content c) (offset + j) 0 ≡ get_or mem j 0

memcmp_at-cases :
    (c : List Pbuf) (offset : ℕ) (s2 : List ℕ) (n : ℕ)
    → IsPacket c
    → offset + n < 2 ^ 16
    → offset < length (content c)
    → ((x : List Pbuf × ℕ)
        → ((j : ℕ)
            → offset + j < 2 ^ 16
            → get_or (content x.0) (x.1 + j) 0 ≡ get_or (content c) (offset + j) 0)
        → x.1 ≤ offset
        → IsPacket x.0
        → length (content x.0) + offset ≡ length (content c) + x.1
        → ((memcmp_at x s2 n ≡ 0) × Matches c s2 offset n)
          ⊎ ((0 < memcmp_at x s2 n) × (memcmp_at x s2 n ≤ n)))
memcmp_at-cases c offset s2 n h k inside ([], start) same below packet sizes = absurd (omega arith)
memcmp_at-cases c offset s2 n h k inside (q ∷ r, start) same below packet sizes =
    elim (memcmp_loop-cases (q ∷ r) start s2 0 n (omega arith)) [
      | inl (none_found, each) ↦ inl (
        none_found,
        λ j m.
            sym (same j (omega arith))
            ∙ ap (λ i. get_or (content (q ∷ r)) i 0) (omega arith)
            ∙ sym (pbuf_get_at-content (q ∷ r) (u16 (start + (0 + j))) packet (omega arith))
            ∙ each j m
            ∙ ap (λ i. get_or s2 i 0) (omega arith),
      )
      | inr (low, high) ↦ inr (low, omega (arith, high))
    ]

-- `pbuf_memcmp` at an offset inside a packet returns 0 when the `n` bytes from there on are those of
-- `s2`, and otherwise the number of a byte, counted from 1, up to `n`.
pub pbuf_memcmp-cases :
    (c : List Pbuf) (offset : ℕ) (s2 : List ℕ) (n : ℕ)
    → IsPacket c
    → offset + n < 2 ^ 16
    → offset < length (content c)
    → ((pbuf_memcmp c offset s2 n ≡ 0) × Matches c s2 offset n)
      ⊎ ((0 < pbuf_memcmp c offset s2 n) × (pbuf_memcmp c offset s2 n ≤ n))
unfolding pbuf_memcmp
pbuf_memcmp-cases c offset s2 n h k inside =
    let (same, below, packet, sizes) = locate-cases c offset h (omega arith) in
    memcmp_at-cases c offset s2 n h k inside (locate c offset) same below packet sizes

memfind_loop-cases :
    (fuel : ℕ) (c : List Pbuf) (mem : List ℕ) (n max i : ℕ)
    → IsPacket c
    → 0 < n
    → max + n ≡ length (content c)
    → length (content c) < 2 ^ 16
    → max + n < fuel + i
    → i ≤ max + n
    → (memfind_loop fuel c mem n max i ≡ some 0xffff)
      ⊎ ((at : ℕ) × (memfind_loop fuel c mem n max i ≡ some at)
          × (i ≤ at)
          × (at ≤ max)
          × Matches c mem at n)
unfolding memfind_loop
memfind_loop-cases zero c mem n max i h pos sizes short enough k = absurd (omega arith)
memfind_loop-cases (suc fuel) c mem n max i h pos sizes short enough k =
    elim (Bool-cases (leb i max)) [
      | inr over ↦ rw (over) (inl refl)
      | inl go ↦
          let below : i ≤ max = ground arith in
          elim (pbuf_memcmp-cases c i mem n h (omega arith) (omega arith)) [
            | inl (same, found) ↦ rw (go, same) (inr (i, refl, omega arith, below, found))
            | inr (low, high) ↦
                let differ : (pbuf_memcmp c i mem n == 0) ≡ false = ground arith in
                let next : u16 (i + pbuf_memcmp c i mem n) ≡ i + pbuf_memcmp c i mem n =
                  omega arith in
                rw (go, differ, next)
                  (elim (memfind_loop-cases fuel c mem n max (i + pbuf_memcmp c i mem n) h pos sizes
                    short (omega arith) (omega arith)) [
                      | inl not_found ↦ inl not_found
                      | inr (at, eq, after, inside, found) ↦
                          inr (at, eq, omega (arith, after), inside, found)
                    ])
          ]
    ]

-- `pbuf_memfind` for a string that is not empty, in a packet, from an offset inside `u16_t` on: it
-- ends, and returns 0xffff or a place at or behind the offset where all bytes of the string stand.
pbuf_memfind-Matches :
    (fuel : ℕ) (p : Pbuf) (r : List Pbuf) (mem : List ℕ) (n start : ℕ)
    → IsPacket (p ∷ r)
    → 0 < n
    → p.tot_len < fuel
    → (pbuf_memfind fuel (p ∷ r) mem n start ≡ some 0xffff)
      ⊎ ((at : ℕ) × (pbuf_memfind fuel (p ∷ r) mem n start ≡ some at)
          × (start ≤ at)
          × (at + n ≤ p.tot_len)
          × Matches (p ∷ r) mem at n)
unfolding pbuf_memfind
pbuf_memfind-Matches fuel p r mem n start h pos enough =
    elim (Bool-cases (leb (n + start) p.tot_len)) [
      | inr long ↦ rw (long) (inl refl)
      | inl fits ↦
          let g : n + start ≤ p.tot_len = ground arith in
          let m : sub16 p.tot_len n ≡ p.tot_len - n = omega (arith, h.2) in
          let size : length (content (p ∷ r)) ≡ p.tot_len = omega (
            arith,
            h.0,
            h.1,
            length-append (take p.len p.payload) (content r),
            length-take p.len p.payload,
          ) in
          rw (fits)
            (elim (memfind_loop-cases fuel (p ∷ r) mem n (sub16 p.tot_len n) start h pos
              (omega (arith, m, size)) (omega (arith, size, h.2)) (omega (arith, m))
              (omega (arith, m))) [
                | inl not_found ↦ inl not_found
                | inr (at, eq, after, inside, found) ↦
                    inr (at, eq, after, omega (arith, m, inside), found)
              ])
    ]
