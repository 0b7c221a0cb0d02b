-- ===== src/Pbuf/Take.antt =====
-- `pbuf_take`: storing bytes in a packet, and reading them back.
use qladder.Prelude.{
  ℕ, ◌+◌, ◌-◌, ◌^◌, ◌≤◌, ◌<◌, ◌≡◌, refl, ap, ap₂, sym, ◌∙◌, List, [], ◌∷◌, ◌++◌, append_assoc,
  sub16, ◌==◌, ltb, length, length-append, length-take, length-drop, take, drop, take-append-drop,
  arith, Bool-cases, inl, inr, if◌then◌else◌, true, false,
}
use qladder.Pbuf.{Pbuf, overwrite, take_loop, pbuf_take, pbuf_copy_partial}
use qladder.Pbuf.Content.{
  content, IsPacket, take-short, take-long, take-take, drop-long, window, pbuf_copy_partial-content,
}

take_loop-zero : (c : List Pbuf) (src : List ℕ) → take_loop c src 0 ≡ c
unfolding take_loop
take_loop-zero [] src = refl
take_loop-zero (p ∷ r) src = refl

take_all : (xs : List ℕ) → take (length xs) xs ≡ xs
take_all [] = refl
take_all (x ∷ xs) = ap (◌∷◌ x) (take_all xs)

drop_all : (xs : List ℕ) → drop (length xs) xs ≡ []
drop_all [] = refl
drop_all (x ∷ xs) = drop_all xs

-- A buffer that all of `src` fits in.
fits_here :
    (p : Pbuf) (src rest : List ℕ)
    → p.len ≤ length p.payload
    → length src ≤ p.len
    → take p.len (overwrite (length src) src p.payload) ++ rest
      ≡ src ++ drop (length src) (take p.len p.payload ++ rest)
fits_here p src rest h k =
    rw
      (
        take_all src,
        window p (length src) rest h k,
        take-long p.len src (drop (length src) p.payload) k,
      )
      (append_assoc src _ rest)

-- A buffer that `src` fills.
fills :
    (p : Pbuf) (src rest : List ℕ)
    → p.len ≤ length p.payload
    → p.len ≤ length src
    → take p.len (overwrite p.len src p.payload)
        ++ (drop p.len src ++ drop (length src - p.len) rest)
      ≡ src ++ drop (length src) (take p.len p.payload ++ rest)
fills p src rest h k =
    let held : length (take p.len p.payload) ≡ p.len =
      omega (arith, h, length-take p.len p.payload) in
    rw
      (
        take-short p.len (take p.len src) (drop p.len p.payload)
            (omega (arith, k, length-take p.len src)),
        take-take p.len p.len src (omega arith),
        drop-long (length src) (take p.len p.payload) rest (omega (arith, held, k)),
        held,
      )
      (sym (append_assoc (take p.len src) (drop p.len src) _)
        ∙ ap (λ x. x ++ drop (length src - p.len) rest) (take-append-drop p.len src))

empty : (xs : List ℕ) → (length xs == 0) ≡ true → xs ≡ []
empty [] h = refl
empty (x ∷ xs) h = absurd (ground arith)

taken :
    (c : List Pbuf) (src : List ℕ)
    → IsPacket c
    → length src ≤ length (content c)
    → length src < 2 ^ 16
    → content (take_loop c src (length src)) ≡ src ++ drop (length src) (content c)
unfolding take_loop
taken [] src h k m = let e : src ≡ [] = empty src (ground arith) in rw e refl
taken (p ∷ r) src h k m = elim (Bool-cases (length src == 0)) [
  | inl none_left ↦ let e : src ≡ [] = empty src none_left in rw e refl
  | inr some_left ↦ elim (Bool-cases (ltb p.len (length src))) [
    | inl over ↦
        let g : p.len < length src = ground arith in
        let len : length (drop p.len src) ≡ length src - p.len = length-drop p.len src in
        let left : sub16 (length src) p.len ≡ length (drop p.len src) = omega (arith, len, g, m) in
        let total : length (content (p ∷ r)) ≡ p.len + length (content r) = omega (
          arith,
          h.0,
          length-append (take p.len p.payload) (content r),
          length-take p.len p.payload,
        ) in
        let ih =
          taken r (drop p.len src) h.3 (omega (arith, len, total, k)) (omega (arith, len, m)) in
        rw (some_left, over, left, ih, len) (fills p src (content r) h.0 (omega arith))
    | inr inside ↦
        let g : length src ≤ p.len = ground arith in
        let done : sub16 (length src) (length src) ≡ 0 = omega arith in
        rw (some_left, inside, done, take_loop-zero r (drop (length src) src))
          (fits_here p src (content r) h.0 g)
  ]
]

length-overwrite :
    (n : ℕ) (src payload : List ℕ)
    → n ≤ length src
    → n ≤ length payload
    → length (overwrite n src payload) ≡ length payload
length-overwrite n src payload h k = omega (
  arith,
  h,
  k,
  length-append (take n src) (drop n payload),
  length-take n src,
  length-drop n payload,
)

-- A buffer with other bytes, before a chain of the same length.
stored :
    (p : Pbuf) (r rest : List Pbuf) (payload : List ℕ)
    → IsPacket (p ∷ r)
    → length payload ≡ length p.payload
    → length (content rest) ≡ length (content r)
    → IsPacket rest
    → (length (take p.len payload ++ content rest) ≡ length (content (p ∷ r)))
      × IsPacket (record p { payload = payload } ∷ rest)
stored p r rest payload h e same packet = (
  omega (
    arith,
    e,
    same,
    length-append (take p.len payload) (content rest),
    length-append (take p.len p.payload) (content r),
    length-take p.len payload,
    length-take p.len p.payload,
  ),
  (omega (arith, e, h.0), omega (arith, h.1, same), h.2, packet),
)

taken-IsPacket :
    (c : List Pbuf) (src : List ℕ) (n : ℕ)
    → IsPacket c
    → n ≤ length src
    → n < 2 ^ 16
    → (length (content (take_loop c src n)) ≡ length (content c)) × IsPacket (take_loop c src n)
unfolding take_loop
taken-IsPacket [] src n h k m = (refl, tt)
taken-IsPacket (p ∷ r) src n h k m = elim (Bool-cases (n == 0)) [
  | inl none_left ↦ rw none_left (refl, h)
  | inr some_left ↦
      let n0 : ℕ = if ltb p.len n then p.len else n in
      let low : n0 ≤ p.len = ground arith in
      let short : n0 ≤ n = ground arith in
      let left : sub16 n n0 ≡ n - n0 = omega (arith, short, m) in
      let ih =
        taken-IsPacket r (drop n0 src) (sub16 n n0) h.3 (omega (arith, left, k, length-drop n0 src))
          (omega arith) in
      rw some_left (
        stored p r (take_loop r (drop n0 src) (sub16 n n0)) (overwrite n0 src p.payload) h
          (length-overwrite n0 src p.payload (omega (arith, short, k)) (omega (arith, low, h.0)))
          ih.0 ih.1)
]

-- What `pbuf_take` stores, `pbuf_copy_partial` reads back: on a packet that has room for `src`, of
-- `u16_t` length, the bytes from 0 on are those of `src`, and as many are reported.
pub pbuf_copy_partial-pbuf_take :
    (p : Pbuf) (r : List Pbuf) (src : List ℕ)
    → IsPacket (p ∷ r)
    → length src ≤ p.tot_len
    → pbuf_copy_partial (pbuf_take (p ∷ r) src (length src)).1 (length src) 0 ≡ (length src, src)
unfolding pbuf_take
pbuf_copy_partial-pbuf_take p r src h k =
    let room : ltb p.tot_len (length src) ≡ false = ground arith in
    let size : length (content (p ∷ r)) ≡ p.tot_len = omega (
      arith,
      h.0,
      h.1,
      length-append (take p.len p.payload) (content r),
      length-take p.len p.payload,
    ) in
    let small : length src < 2 ^ 16 = omega (arith, h.2) in
    let packet = taken-IsPacket (p ∷ r) src (length src) h (omega arith) small in
    let (bytes, count) =
      pbuf_copy_partial-content (take_loop (p ∷ r) src (length src)) (length src) 0 packet.1 small
        (omega arith) in
    let back : take (length src) (content (take_loop (p ∷ r) src (length src))) ≡ src =
      ap (take (length src)) (taken (p ∷ r) src h (omega (arith, size)) small)
      ∙ take-short (length src) src _ (omega arith)
      ∙ take_all src in
    rw room (ap₂ (λ n xs. (n, xs)) (count ∙ ap length back) (bytes ∙ back))
