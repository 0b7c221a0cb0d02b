-- ===== src/Pbuf/Content.antt =====
-- What a chain holds, and reading it.
use qladder.Prelude.{
  ℕ, zero, suc, ◌+◌, ◌-◌, ◌^◌, ◌≤◌, ◌<◌, ◌≡◌, refl, ap, sym, ◌∙◌, List, [], ◌∷◌, ◌++◌, ◌&&◌, not,
  u16, sub16, ltb, leb, ◌==◌, length, take, drop, append-nil, arith, Bool-cases, inl, inr,
  length-take, length-drop, length-append, min,
}
use qladder.Pbuf.{Pbuf, copy_loop, copy_len, pbuf_copy_partial}

abbrev pub content : List Pbuf → List ℕ
content [] = []
content (p ∷ r) = take p.len p.payload ++ content r

-- A packet: each buffer holds its `len` bytes, and `tot_len` counts those from it on.
abbrev pub IsPacket : List Pbuf → Type 0
IsPacket [] = Unit {0}
IsPacket (p ∷ r) =
    (p.len ≤ length p.payload)
    × (p.tot_len ≡ p.len + length (content r))
    × (p.tot_len < 2 ^ 16)
    × IsPacket r

pub take-short : (n : ℕ) (xs ys : List ℕ) → n ≤ length xs → take n (xs ++ ys) ≡ take n xs
take-short zero xs ys h = refl
take-short (suc n) [] ys h = absurd (omega arith)
take-short (suc n) (x ∷ xs) ys h = ap (◌∷◌ x) (take-short n xs ys (omega arith))

pub take-long :
    (n : ℕ) (xs ys : List ℕ) → length xs ≤ n → take n (xs ++ ys) ≡ xs ++ take (n - length xs) ys
take-long n [] ys h = ground arith
take-long zero (x ∷ xs) ys h = absurd (omega arith)
take-long (suc n) (x ∷ xs) ys h =
    ap (◌∷◌ x) (take-long n xs ys (omega arith) ∙ ap (λ k. xs ++ take k ys) (omega arith))

pub drop-short : (n : ℕ) (xs ys : List ℕ) → n ≤ length xs → drop n (xs ++ ys) ≡ drop n xs ++ ys
drop-short zero xs ys h = refl
drop-short (suc n) [] ys h = absurd (omega arith)
drop-short (suc n) (x ∷ xs) ys h = drop-short n xs ys (omega arith)

pub drop-long :
    (n : ℕ) (xs ys : List ℕ) → length xs ≤ n → drop n (xs ++ ys) ≡ drop (n - length xs) ys
drop-long n [] ys h = ground arith
drop-long zero (x ∷ xs) ys h = absurd (omega arith)
drop-long (suc n) (x ∷ xs) ys h =
    drop-long n xs ys (omega arith) ∙ ap (λ k. drop k ys) (omega arith)

take-nil : (n : ℕ) → take {A = ℕ} n [] ≡ []
take-nil zero = refl
take-nil (suc n) = refl

drop-nil : (n : ℕ) → drop {A = ℕ} n [] ≡ []
drop-nil zero = refl
drop-nil (suc n) = refl

-- Of a buffer's data the part from `offset` on.
drop-take : (k n : ℕ) (xs : List ℕ) → drop k (take n xs) ≡ take (n - k) (drop k xs)
drop-take zero n xs = ap (λ k. take k xs) (omega arith)
drop-take (suc k) zero xs =
    let e : 0 ≡ 0 - suc k = omega arith in ap (λ j. take j (drop (suc k) xs)) e
drop-take (suc k) (suc n) [] = sym (take-nil (suc n - suc k))
drop-take (suc k) (suc n) (x ∷ xs) = drop-take k n xs ∙ ap (λ j. take j (drop k xs)) (omega arith)

pub take-take : (n m : ℕ) (xs : List ℕ) → n ≤ m → take n (take m xs) ≡ take n xs
take-take zero m xs h = refl
take-take (suc n) zero xs h = absurd (omega arith)
take-take (suc n) (suc m) [] h = refl
take-take (suc n) (suc m) (x ∷ xs) h = ap (◌∷◌ x) (take-take n m xs (omega arith))

-- The part of a buffer's data from `offset` on, followed by the other buffers.
pub window :
    (p : Pbuf) (offset : ℕ) (rest : List ℕ)
    → p.len ≤ length p.payload
    → offset ≤ p.len
    → drop offset (take p.len p.payload ++ rest)
      ≡ take (p.len - offset) (drop offset p.payload) ++ rest
window p offset rest h k =
    drop-short offset (take p.len p.payload) rest (omega (arith, length-take p.len p.payload))
    ∙ ap (λ x. x ++ rest) (drop-take offset p.len p.payload)

length-window :
    (p : Pbuf) (offset : ℕ)
    → p.len ≤ length p.payload
    → length (take (p.len - offset) (drop offset p.payload)) ≡ p.len - offset
length-window p offset h =
    omega
      (arith, length-take (p.len - offset) (drop offset p.payload), length-drop offset p.payload)

module _ (p : Pbuf) (rest : List ℕ) (held : p.len ≤ length p.payload) where
  inside :
      (len offset : ℕ)
      → offset ≤ p.len
      → len ≤ p.len - offset
      → take len (drop offset p.payload) ≡ take len (drop offset (take p.len p.payload ++ rest))
  inside len offset h k = rw (window p offset rest held h) (
      sym (
        take-short len _ rest (omega (arith, length-window p offset held))
        ∙ take-take len (p.len - offset) (drop offset p.payload) k))

  across :
      (len offset : ℕ)
      → offset ≤ p.len
      → p.len - offset ≤ len
      → take (p.len - offset) (drop offset p.payload) ++ take (len - (p.len - offset)) rest
        ≡ take len (drop offset (take p.len p.payload ++ rest))
  across len offset h k = rw (window p offset rest held h) (
      sym (
        take-long len _ rest (omega (arith, length-window p offset held))
        ∙ ap (λ j. take (p.len - offset) (drop offset p.payload) ++ take (len - j) rest)
            (length-window p offset held)))

  beyond :
      (len offset : ℕ)
      → p.len ≤ offset
      → take len (drop (offset - p.len) rest)
        ≡ take len (drop offset (take p.len p.payload ++ rest))
  beyond len offset h = ap (take len) (
      sym (
        drop-long offset (take p.len p.payload) rest (omega (arith, length-take p.len p.payload))
        ∙ ap (λ j. drop (offset - j) rest) (omega (arith, length-take p.len p.payload))))

sub16_self : (n : ℕ) → sub16 n n ≡ 0
sub16_self n = omega arith

copied :
    (c : List Pbuf) (len offset : ℕ)
    → IsPacket c
    → len < 2 ^ 16
    → offset < 2 ^ 16
    → (copy_loop c len offset).1 ≡ take len (drop offset (content c))
unfolding copy_loop
copied [] len offset h k m = sym (ap (take len) (drop-nil offset) ∙ take-nil len)
copied (p ∷ r) len offset h k m = elim (Bool-cases (len == 0)) [
  | inl none_left ↦
      let e : len ≡ 0 = ground arith in
      rw (none_left) (ap (λ j. take j (drop offset (content (p ∷ r)))) (sym e))
  | inr some_left ↦ elim (Bool-cases (not (offset == 0) && leb p.len offset)) [
    | inl past ↦
        let g : p.len ≤ offset = ground arith in
        rw (some_left, past)
          (copied r len (sub16 offset p.len) h.3 k (omega arith)
            ∙ ap (λ j. take len (drop j (content r))) (omega arith)
            ∙ beyond p (content r) h.0 len offset g)
    | inr here ↦
        let g : offset ≤ p.len = ground arith in
        let avail : sub16 p.len offset ≡ p.len - offset = omega (arith, h.1, h.2) in
        elim (Bool-cases (ltb len (sub16 p.len offset))) [
          | inl short ↦
              let fits : len ≤ p.len - offset = ground arith in
              let rest : (copy_loop r (sub16 len len) 0).1 ≡ [] =
                copied r (sub16 len len) 0 h.3 (omega arith) (omega arith)
                ∙ ap (λ j. take j (content r)) (sub16_self len) in
              rw (some_left, here, short, rest, append-nil (take len (drop offset p.payload)))
                (inside p (content r) h.0 len offset g fits)
          | inr long ↦
              let over : p.len - offset ≤ len = ground arith in
              let left : sub16 len (sub16 p.len offset) ≡ len - (p.len - offset) =
                omega (arith, h.1, h.2) in
              rw
                (
                  some_left,
                  here,
                  long,
                  copied r (sub16 len (sub16 p.len offset)) 0 h.3 (omega arith) (omega arith),
                  left,
                  avail,
                )
                (across p (content r) h.0 len offset g over)
        ]
  ]
]

sum :
    (n len : ℕ) (xs : List ℕ) (total : ℕ) (rest : List ℕ)
    → total ≡ length rest
    → length rest ≤ sub16 len n
    → len < 2 ^ 16
    → n ≤ len
    → n ≤ length xs
    → u16 (n + total) ≡ length (take n xs ++ rest)
sum n len xs total rest e h k m g =
    omega (arith, e, h, k, m, g, length-append (take n xs) rest, length-take n xs)

copied-length :
    (c : List Pbuf) (len offset : ℕ)
    → IsPacket c
    → len < 2 ^ 16
    → offset < 2 ^ 16
    → length (copy_loop c len offset).1 ≤ len
copied-length c len offset h k m =
    rw (copied c len offset h k m) (omega (arith, length-take len (drop offset (content c))))

copied_total :
    (c : List Pbuf) (len offset : ℕ)
    → IsPacket c
    → len < 2 ^ 16
    → offset < 2 ^ 16
    → (copy_loop c len offset).0 ≡ length (copy_loop c len offset).1
unfolding copy_loop
copied_total [] len offset h k m = refl
copied_total (p ∷ r) len offset h k m = elim (Bool-cases (len == 0)) [
  | inl none_left ↦ rw (none_left)
  | inr some_left ↦ elim (Bool-cases (not (offset == 0) && leb p.len offset)) [
    | inl past ↦ rw (some_left, past) (copied_total r len (sub16 offset p.len) h.3 k (omega arith))
    | inr here ↦
        let g : offset ≤ p.len = ground arith in
        let avail : sub16 p.len offset ≡ p.len - offset = omega (arith, h.1, h.2) in
        let n : copy_len len p.len offset ≡ min len (p.len - offset) = ground arith in
        let bound : sub16 len (copy_len len p.len offset) < 2 ^ 16 = omega arith in
        rw (some_left, here)
          (sum (copy_len len p.len offset) len (drop offset p.payload)
            (copy_loop r (sub16 len (copy_len len p.len offset)) 0).0
            (copy_loop r (sub16 len (copy_len len p.len offset)) 0).1
            (copied_total r (sub16 len (copy_len len p.len offset)) 0 h.3 bound (omega arith))
            (copied-length r (sub16 len (copy_len len p.len offset)) 0 h.3 bound (omega arith)) k
            (omega (arith, n)) (omega (arith, n, length-drop offset p.payload, h.0)))
  ]
]

-- `pbuf_copy_partial` hands out the bytes from `offset` on, up to `len` of them, wherever the
-- boundaries of the buffers lie, and returns how many there were.
pub pbuf_copy_partial-content :
    (c : List Pbuf) (len offset : ℕ)
    → IsPacket c
    → len < 2 ^ 16
    → offset < 2 ^ 16
    → ((pbuf_copy_partial c len offset).1 ≡ take len (drop offset (content c)))
      × ((pbuf_copy_partial c len offset).0 ≡ length (take len (drop offset (content c))))
unfolding pbuf_copy_partial
pbuf_copy_partial-content c len offset h k m = (
  copied c len offset h k m,
  copied_total c len offset h k m ∙ ap length (copied c len offset h k m),
)
