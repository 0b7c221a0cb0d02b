-- ===== src/Chksum/Sum.antt =====
-- The checksum of a run of bytes is their sum in ones' complement, wherever they begin.
use qladder.Prelude.{
  ℕ, ◌+◌, ◌-◌, ◌*◌, ◌/◌, ◌%◌, ◌^◌, ◌≤◌, ◌<◌, ◌≡◌, ◌⊎◌, refl, List, [], ◌∷◌, ◌++◌, Bool, true, false,
  u16, u32, length, length-append, ◌∙◌, arith,
}
use qladder.Chksum.{
  fold, swap_bytes, bulk, end_bytes, aligned_chksum, lwip_standard_chksum, inet_chksum,
}

-- The sum of the bytes' little-endian words, a last byte being the low one.
abbrev pub total : List ℕ → ℕ
total [] = 0
total (a ∷ []) = a
total (a ∷ b ∷ r) = a + 256 * b + total r

abbrev pub AreBytes : List ℕ → Type 0
AreBytes [] = Unit {0}
AreBytes (b ∷ r) = (b < 256) × AreBytes r

pub AreBytes-append : (xs ys : List ℕ) → AreBytes xs → AreBytes ys → AreBytes (xs ++ ys)
AreBytes-append [] ys h k = k
AreBytes-append (x ∷ xs) ys h k = (h.0, AreBytes-append xs ys h.1 k)

-- Equal as sums in ones' complement: modulo 65535, but 0 stands for 0 only.
abbrev pub Same : ℕ → ℕ → Type 0
Same a b = (a % 65535 ≡ b % 65535) × ((a ≡ 0) × (b ≡ 0) ⊎ (0 < a) × (0 < b))

pub Same-refl : (a : ℕ) → Same a a
Same-refl a = ground arith

pub Same-trans : (a b c : ℕ) → Same a b → Same b c → Same a c
Same-trans a b c h k = ground arith

pub Same-sym : (a b : ℕ) → Same a b → Same b a
Same-sym a b h = ground arith

pub Same-add : (a b c d : ℕ) → Same a b → Same c d → Same (a + c) (b + d)
Same-add a b c d h k = ground arith

pub Same-mul : (a b : ℕ) → Same a b → Same (256 * a) (256 * b)
Same-mul a b h = ground arith

pub Same-fold : (n : ℕ) → n < 2 ^ 32 → Same (fold n) n
Same-fold n h = ground arith

pub Same-swap : (w : ℕ) → w < 2 ^ 16 → Same (swap_bytes w) (256 * w)
Same-swap w h = ground arith

pub Same-of_eq : (a b : ℕ) → a ≡ b → Same a b
Same-of_eq a b e = rw e (Same-refl b)

fold_le : (n : ℕ) → n < 2 ^ 32 → fold n ≤ 131070
fold_le n h = omega arith

fold_small : (n : ℕ) → n ≤ 131070 → fold n < 2 ^ 16
fold_small n h = ground arith

pub Same-eq : (a b : ℕ) → Same a b → a < 2 ^ 16 → b < 2 ^ 16 → a ≡ b
Same-eq a b h k m = ground arith

-- A byte in front moves the others to the other half of their words.
pub total-cons : (a : ℕ) (r : List ℕ) → Same (total (a ∷ r)) (a + 256 * total r)
total-cons a [] = ground arith
total-cons a (b ∷ []) = ground arith
total-cons a (b ∷ c ∷ s) = ground (arith, total-cons c s)

pub total-append_even :
    (xs ys : List ℕ) → length xs % 2 ≡ 0 → total (xs ++ ys) ≡ total xs + total ys
total-append_even [] ys h = omega arith
total-append_even (a ∷ []) ys h = absurd (ground arith)
total-append_even (a ∷ b ∷ r) ys h = omega (arith, total-append_even r ys (omega arith))

pub total-append_odd :
    (xs ys : List ℕ) → length xs % 2 ≡ 1 → Same (total (xs ++ ys)) (total xs + 256 * total ys)
total-append_odd [] ys h = absurd (ground arith)
total-append_odd (a ∷ []) ys h = total-cons a ys
total-append_odd (a ∷ b ∷ r) ys h =
    Same-trans _ (a + 256 * b + (total r + 256 * total ys)) _
      (Same-add (a + 256 * b) (a + 256 * b) (total (r ++ ys)) (total r + 256 * total ys)
        (Same-refl (a + 256 * b)) (total-append_odd r ys (omega arith)))
      (Same-of_eq _ _ (omega arith))

pub total_lt : (bytes : List ℕ) → AreBytes bytes → total bytes ≤ 65535 * length bytes
total_lt [] h = omega arith
total_lt (a ∷ []) h = omega (arith, h.0)
total_lt (a ∷ b ∷ r) h = omega (arith, h.0, h.1.0, total_lt r h.1.1)

bulk-total :
    (sum t : ℕ) (bytes : List ℕ)
    → AreBytes bytes
    → sum + 65536 * length bytes < 2 ^ 32
    → t % 256 ≡ 0
    → (bulk sum bytes).0 + end_bytes t (bulk sum bytes).1 ≡ sum + t + total bytes
unfolding bulk
bulk-total sum t [] h k e = omega arith
bulk-total sum t (a ∷ []) h k e = omega arith
bulk-total sum t (a ∷ b ∷ r) h k e =
    let next : u32 (sum + (a + 256 * b)) ≡ sum + (a + 256 * b) = omega (arith, h.0, h.1.0, k) in
    rw next
      (omega (arith, bulk-total (sum + (a + 256 * b)) t r h.1.1 (omega (arith, h.0, h.1.0, k)) e))

-- A sum that fits in 16 bits and stands for `n`.
abbrev pub Sums : ℕ → ℕ → Type 0
Sums acc n = (acc < 2 ^ 16) × Same acc n

-- Folding twice brings any sum of `u32_t` into 16 bits.
pub fold-Sums : (n : ℕ) → n < 2 ^ 32 → Sums (fold (fold n)) n
fold-Sums n h = (
  fold_small (fold n) (fold_le n h),
  Same-trans (fold (fold n)) (fold n) n (Same-fold (fold n) (omega (arith, fold_le n h)))
      (Same-fold n h),
)

aligned-Sums :
    (t : ℕ) (bytes : List ℕ)
    → AreBytes bytes
    → t % 256 ≡ 0
    → t < 2 ^ 16
    → length bytes < 2 ^ 16 - 1
    → Sums (aligned_chksum t bytes) (t + total bytes)
unfolding aligned_chksum
aligned-Sums t bytes h e k l =
    let sum : (bulk 0 bytes).0 + end_bytes t (bulk 0 bytes).1 ≡ 0 + t + total bytes =
      bulk-total 0 t bytes h (omega arith) e in
    let small : t + total bytes < 2 ^ 32 = omega (arith, total_lt bytes h) in
    let exact : u32 (0 + t + total bytes) ≡ t + total bytes = omega (arith, small) in
    rw (sum, exact) (fold-Sums (t + total bytes) small)

-- A sum with its bytes swapped stands for 256 times what it stood for.
pub swap-Sums : (acc n m : ℕ) → Sums acc n → Same (256 * n) m → Sums (swap_bytes acc) m
swap-Sums acc n m h k = (
  omega arith,
  Same-trans (swap_bytes acc) (256 * acc) m (Same-swap acc h.0)
      (Same-trans (256 * acc) (256 * n) m (Same-mul acc n h.1) k),
)

-- Bytes at an odd address: the first stands in the high half.
shifted : (a : ℕ) (r : List ℕ) → Same (256 * (256 * a + total r)) (total (a ∷ r))
shifted a r =
    Same-trans _ (a + 256 * total r) _ (wrapped a (total r)) (Same-sym _ _ (total-cons a r))
  where
    wrapped : (a n : ℕ) → Same (256 * (256 * a + n)) (a + 256 * n)
    wrapped a n = ground arith

-- For fewer than 65535 bytes, at an even or an odd address, `lwip_standard_chksum` is the ones'
-- complement sum of their words, in 16 bits; no carry is lost.
pub lwip_standard_chksum-Sums :
    (odd : Bool) (bytes : List ℕ)
    → AreBytes bytes
    → length bytes < 2 ^ 16 - 1
    → Sums (lwip_standard_chksum odd bytes) (total bytes)
unfolding lwip_standard_chksum
lwip_standard_chksum-Sums false bytes h k =
    let s = aligned-Sums 0 bytes h refl (omega arith) k in
    let e : u16 (aligned_chksum 0 bytes) ≡ aligned_chksum 0 bytes = omega (arith, s.0) in
    rw e (
      s.0,
      Same-trans _ (0 + total bytes) _ s.1
          (Same-of_eq (0 + total bytes) (total bytes) (omega arith)),
    )
lwip_standard_chksum-Sums true [] h k =
    let s = aligned-Sums 0 [] h refl (omega arith) k in
    let t = swap-Sums (aligned_chksum 0 []) 0 0 s (Same-refl 0) in
    let e : u16 (swap_bytes (aligned_chksum 0 [])) ≡ swap_bytes (aligned_chksum 0 []) =
      omega arith in
    rw e t
lwip_standard_chksum-Sums true (a ∷ r) h k =
    let s = aligned-Sums (256 * a) r h.1 (omega arith) (omega (arith, h.0)) (omega arith) in
    let t =
      swap-Sums (aligned_chksum (256 * a) r) (256 * a + total r) (total (a ∷ r)) s (shifted a r) in
    let e : u16 (swap_bytes (aligned_chksum (256 * a) r))
        ≡ swap_bytes (aligned_chksum (256 * a) r) =
      omega arith in
    rw e t

-- The sum with the complement of a sum of `n` added is all ones.
complement : (acc n sum : ℕ) → Sums acc n → Sums sum (n + (65535 - acc)) → sum ≡ 65535
complement acc n sum h k =
    Same-eq sum 65535
      (Same-trans sum (n + (65535 - acc)) 65535 k.1 (
        Same-trans (n + (65535 - acc)) (acc + (65535 - acc)) 65535
          (Same-add n acc (65535 - acc) (65535 - acc) (Same-sym acc n h.1)
            (Same-refl (65535 - acc)))
          (Same-of_eq _ _ (omega (arith, h.0)))))
      k.0 (omega arith)

-- The receiver's test: bytes of an even number, with their checksum behind them as it is stored in
-- memory, have the checksum 0.
pub inet_chksum_verifies :
    (odd odd' : Bool) (bytes : List ℕ)
    → AreBytes bytes
    → length bytes < 2 ^ 16 - 3
    → length bytes % 2 ≡ 0
    → let c = inet_chksum odd bytes in inet_chksum odd' (bytes ++ (c % 256 ∷ c / 256 ∷ [])) ≡ 0
unfolding inet_chksum
inet_chksum_verifies odd odd' bytes h k even =
    let acc : ℕ = lwip_standard_chksum odd bytes in
    let c : ℕ = 65535 - acc in
    let s = lwip_standard_chksum-Sums odd bytes h (omega arith) in
    let whole : total (bytes ++ (c % 256 ∷ c / 256 ∷ [])) ≡ total bytes + c =
      total-append_even bytes (c % 256 ∷ c / 256 ∷ []) even ∙ omega arith in
    let t =
      lwip_standard_chksum-Sums odd' (bytes ++ (c % 256 ∷ c / 256 ∷ []))
        (AreBytes-append bytes _ h (omega arith, (omega arith, tt)))
        (omega (arith, length-append bytes (c % 256 ∷ c / 256 ∷ []))) in
    let ones = complement acc (total bytes) _ s (rw whole at t) in omega (arith, ones)
