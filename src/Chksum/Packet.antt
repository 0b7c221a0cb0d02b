-- ===== src/Chksum/Packet.antt =====
-- The checksum of a chain of buffers is that of its bytes, wherever the buffers begin and end.
use qladder.Prelude.{
  ℕ, ◌+◌, ◌-◌, ◌*◌, ◌%◌, ◌^◌, ◌<◌, ◌≡◌, inl, inr, refl, sym, List, [], ◌∷◌, ◌++◌, append-nil,
  append_assoc, Bool, true, false, not, u32, ◌==◌, if◌then◌else◌, length, length-append,
  length-take, take, arith, Bool-cases,
}
use qladder.Pbuf.{Pbuf}
use qladder.Pbuf.Content.{content, IsPacket}
use qladder.Chksum.{
  fold, swap_bytes, lwip_standard_chksum, inet_chksum, chain_loop, chain_chksum, inet_chksum_pbuf,
}
use qladder.Chksum.Sum.{
  total, AreBytes, Same, Same-refl, Same-trans, Same-sym, Same-add, Same-mul, Same-fold, Same-of_eq,
  Same-eq, Sums, swap-Sums, total-append_even, total-append_odd, lwip_standard_chksum-Sums,
}

-- The bytes of `bytes`, summed with the first in the high half if `swapped`.
abbrev pub halves : Bool → ℕ → ℕ
halves false n = n
halves true n = 256 * n

abbrev parity : ℕ → Bool
parity n = not (n % 2 == 0)

-- One fold of a sum of two numbers of 16 bits.
fold_once : (a b n : ℕ) → a < 2 ^ 16 → Sums b n → Sums (fold (u32 (a + b))) (a + n)
fold_once a b n h k =
    let e : u32 (a + b) ≡ a + b = omega (arith, h, k.0) in
    rw e (
      ground (arith, h, k.0),
      Same-trans (fold (a + b)) (a + b) (a + n) (Same-fold (a + b) (omega (arith, h, k.0)))
          (Same-add a a b n (Same-refl a) k.1),
    )

twice : (n : ℕ) → Same (256 * (256 * n)) n
twice n = ground arith

regroup : (a b : ℕ) → Same (256 * (a + 256 * b)) (256 * a + b)
regroup a b = ground arith

-- The bytes of one more buffer join the sum in the halves that their position asks for.
join :
    (swapped : Bool) (done bytes : List ℕ) (acc : ℕ)
    → parity (length done) ≡ swapped
    → Same acc (halves swapped (total done))
    → Same (acc + total bytes) (halves swapped (total (done ++ bytes)))
join false done bytes acc e h =
    let even : length done % 2 ≡ 0 = ground arith in
    Same-trans (acc + total bytes) (total done + total bytes) (total (done ++ bytes))
      (Same-add acc (total done) (total bytes) (total bytes) h (Same-refl (total bytes)))
      (Same-of_eq _ _ (sym (total-append_even done bytes even)))
join true done bytes acc e h =
    let odd : length done % 2 ≡ 1 = ground arith in
    Same-trans (acc + total bytes) (256 * total done + total bytes) (256 * total (done ++ bytes))
      (Same-add acc (256 * total done) (total bytes) (total bytes) h (Same-refl (total bytes)))
      (Same-sym (256 * total (done ++ bytes)) (256 * total done + total bytes) (
        Same-trans (256 * total (done ++ bytes)) (256 * (total done + 256 * total bytes)) _
          (Same-mul (total (done ++ bytes)) (total done + 256 * total bytes)
            (total-append_odd done bytes odd))
          (regroup (total done) (total bytes))))

turned : (swapped : Bool) (n : ℕ) → Same (256 * halves swapped n) (halves (not swapped) n)
turned false n = Same-refl (256 * n)
turned true n = twice n

AreBytes-left : (xs ys : List ℕ) → AreBytes (xs ++ ys) → AreBytes xs
AreBytes-left [] ys h = tt
AreBytes-left (x ∷ xs) ys h = (h.0, AreBytes-left xs ys h.1)

AreBytes-right : (xs ys : List ℕ) → AreBytes (xs ++ ys) → AreBytes ys
AreBytes-right [] ys h = h
AreBytes-right (x ∷ xs) ys h = AreBytes-right xs ys h.1

parity_even :
    (swapped : Bool) (n k : ℕ) → parity n ≡ swapped → (k % 2 == 0) ≡ true → parity (n + k) ≡ swapped
parity_even false n k e h = ground arith
parity_even true n k e h = ground arith

parity_odd :
    (swapped : Bool) (n k : ℕ)
    → parity n ≡ swapped
    → (k % 2 == 0) ≡ false
    → parity (n + k) ≡ not swapped
parity_odd false n k e h = ground arith
parity_odd true n k e h = ground arith

-- The sum so far of the bytes `done`.
abbrev Reached : ℕ × Bool → List ℕ → Type 0
Reached x done = Sums x.0 (halves x.1 (total done))

module _ (odd : Pbuf → Bool) where
  loop-Reached :
      (c : List Pbuf) (acc : ℕ) (swapped : Bool) (done : List ℕ)
      → IsPacket c
      → AreBytes (content c)
      → length (content c) < 2 ^ 16 - 1
      → parity (length done) ≡ swapped
      → Reached (acc, swapped) done
      → Reached (chain_loop odd acc swapped c) (done ++ content c)
  unfolding chain_loop
  loop-Reached [] acc swapped done h b k e s = rw (append-nil done) s
  loop-Reached (q ∷ r) acc swapped done h b k e s =
      let bytes : List ℕ = take q.len q.payload in
      let len : length bytes ≡ q.len = omega (arith, h.0, length-take q.len q.payload) in
      let sizes : length (content (q ∷ r)) ≡ length bytes + length (content r) =
        length-append bytes (content r) in
      let chk =
        lwip_standard_chksum-Sums (odd q) bytes (AreBytes-left bytes (content r) b)
          (omega (arith, sizes, k)) in
      let acc1 : ℕ = fold (u32 (acc + lwip_standard_chksum (odd q) bytes)) in
      let one = fold_once acc (lwip_standard_chksum (odd q) bytes) (total bytes) s.0 chk in
      let sum : Sums acc1 (halves swapped (total (done ++ bytes))) =
        (one.0, Same-trans acc1 (acc + total bytes) _ one.1 (join swapped done bytes acc e s.1)) in
      let next : List ℕ = done ++ bytes in
      let total_len : length next ≡ length done + length bytes = length-append done bytes in
      let tail = AreBytes-right bytes (content r) b in
      rw (sym (append_assoc done bytes (content r))) (elim (Bool-cases (q.len % 2 == 0)) [
        | inl even ↦ rw even (
            loop-Reached r acc1 swapped (done ++ bytes) h.3 tail (omega (arith, sizes, k))
              (rw (total_len, len) (parity_even swapped (length done) q.len e even)) sum)
        | inr uneven ↦ rw uneven (
            loop-Reached r (swap_bytes acc1) (not swapped) (done ++ bytes) h.3 tail
              (omega (arith, sizes, k))
              (rw (total_len, len) (parity_odd swapped (length done) q.len e uneven))
              (swap-Sums acc1 (halves swapped (total (done ++ bytes))) _ sum
                (turned swapped (total (done ++ bytes)))))
      ])

  unswapped :
      (swapped : Bool) (acc n : ℕ)
      → Sums acc (halves swapped n)
      → Sums (if swapped then swap_bytes acc else acc) n
  unswapped false acc n h = h
  unswapped true acc n h = swap-Sums acc (256 * n) n h (twice n)

  pub chain_chksum-Sums :
      (c : List Pbuf)
      → IsPacket c
      → AreBytes (content c)
      → length (content c) < 2 ^ 16 - 1
      → Sums (chain_chksum odd c) (total (content c))
  unfolding chain_chksum
  chain_chksum-Sums c h b k =
      unswapped (chain_loop odd 0 false c).1 (chain_loop odd 0 false c).0 (total (content c))
        (loop-Reached c 0 false [] h b k refl (omega arith, Same-refl 0))

  -- However a packet of fewer than 65535 bytes is cut into buffers, and at whatever addresses they
  -- begin, `inet_chksum_pbuf` is the checksum that `inet_chksum` gives for its bytes in one piece.
  pub inet_chksum_pbuf-content :
      (c : List Pbuf) (at_odd : Bool)
      → IsPacket c
      → AreBytes (content c)
      → length (content c) < 2 ^ 16 - 1
      → inet_chksum_pbuf odd c ≡ inet_chksum at_odd (content c)
  unfolding inet_chksum_pbuf inet_chksum
  inet_chksum_pbuf-content c at_odd h b k =
      let s = chain_chksum-Sums c h b k in
      let t = lwip_standard_chksum-Sums at_odd (content c) b k in
      let same : chain_chksum odd c ≡ lwip_standard_chksum at_odd (content c) =
        Same-eq _ _ (Same-trans _ (total (content c)) _ s.1 (Same-sym _ _ t.1)) s.0 t.0 in
      omega (arith, same, s.0)
