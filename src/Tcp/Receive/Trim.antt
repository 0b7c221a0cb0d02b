-- ===== src/Tcp/Receive/Trim.antt =====
-- Trimming the first edge of a segment.
use qladder.Prelude.{
  ℕ, zero, suc, ◌+◌, ◌-◌, ◌^◌, ◌≤◌, ◌<◌, ◌≡◌, inl, inr, refl, ap, sym, ◌∙◌, subst, List, [], ◌∷◌,
  ◌++◌, Option, Gives, >>=-Gives, if-Gives, length, length-take, length-drop, take, drop, arith,
  u16, sub16, sub32, ltb, leb, ◌==◌,
}
use qladder.Pbuf.{Pbuf}
use qladder.Pbuf.Content.{content, IsPacket, drop-short, drop-long}
use qladder.Pbuf.Chain.{length-content}
use qladder.Tcp.{Segment}
use qladder.Tcp.Stream.{IsPart, Carries, Carries-drop}
use qladder.Tcp.Window.{asserting-Gives}
use qladder.Tcp.Queue.Sorted.{len_le}
use qladder.Tcp.Receive.{pbuf_header_down, skip_buffers, trim_buffers, trim_front}

take_nothing : (k : ℕ) → ◌≡◌ {A = List ℕ} (take k []) []
take_nothing zero = refl
take_nothing (suc k) = refl

drop-take : (n m : ℕ) (xs : List ℕ) → drop n (take m xs) ≡ take (m - n) (drop n xs)
drop-take zero m xs = let e : m ≡ m - 0 = omega arith in ap (λ k. take k xs) e
drop-take (suc n) zero xs =
    let e : 0 ≡ 0 - suc n = omega arith in ap (λ k. take k (drop (suc n) xs)) e
drop-take (suc n) (suc m) [] = sym (take_nothing (suc m - suc n))
drop-take (suc n) (suc m) (x ∷ xs) =
    let e : m - n ≡ suc m - suc n = omega arith in drop-take n m xs ∙ ap (λ k. take k (drop n xs)) e

-- A packet with these bytes, and a buffer.
abbrev HasBytes : List ℕ → List Pbuf → Type 0
HasBytes bytes c = IsPacket c × (content c ≡ bytes) × (0 < length c)

header-HasBytes :
    (off : ℕ) (p : Pbuf) (r : List Pbuf)
    → IsPacket (p ∷ r)
    → off ≤ p.len
    → Gives (HasBytes (drop off (content (p ∷ r)))) (pbuf_header_down off (p ∷ r))
unfolding pbuf_header_down
header-HasBytes off p r h fits =
    if-Gives (HasBytes (drop off (content (p ∷ r)))) (off == 0) _ _
      (λ none_off. let z : off ≡ 0 = ground arith in rw z (h, refl, omega arith))
      (λ some_off.
        asserting-Gives (HasBytes (drop off (content (p ∷ r)))) (leb off p.len) _ (ground arith) (
          (
            omega (arith, h.0, length-drop off p.payload, fits),
            omega (arith, h.1, h.2, fits),
            omega (arith, h.2),
            h.3,
          ),
          ap (λ x. x ++ content r) (sym (drop-take off p.len p.payload))
              ∙ sym (
                  drop-short off (take p.len p.payload) (content r)
                    (omega (arith, fits, h.0, length-take p.len p.payload))),
          omega arith,
        ))

skip-HasBytes :
    (new off : ℕ) (c : List Pbuf)
    → IsPacket c
    → 0 < off
    → off ≤ length (content c)
    → new ≡ length (content c) - off
    → new < 2 ^ 16
    → Gives (HasBytes (drop off (content c))) (skip_buffers new off c)
unfolding skip_buffers
skip-HasBytes new off [] h pos fits e small = absurd (omega arith)
skip-HasBytes new off (p ∷ r) h pos fits e small =
    let size = length-content p r h in
    let held : length (take p.len p.payload) ≡ p.len =
      omega (arith, h.0, length-take p.len p.payload) in
    if-Gives (HasBytes (drop off (content (p ∷ r)))) (ltb p.len off) _ _
      (λ past.
        let over : p.len < off = ground arith in
        >>=-Gives (HasBytes (drop (off - p.len) (content r)))
          (HasBytes (drop off (content (p ∷ r)))) (skip_buffers new (off - p.len) r) _
          (skip-HasBytes new (off - p.len) r h.3 (omega (arith, over)) (omega (arith, size, fits))
            (omega (arith, e, size, over)) small)
          λ r' (packet, bytes, buffers).
            let l : length (content r') ≡ length (content r) - (off - p.len) =
              ap length bytes ∙ length-drop (off - p.len) (content r) in
            (
              (omega arith, omega (arith, e, size, l, over), small, packet),
              bytes
                  ∙ ap (λ n. drop (off - n) (content r)) (sym held)
                  ∙ sym (
                      drop-long off (take p.len p.payload) (content r) (omega (arith, held, over))),
              omega arith,
            ))
      (λ here. header-HasBytes off p r h (ground arith))

trim-HasBytes :
    (off : ℕ) (c : List Pbuf)
    → IsPacket c
    → 0 < length c
    → 0 < off
    → off < 0x7fff
    → off ≤ length (content c)
    → Gives (HasBytes (drop off (content c))) (trim_buffers off c)
unfolding trim_buffers
trim-HasBytes off [] h some_buffer pos sane fits = absurd (omega arith)
trim-HasBytes off (p ∷ r) h some_buffer pos sane fits =
    let size : length (content (p ∷ r)) ≡ p.tot_len = length-content p r h ∙ sym h.1 in
    asserting-Gives (HasBytes (drop off (content (p ∷ r)))) (ltb off 0x7fff) _ (ground arith) (
      if-Gives (HasBytes (drop off (content (p ∷ r)))) (ltb p.len off) _ _
        (λ past.
          asserting-Gives (HasBytes (drop off (content (p ∷ r)))) (leb off p.tot_len) _
            (ground (arith, size))
            (skip-HasBytes (u16 (p.tot_len - off)) off (p ∷ r) h pos fits (omega (arith, size, h.2))
              (omega arith)))
        (λ here. header-HasBytes off p r h (ground arith)))

module _ (s : ℕ → Option ℕ) where
  -- What is left of a segment that begins before `rcv_nxt` and goes on behind it.
  pub trim_front-IsPart :
      (rcv_nxt : ℕ) (g : Segment)
      → IsPart s g
      → g.seqno < rcv_nxt
      → rcv_nxt ≤ g.seqno + g.len
      → rcv_nxt < g.seqno + 0x7fff
      → Gives (λ c. IsPart s c × (c.seqno ≡ rcv_nxt)) (trim_front g.seqno rcv_nxt g)
  unfolding trim_front
  trim_front-IsPart rcv_nxt g part before reach sane =
      let off : sub32 rcv_nxt g.seqno ≡ rcv_nxt - g.seqno =
        omega (arith, before, reach, part.place, len_le s g) in
      let k : ℕ = rcv_nxt - g.seqno in
      let less : sub16 g.len (u16 k) ≡ g.len - k =
        omega (arith, before, reach, part.short, len_le s g) in
      let at : g.seqno + k ≡ rcv_nxt = omega (arith, before) in
      rw off (
        >>=-Gives (HasBytes (drop k (content g.p))) (λ c. IsPart s c × (c.seqno ≡ rcv_nxt))
          (trim_buffers k g.p) _
          (trim-HasBytes k g.p part.packet part.buffers (omega (arith, before))
            (omega (arith, sane, before)) (omega (arith, part.size, reach, before)))
          λ c (packet, bytes, buffers). (
            record {
              packet = packet;
              buffers = buffers;
              size = ap length bytes ∙ length-drop k (content g.p) ∙ omega (arith, part.size, less);
              bytes = rw bytes (
                  subst (λ n. Carries s n (drop k (content g.p))) at
                    (Carries-drop s g.seqno k (content g.p) part.bytes));
              end = elim part.end [
                | inl more ↦ inl more
                | inr stop ↦
                    let e : rcv_nxt + sub16 g.len (u16 k) ≡ g.seqno + g.len =
                      omega (arith, less, at, reach) in
                    inr (ap s e ∙ stop)
              ];
              no_syn = part.no_syn;
              short = omega (arith, less, part.short);
              place = omega (arith, less, at, part.place, reach);
            },
            refl,
          ))
