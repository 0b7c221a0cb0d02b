-- ===== src/Pbuf/Chain.antt =====
-- Joining two chains, and giving up a reference to one.
use qladder.Prelude.{
  ℕ, suc, ◌+◌, ◌^◌, ◌<◌, ◌≡◌, refl, ap, sym, ◌∙◌, List, [], ◌∷◌, ◌++◌, append_assoc, append-nil,
  take, drop, length-take, true, false, ◌-◌, u8, u16, sub16, ◌==◌, length, length-append, arith,
  Bool-cases, inl, inr, if◌then◌else◌,
}
use qladder.Pbuf.{Pbuf, cat_loop, pbuf_cat, pbuf_free, pbuf_ref, pbuf_chain, pbuf_dechain}
use qladder.Pbuf.Content.{content, IsPacket}

content-cat_loop : (n : ℕ) (c t : List Pbuf) → content (cat_loop n c t) ≡ content c ++ content t
unfolding cat_loop
content-cat_loop n [] t = refl
content-cat_loop n (p ∷ r) t = rw (content-cat_loop n r t, append_assoc)

pub length-content :
    (p : Pbuf) (r : List Pbuf)
    → IsPacket (p ∷ r)
    → length (content (p ∷ r)) ≡ p.len + length (content r)
length-content p r h =
    omega
      (arith, h.0, length-append (take p.len p.payload) (content r), length-take p.len p.payload)

step : (n : ℕ) → u8 (u8 n + 1) ≡ u8 (suc n)
step n = omega arith

length-cat_loop :
    (n : ℕ) (c t : List Pbuf)
    → length (content (cat_loop n c t)) ≡ length (content c) + length (content t)
length-cat_loop n c t = ap length (content-cat_loop n c t) ∙ length-append (content c) (content t)

cat_loop-IsPacket :
    (n : ℕ) (c t : List Pbuf)
    → IsPacket c
    → IsPacket t
    → n ≡ length (content t)
    → length (content c) + length (content t) < 2 ^ 16
    → IsPacket (cat_loop n c t)
unfolding cat_loop
cat_loop-IsPacket n [] t h k e fits = k
cat_loop-IsPacket n (p ∷ r) t h k e fits = (
  h.0,
  rw (length-cat_loop n r t) (omega (arith, h.1, e, fits, length-content p r h)),
  omega arith,
  cat_loop-IsPacket n r t h.3 k e (omega (arith, fits, length-content p r h)),
)

-- `pbuf_cat` of two packets whose bytes together number below 2^16 is a packet again, each `tot_len`
-- counting the bytes from its buffer on, and holds the bytes of the first and then the second.
pub pbuf_cat-content :
    (p : Pbuf) (r t : List Pbuf)
    → IsPacket (p ∷ r)
    → IsPacket t
    → length (content (p ∷ r)) + length (content t) < 2 ^ 16
    → (content (pbuf_cat (p ∷ r) t) ≡ content (p ∷ r) ++ content t) × IsPacket (pbuf_cat (p ∷ r) t)
unfolding pbuf_cat
pbuf_cat-content p r [] h k fits = (sym (append-nil _), h)
pbuf_cat-content p r (q ∷ t) h k fits = (
  content-cat_loop q.tot_len (p ∷ r) (q ∷ t),
  cat_loop-IsPacket q.tot_len (p ∷ r) (q ∷ t) h k (k.1 ∙ sym (length-content q t k)) fits,
)

-- How many buffers at the head of a chain have no other reference.
abbrev pub owned : List Pbuf → ℕ
owned [] = 0
owned (p ∷ r) = if p.ref == 1 then suc (owned r) else 0

-- One reference fewer to the first buffer.
abbrev pub released : List Pbuf → List Pbuf
released [] = []
released (p ∷ r) = record p { ref = p.ref - 1 } ∷ r

-- Each buffer of a chain is referenced at least once.
abbrev pub AreReferenced : List Pbuf → Type 0
AreReferenced [] = Unit {0}
AreReferenced (p ∷ r) = (0 < p.ref) × (p.ref < 2 ^ 16) × AreReferenced r

-- On a chain in which each buffer is referenced at least once, `pbuf_free` deallocates exactly the
-- buffers at its head that nothing else references, returns their number as a `u8_t`, takes one
-- reference from the first buffer that stays and leaves the others as they are.
pub pbuf_free-owned :
    (c : List Pbuf) → AreReferenced c → pbuf_free c ≡ (u8 (owned c), released (drop (owned c) c))
unfolding pbuf_free
pbuf_free-owned [] h = refl
pbuf_free-owned (p ∷ r) h = elim (Bool-cases (p.ref == 1)) [
  | inl last ↦
      let gone : (sub16 p.ref 1 == 0) ≡ true = ground arith in
      rw (gone, last, pbuf_free-owned r h.2)
        (ap (λ n. (n, released (drop (owned r) r))) (step (owned r)))
  | inr more ↦
      let stays : (sub16 p.ref 1 == 0) ≡ false = ground arith in
      let less : sub16 p.ref 1 ≡ p.ref - 1 = omega (arith, h.0, h.1) in rw (stays, more, less)
]

-- `pbuf_free` takes back the reference that `pbuf_ref` adds: on a chain whose first buffer is
-- referenced, its counter not at the top of `u16_t`, the chain is as before and nothing is
-- deallocated.
pub pbuf_free-pbuf_ref :
    (p : Pbuf) (r : List Pbuf)
    → 0 < p.ref
    → p.ref + 1 < 2 ^ 16
    → pbuf_free (pbuf_ref (p ∷ r)) ≡ (0, p ∷ r)
unfolding pbuf_free pbuf_ref
pbuf_free-pbuf_ref p r h k =
    let back : sub16 (u16 (p.ref + 1)) 1 ≡ p.ref = omega arith in
    let stays : (p.ref == 0) ≡ false = ground arith in rw (back, stays)

-- `pbuf_dechain` undoes `pbuf_chain`: for a packet of one buffer and a second packet that is
-- referenced, its counter not at the top of `u16_t`, both are as before and nothing is deallocated.
pub pbuf_dechain-pbuf_chain :
    (p q : Pbuf) (t : List Pbuf)
    → IsPacket (p ∷ [])
    → IsPacket (q ∷ t)
    → 0 < q.ref
    → q.ref + 1 < 2 ^ 16
    → pbuf_dechain (pbuf_chain (p ∷ []) (q ∷ t)) ≡ (p ∷ [], 0, q ∷ t)
unfolding pbuf_dechain pbuf_chain cat_loop pbuf_ref pbuf_free
pbuf_dechain-pbuf_chain p q t h k used room =
    let own : p.tot_len ≡ p.len = omega (arith, h.1) in
    let rest : sub16 (u16 (p.tot_len + q.tot_len)) p.len ≡ q.tot_len =
      omega (arith, own, h.2, k.2) in
    let back : sub16 (u16 (q.ref + 1)) 1 ≡ q.ref = omega arith in
    let stays : (q.ref == 0) ≡ false = ground arith in rw (rest, back, stays) (rw (sym own) refl)

-- A reference more changes no bytes.
pub pbuf_ref-content :
    (c : List Pbuf)
    → IsPacket c
    → (content (pbuf_ref c) ≡ content c) × IsPacket (pbuf_ref c) × (length (pbuf_ref c) ≡ length c)
unfolding pbuf_ref
pbuf_ref-content [] h = (refl, tt, refl)
pbuf_ref-content (p ∷ r) h = (refl, h, refl)
