-- ===== src/Pbuf/Shrink.antt =====
-- `pbuf_realloc`: a packet cut to its first bytes.
use qladder.Prelude.{
  ℕ, zero, suc, ◌+◌, ◌-◌, ◌^◌, ◌≤◌, ◌<◌, ◌≡◌, refl, ap, sym, ◌∙◌, List, [], ◌∷◌, ◌++◌, append-nil,
  sub16, ltb, leb, length, length-append, length-take, take, arith, Bool-cases, inl, inr, Option,
  some, none, subst, u16, Bool, true, false, if◌then◌else◌,
}
use qladder.Pbuf.{Pbuf, realloc_loop, pbuf_realloc}
use qladder.Pbuf.Content.{content, IsPacket, take-short, take-long, take-take}

-- `x` is a chain, with what was freed, that holds `bytes`.
abbrev pub Holds : Option (List Pbuf × (ℕ × List Pbuf)) → List ℕ → Type 0
Holds x bytes =
    (c : List Pbuf) × (freed : ℕ × List Pbuf) × (x ≡ some (c, freed))
    × (content c ≡ bytes)
    × IsPacket c

cut :
    (grow d : ℕ) (c : List Pbuf) (rem_len : ℕ)
    → IsPacket c
    → grow + d ≡ 2 ^ 16
    → 0 < d
    → length (content c) ≡ rem_len + d
    → Holds (realloc_loop grow c rem_len) (take rem_len (content c))
unfolding realloc_loop
cut grow d [] rem_len h e pos len = absurd (omega (arith, len, pos))
cut grow d (q ∷ r) rem_len h e pos len =
    let held : length (take q.len q.payload) ≡ q.len =
      omega (arith, h.0, length-take q.len q.payload) in
    let total : q.len + length (content r) ≡ rem_len + d =
      omega (arith, held, len, length-append (take q.len q.payload) (content r)) in
    elim (Bool-cases (ltb q.len rem_len)) [
      | inl go ↦
          let past : q.len < rem_len = ground arith in
          let left : sub16 rem_len q.len ≡ rem_len - q.len = omega (arith, past, total, h.1, h.2) in
          let (c, freed, is_c, bytes, packet) =
            cut grow d r (sub16 rem_len q.len) h.3 e pos (omega (arith, left, total, past)) in
          let size : length (content c) ≡ rem_len - q.len =
            ap length bytes
            ∙ omega (arith, left, length-take (sub16 rem_len q.len) (content r), total) in
          rw (go, is_c)
            (
              _,
              _,
              refl,
              ap (λ x. take q.len q.payload ++ x)
                    (bytes ∙ ap (λ n. take n (content r)) (left ∙ omega (arith, held)))
                  ∙ sym (
                      take-long rem_len (take q.len q.payload) (content r)
                        (omega (arith, held, past))),
              (h.0, omega (arith, size, h.1, h.2, total, e, past), omega arith, packet),
            )
      | inr stop ↦
          let fits : rem_len ≤ q.len = ground arith in
          rw stop (
            _,
            _,
            refl,
            append-nil (take rem_len q.payload)
                ∙ sym (
                    take-short rem_len (take q.len q.payload) (content r)
                      (omega (arith, held, fits))
                    ∙ take-take rem_len q.len q.payload fits),
            (omega (arith, fits, h.0), omega arith, omega (arith, total, h.1, h.2), tt),
          )
    ]

take_all : (n : ℕ) (xs : List ℕ) → length xs ≤ n → take n xs ≡ xs
take_all zero [] h = refl
take_all zero (x ∷ xs) h = absurd (omega arith)
take_all (suc n) [] h = refl
take_all (suc n) (x ∷ xs) h = ap (◌∷◌ x) (take_all n xs (omega arith))

-- `pbuf_realloc` of a packet to any length of `u16_t` ends with a packet that holds its first
-- `new_len` bytes, or all of them if there are fewer; it never runs off the chain.
pub pbuf_realloc-content :
    (p : Pbuf) (r : List Pbuf) (new_len : ℕ)
    → IsPacket (p ∷ r)
    → Holds (pbuf_realloc (p ∷ r) new_len) (take new_len (content (p ∷ r)))
unfolding pbuf_realloc
pbuf_realloc-content p r new_len h =
    let size : length (content (p ∷ r)) ≡ p.tot_len = omega (
      arith,
      h.0,
      h.1,
      length-append (take p.len p.payload) (content r),
      length-take p.len p.payload,
    ) in
    elim (Bool-cases (leb p.tot_len new_len)) [
      | inl long ↦
          let enough : p.tot_len ≤ new_len = ground arith in
          rw long
            (_, _, refl, sym (take_all new_len (content (p ∷ r)) (omega (arith, size, enough))), h)
      | inr less ↦
          let below : new_len < p.tot_len = ground arith in
          rw less (
            cut (sub16 new_len p.tot_len) (p.tot_len - new_len) (p ∷ r) new_len h
              (omega (arith, below, h.2)) (omega (arith, below)) (omega (arith, size, below)))
    ]

-- If there is a chain, it has a buffer.
abbrev NotEmpty : Option (List Pbuf × (ℕ × List Pbuf)) → Type 0
NotEmpty none = Unit {0}
NotEmpty (some r) = 0 < length r.0

pick-NotEmpty :
    (c : Bool) (x y : Option (List Pbuf × (ℕ × List Pbuf)))
    → NotEmpty x
    → NotEmpty y
    → NotEmpty (if c then x else y)
pick-NotEmpty true x y h k = h
pick-NotEmpty false x y h k = k

realloc_loop-NotEmpty :
    (grow : ℕ) (c : List Pbuf) (rem_len : ℕ) → NotEmpty (realloc_loop grow c rem_len)
unfolding realloc_loop
realloc_loop-NotEmpty grow [] rem_len = tt
realloc_loop-NotEmpty grow (q ∷ c) rem_len =
    pick-NotEmpty (ltb q.len rem_len) _ _ (more (realloc_loop grow c (sub16 rem_len q.len)))
      (omega arith)
  where
    more :
        (x : Option (List Pbuf × (ℕ × List Pbuf)))
        → NotEmpty (elim x as (λ y. Option (List Pbuf × (ℕ × List Pbuf))) [
          | none ↦ none
          | some (d, freed) ↦ some (record q { tot_len = u16 (q.tot_len + grow) } ∷ d, freed)
        ])
    more none = tt
    more (some (d, freed)) = omega arith

pbuf_realloc-NotEmpty : (c : List Pbuf) (new_len : ℕ) → NotEmpty (pbuf_realloc c new_len)
unfolding pbuf_realloc
pbuf_realloc-NotEmpty [] new_len = tt
pbuf_realloc-NotEmpty (p ∷ d) new_len =
    pick-NotEmpty (leb p.tot_len new_len) _ _ (omega arith)
      (realloc_loop-NotEmpty (sub16 new_len p.tot_len) (p ∷ d) new_len)

-- `pbuf_realloc` keeps at least one buffer.
pub pbuf_realloc-length :
    (c : List Pbuf) (new_len : ℕ) (r : List Pbuf × (ℕ × List Pbuf))
    → pbuf_realloc c new_len ≡ some r
    → 0 < length r.0
pbuf_realloc-length c new_len r e = subst NotEmpty e (pbuf_realloc-NotEmpty c new_len)
