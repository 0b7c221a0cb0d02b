-- ===== src/Tcp/Stream.antt =====
-- The peer's stream, and segments that carry a part of it.
use qladder.Prelude.{
  ℕ, zero, suc, ◌+◌, ◌^◌, ◌≤◌, ◌<◌, ◌≡◌, ◌⊎◌, inl, inr, ap, sym, ◌∙◌, List, [], ◌∷◌, ◌++◌, Option,
  none, some, false, length, take, drop, ltb, Bool-cases, arith,
}
use qladder.Pbuf.Content.{content, IsPacket}
use qladder.Tcp.{Segment, tcplen_of}

none≢some {ℓ} : {A : Type ℓ} {a : A} → none ≡ some a → ⊥
none≢some h = ground arith

-- `s` gives the byte at a sequence number; `none` where the stream has ended.
module _ (s : ℕ → Option ℕ) where
  -- The bytes are those of the stream from `n` on.
  abbrev pub Carries : ℕ → List ℕ → Type 0
  Carries n [] = Unit {0}
  Carries n (b ∷ r) = (s n ≡ some b) × Carries (n + 1) r

  pub Carries-append :
      (n : ℕ) (xs ys : List ℕ) → Carries n xs → Carries (n + length xs) ys → Carries n (xs ++ ys)
  Carries-append n [] ys h k = let e : n + 0 ≡ n = omega arith in rw e at k
  Carries-append n (x ∷ xs) ys h k =
      let e : n + suc (length xs) ≡ n + 1 + length xs = omega arith in
      (h.0, Carries-append (n + 1) xs ys h.1 (rw e at k))

  pub Carries-take : (n k : ℕ) (xs : List ℕ) → Carries n xs → Carries n (take k xs)
  Carries-take n zero xs h = tt
  Carries-take n (suc k) [] h = tt
  Carries-take n (suc k) (x ∷ xs) h = (h.0, Carries-take (n + 1) k xs h.1)

  pub Carries-drop : (n k : ℕ) (xs : List ℕ) → Carries n xs → Carries (n + k) (drop k xs)
  Carries-drop n zero xs h = let e : n + 0 ≡ n = omega arith in rw e h
  Carries-drop n (suc k) [] h = tt
  Carries-drop n (suc k) (x ∷ xs) h =
      let e : n + suc k ≡ n + 1 + k = omega arith in rw e (Carries-drop (n + 1) k xs h.1)

  -- The stream has not ended at a place that is carried.
  pub not-Carries :
      (n m : ℕ) (xs : List ℕ) → Carries n xs → s m ≡ none → n ≤ m → m < n + length xs → ⊥
  not-Carries n m [] h e l k = omega arith
  not-Carries n m (x ∷ xs) h e l k = elim (Bool-cases (ltb n m)) [
    | inl later ↦ not-Carries (n + 1) m xs h.1 e (ground arith) (omega arith)
    | inr here ↦ let same : n ≡ m = ground arith in none≢some (sym e ∙ ap s (sym same) ∙ h.0)
  ]

  -- A segment without SYN whose buffers hold its part of the stream.
  pub record IsPart (g : Segment) : Type 0 where
    pub packet : IsPacket g.p
    pub buffers : 0 < length g.p
    pub size : length (content g.p) ≡ g.len
    pub bytes : Carries g.seqno (content g.p)
    pub end : (g.fin ≡ false) ⊎ (s (g.seqno + g.len) ≡ none)
    pub no_syn : g.syn ≡ false
    pub short : tcplen_of g < 2 ^ 16
    pub place : g.seqno + tcplen_of g < 2 ^ 32
