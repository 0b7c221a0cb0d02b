-- ===== src/Tcp/Queue/Sorted.antt =====
-- Queuing a segment keeps the queue in order, without overlaps, and its bytes those of the stream.
use qladder.Prelude.{
  ℕ, ◌+◌, ◌-◌, ◌^◌, ◌≤◌, ◌<◌, ◌≡◌, ◌⊎◌, inl, inr, refl, ap, sym, ◌∙◌, List, [], ◌∷◌, Option, none,
  some, ◌>>=◌, Gives, >>=-Gives, if-Gives, Bool, true, false, arith, u16, u32, sub32, ltb,
  Bool-cases,
}
use qladder.Pbuf.Content.{content}
use qladder.Tcp.{Segment, tcplen_of, seq_gt, seq_geq}
use qladder.Tcp.Stream.{IsPart, not-Carries}
use qladder.Tcp.Queue.{covered_loop, trim_to_next, tcp_oos_insert_segment}
use qladder.Tcp.Queue.Cut.{IsCut, cut-IsCut}

module _ (s : ℕ → Option ℕ) where
  -- From `lo` to `right`: each segment begins where the one before it ends, or later, and one with
  -- FIN is the last.
  abbrev pub IsQueue : ℕ → ℕ → List Segment → Type 0
  IsQueue lo right [] = Unit {0}
  IsQueue lo right (g ∷ r) =
      (lo ≤ g.seqno)
      × (g.seqno + tcplen_of g ≤ right)
      × IsPart s g
      × ((g.fin ≡ false) ⊎ (r ≡ []))
      × IsQueue (g.seqno + tcplen_of g) right r

  pub IsQueue-lower :
      (lo lo' right : ℕ) (q : List Segment) → lo' ≤ lo → IsQueue lo right q → IsQueue lo' right q
  IsQueue-lower lo lo' right [] h k = tt
  IsQueue-lower lo lo' right (g ∷ r) h k = (omega (arith, k.0), k.1, k.2, k.3, k.4)

  pub plain_len : (g : Segment) → IsPart s g → g.fin ≡ false → tcplen_of g ≡ g.len
  plain_len g part e = rw (e, part.no_syn) (omega arith)

  pub fin_len : (g : Segment) → g.fin ≡ true → tcplen_of g ≡ g.len + 1
  fin_len g e = rw e refl

  pub len_le : (g : Segment) → g.len ≤ tcplen_of g
  len_le g = omega arith

  -- What is left of a queue behind the segments that end at `g`'s end or before: a FIN seen is the
  -- stream's end where `g` ends, and nothing is left behind it.
  abbrev pub IsCovered : Segment → ℕ → Bool → List Segment → Type 0
  IsCovered g right fin rest =
      ((fin ≡ false) ⊎ ((rest ≡ []) × (s (g.seqno + g.len) ≡ none) × (g.seqno + g.len + 1 ≤ right)))
      × IsQueue g.seqno right rest

  pub ends_before :
      (a b base : ℕ)
      → base ≤ a
      → base ≤ b
      → a ≤ base + 2 ^ 17
      → b ≤ base + 2 ^ 17
      → a < 2 ^ 32
      → b < 2 ^ 32
      → ((seq_geq a b ≡ true) × (b ≤ a)) ⊎ ((seq_geq a b ≡ false) × (a < b))
  ends_before a b base h k l m n o = ground arith

  -- A FIN at `next`'s end, with `g` reaching that far, is where `g` ends.
  pub same_end :
      (g next : Segment) (right : ℕ)
      → IsPart s g
      → IsPart s next
      → next.fin ≡ true
      → g.seqno ≤ next.seqno
      → next.seqno + next.len ≤ g.seqno + g.len
      → next.seqno + tcplen_of next ≤ right
      → (s (g.seqno + g.len) ≡ none) × (g.seqno + g.len + 1 ≤ right)
  same_end g next right part next_part fin h k l = elim next_part.end [
    | inl not_last ↦ absurd (ground arith)
    | inr stop ↦ elim (Bool-cases (ltb (next.seqno + next.len) (g.seqno + g.len))) [
      | inl inside ↦ absurd (
          not-Carries s g.seqno (next.seqno + next.len) (content g.p) part.bytes stop (omega arith)
            (ground (arith, part.size)))
      | inr at_end ↦
          let e : next.seqno + next.len ≡ g.seqno + g.len = ground arith in
          (ap s (sym e) ∙ stop, omega (arith, e, l, fin_len next fin))
    ]
  ]

  covered_loop-IsCovered :
      (g : Segment) (right lo : ℕ) (q : List Segment)
      → IsPart s g
      → g.seqno ≤ lo
      → right < g.seqno + 2 ^ 16
      → right < 2 ^ 32
      → IsQueue lo right q
      → let x = covered_loop (g.seqno + g.len) q in IsCovered g right x.0 x.1
  unfolding covered_loop
  covered_loop-IsCovered g right lo [] part h near top k = (inl refl, tt)
  covered_loop-IsCovered g right lo (next ∷ r) part h near top k =
      let end : u32 (next.seqno + next.len) ≡ next.seqno + next.len =
        omega (arith, k.1, len_le next) in
      let rest =
        covered_loop-IsCovered g right (next.seqno + tcplen_of next) r part (omega (arith, k.0))
          near top k.4 in
      elim (ends_before (g.seqno + g.len) (next.seqno + next.len) g.seqno (omega arith)
        (omega (arith, k.0)) (omega (arith, part.short, len_le g)) (omega (arith, k.1, len_le next))
        (omega (arith, part.place, len_le g)) (omega (arith, k.1, len_le next))) [
          | inl (does, before) ↦
              rw (end, does)
                (elim k.3 [
                  | inl more ↦ rw more rest
                  | inr last ↦ rw last (elim (Bool-cases next.fin) [
                    | inl fin ↦
                        let (stop, room) =
                          same_end g next right part k.2 fin (omega (arith, k.0)) before k.1 in
                        rw fin (inr (refl, stop, room), tt)
                    | inr none_seen ↦ rw none_seen (inl refl, tt)
                  ])
                ])
          | inr (does_not, beyond) ↦
              rw (end, does_not) (inl refl, IsQueue-lower lo g.seqno right (next ∷ r) h k)
        ]

  -- A segment that gets the FIN of one that it covers.
  pub fin-IsPart :
      (g : Segment) (fin : Bool)
      → IsPart s g
      → g.fin ≡ false
      → (fin ≡ false)
        ⊎ ((s (g.seqno + g.len) ≡ none) × (g.seqno + g.len + 1 < 2 ^ 32) × (g.len + 1 < 2 ^ 16))
      → IsPart s (record g { fin = fin })
  fin-IsPart g false part e h =
      let l : tcplen_of (record g { fin = false }) ≡ g.len = rw part.no_syn (omega arith) in
      record {
        packet = part.packet;
        buffers = part.buffers;
        size = part.size;
        bytes = part.bytes;
        end = inl refl;
        no_syn = part.no_syn;
        short = omega (arith, l, part.short, len_le g);
        place = omega (arith, l, part.place, len_le g);
      }
  fin-IsPart g true part e (inl h) = absurd (ground arith)
  fin-IsPart g true part e (inr h) = record {
    packet = part.packet;
    buffers = part.buffers;
    size = part.size;
    bytes = part.bytes;
    end = inr h.0;
    no_syn = part.no_syn;
    short = h.2;
    place = omega (arith, h.1);
  }

  pub goes_past :
      (a b base : ℕ)
      → base ≤ a
      → base ≤ b
      → a ≤ base + 2 ^ 17
      → b ≤ base + 2 ^ 17
      → a < 2 ^ 32
      → b < 2 ^ 32
      → ((seq_gt a b ≡ true) × (b < a)) ⊎ ((seq_gt a b ≡ false) × (a ≤ b))
  goes_past a b base h k l m n o = ground arith

  -- A segment cut to end where `end` is.
  pub cut_before :
      (lo right end : ℕ) (g c : Segment) (r : List Segment)
      → lo ≤ g.seqno
      → g.seqno ≤ end
      → end ≤ right
      → IsCut s (end - g.seqno) g c
      → IsQueue end right r
      → IsQueue lo right (c ∷ r)
  cut_before lo right end g c r h k l (part, seqno, len, fin) q =
      let at : c.seqno + tcplen_of c ≡ end = omega (arith, plain_len c part fin, seqno, len, k) in
      (omega (arith, seqno, h), omega (arith, at, l), part, inl fin, rw at q)

  -- The segment goes in front of what is left, cut where that begins.
  insert_covered :
      (g : Segment) (right lo : ℕ) (fin : Bool) (rest : List Segment)
      → IsPart s g
      → g.fin ≡ false
      → lo ≤ g.seqno
      → right < g.seqno + 2 ^ 16
      → right < 2 ^ 32
      → g.seqno + g.len ≤ right
      → IsCovered g right fin rest
      → Gives
          (IsQueue lo right)
          (trim_to_next g.seqno (record g { fin = fin }) rest >>= λ c. some (c ∷ rest))
  unfolding trim_to_next
  insert_covered g right lo false [] part e h near top fits cov =
      let new = fin-IsPart g false part e (inl refl) in
      let l = plain_len (record g { fin = false }) new refl in
      (h, omega (arith, l, fits), new, inr refl, tt)
  insert_covered g right lo true [] part e h near top fits (inl nothing, q) = absurd (ground arith)
  insert_covered g right lo true [] part e h near top fits (inr seen, q) =
      let new =
        fin-IsPart g true part e
          (inr (seen.1, omega (arith, seen.2, top), omega (arith, seen.2, near))) in
      (h, omega (arith, seen.2), new, inr refl, tt)
  insert_covered g right lo true (next ∷ r) part e h near top fits (inl nothing, q) =
      absurd (ground arith)
  insert_covered g right lo fin (next ∷ r) part e h near top fits (inr seen, q) =
      absurd (ground (arith, seen.0))
  insert_covered g right lo false (next ∷ r) part e h near top fits (inl nothing, q) =
      let new = fin-IsPart g false part e (inl refl) in
      let end : u32 (g.seqno + g.len) ≡ g.seqno + g.len = omega (arith, fits, top) in
      elim (goes_past (g.seqno + g.len) next.seqno g.seqno (omega arith) (omega (arith, q.0))
        (omega (arith, fits, near)) (omega (arith, q.1, near)) (omega (arith, fits, top))
        (omega (arith, q.1, top))) [
          | inl (past, over) ↦
              let k : u16 (sub32 next.seqno g.seqno) ≡ next.seqno - g.seqno =
                omega (arith, q.0, over, fits, near, top) in
              rw (end, past, k)
                (>>=-Gives (IsCut s (next.seqno - g.seqno) (record g { fin = false }))
                  (IsQueue lo right) _ _
                  (cut-IsCut s (next.seqno - g.seqno) (record g { fin = false }) new refl
                    (omega (arith, over)))
                  λ c cutting.
                    cut_before lo right next.seqno g c (next ∷ r) h (omega (arith, q.0))
                      (omega (arith, q.1)) cutting (omega arith, q.1, q.2, q.3, q.4))
          | inr (short, before) ↦
              let l = plain_len (record g { fin = false }) new refl in
              rw (end, short)
                (
                  h,
                  omega (arith, l, fits),
                  new,
                  inl refl,
                  (omega (arith, l, before), q.1, q.2, q.3, q.4),
                )
        ]

  pub tcp_oos_insert_segment-IsQueue :
      (g : Segment) (right lo : ℕ) (q : List Segment)
      → IsPart s g
      → lo ≤ g.seqno
      → right < g.seqno + 2 ^ 16
      → right < 2 ^ 32
      → g.seqno + tcplen_of g ≤ right
      → IsQueue g.seqno right q
      → Gives (IsQueue lo right) (tcp_oos_insert_segment g.seqno g q)
  unfolding tcp_oos_insert_segment
  tcp_oos_insert_segment-IsQueue g right lo q part h near top fits k =
      if-Gives (IsQueue lo right) g.fin _ _ (λ last. (h, fits, part, inr refl, tt))
        λ more.
          let end : u32 (g.seqno + g.len) ≡ g.seqno + g.len = omega (arith, fits, top, len_le g) in
          rw end (
            insert_covered g right lo _ _ part more h near top (omega (arith, fits, len_le g))
              (covered_loop-IsCovered g right g.seqno q part (omega arith) near top k))
