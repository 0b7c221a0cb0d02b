-- ===== src/Tcp/Receive/Fit.antt =====
-- A segment in sequence is fitted to the window and to the queue; one that began earlier is trimmed.
use qladder.Prelude.{
  ℕ, ◌+◌, ◌-◌, ◌^◌, ◌≤◌, ◌<◌, ◌≡◌, inl, inr, refl, ap, ◌∙◌, List, [], ◌∷◌, Option, some, ◌>>=◌,
  Gives, >>=-Gives, if-Gives, Bool, true, false, ◌&&◌, ◌||◌, not, if◌then◌else◌, arith, u16, u32,
  sub16, sub32, ltb, ◌==◌, Bool-cases,
}
use qladder.Tcp.{Segment, Pcb, tcplen_of}
use qladder.Tcp.Stream.{IsPart}
use qladder.Tcp.Window.{IsWindow, asserting-Gives}
use qladder.Tcp.Queue.Cut.{IsCut, cut-IsCut}
use qladder.Tcp.Queue.Sorted.{
  IsQueue, IsQueue-lower, IsCovered, plain_len, len_le, goes_past, fin-IsPart, ends_before,
  same_end, cut_before,
}
use qladder.Tcp.Receive.{fit_window, absorb_loop, absorb_trim, absorb}

module _ (s : ℕ → Option ℕ) where
  -- In sequence, and within the window.
  abbrev pub IsFitted : ℕ → ℕ → Segment → Type 0
  IsFitted seqno right c = IsPart s c × (c.seqno ≡ seqno) × (c.seqno + tcplen_of c ≤ right)

  without_fin : (g : Segment) → IsPart s g → IsPart s (record g { fin = false })
  without_fin g part =
      let l : tcplen_of (record g { fin = false }) ≡ g.len = rw part.no_syn (omega arith) in
      record {
        packet = part.packet;
        buffers = part.buffers;
        size = part.size;
        bytes = part.bytes;
        end = inl refl;
        no_syn = part.no_syn;
        short = omega (arith, l, part.short, len_le s g);
        place = omega (arith, l, part.place, len_le s g);
      }

  plain_length : (g : Segment) (n : ℕ) → IsPart s g → (if g.syn then sub16 n 1 else n) ≡ n
  plain_length g n part = rw part.no_syn refl

  pub tcplen_bound : (g : Segment) → IsPart s g → tcplen_of g ≤ g.len + 1
  tcplen_bound g part = bound g.fin g.syn g.len
    where
      bound : (fin syn : Bool) (n : ℕ) → n + (if fin || syn then 1 else 0) ≤ n + 1
      bound true syn n = omega arith
      bound false true n = omega arith
      bound false false n = omega arith

  same_numbers : (a b : ℕ) → a ≡ b → (u32 a == u32 b) ≡ true
  same_numbers a b e = rw e (ground arith)

  pub fit_window-IsFitted :
      (right : ℕ) (pcb : Pcb) (g : Segment)
      → IsWindow right pcb
      → IsPart s g
      → g.seqno ≡ pcb.rcv_nxt
      → Gives (IsFitted g.seqno right) (fit_window g.seqno pcb g)
  unfolding fit_window
  fit_window-IsFitted right pcb g h part e =
      let len : u16 (tcplen_of g) ≡ tcplen_of g = omega (arith, part.short) in
      if-Gives (IsFitted g.seqno right) (ltb pcb.rcv_wnd (u16 (tcplen_of g))) _ _
        (λ over.
          let more : pcb.rcv_wnd < tcplen_of g =
            beyond pcb.rcv_wnd (u16 (tcplen_of g)) (tcplen_of g) over len in
          rw (plain_length g pcb.rcv_wnd part) (
            >>=-Gives (IsCut s pcb.rcv_wnd (record g { fin = false })) (IsFitted g.seqno right) _ _
              (cut-IsCut s pcb.rcv_wnd (record g { fin = false }) (without_fin g part) refl
                (omega (arith, more, tcplen_bound g part)))
              λ c cutting.
                let l : tcplen_of c ≡ pcb.rcv_wnd = plain_len s c cutting.0 cutting.3 ∙ cutting.2 in
                asserting-Gives (IsFitted g.seqno right) _ (some c)
                  (same_numbers _ _ (omega (arith, l, e, h.2)))
                  (cutting.0, cutting.1, omega (arith, l, cutting.1, e, h.0))))
        (λ inside. (
          part,
          refl,
          omega (arith, e, h.0, within pcb.rcv_wnd (u16 (tcplen_of g)) (tcplen_of g) inside len),
        ))
    where
      beyond : (n a b : ℕ) → ltb n a ≡ true → a ≡ b → n < b
      beyond n a b k l = ground arith

      within : (n a b : ℕ) → ltb n a ≡ false → a ≡ b → b ≤ n
      within n a b k l = ground arith

  -- The queue begins behind the segment.
  abbrev pub IsAbsorbed : ℕ → ℕ → Segment × List Segment → Type 0
  IsAbsorbed seqno right x = IsQueue s seqno right (x.0 ∷ x.1) × (x.0.seqno ≡ seqno)

  keep : (g : Segment) → g.fin ≡ false → g ≡ record g { fin = false }
  keep g e = ap (λ b. record g { fin = b }) e

  abbrev IsFittedTo : Segment → ℕ → Segment → Type 0
  IsFittedTo g next c = IsCut s (next - g.seqno) (record g { fin = false }) c

  at_next :
      (g c : Segment) (next : ℕ)
      → IsFittedTo g next c
      → g.seqno ≤ next
      → next < 2 ^ 32
      → (u32 (g.seqno + u16 (tcplen_of c)) == next) ≡ true
  at_next g c next cutting h k =
      let l = plain_len s c cutting.0 cutting.3 in
      same_as _ next (omega (arith, l, cutting.2, cutting.0.short, h, k))
    where
      same_as : (a b : ℕ) → a ≡ b → (a == b) ≡ true
      same_as a b e = ground arith

  absorb_loop-IsCovered :
      (g : Segment) (right lo : ℕ) (q : List Segment)
      → IsPart s g
      → g.fin ≡ false
      → g.seqno ≤ lo
      → right < g.seqno + 2 ^ 16
      → right < 2 ^ 32
      → g.seqno + g.len ≤ right
      → IsQueue s lo right q
      → (fin : Bool) × ((absorb_loop g.seqno g q).0 ≡ record g { fin = fin })
        × IsCovered s g right fin (absorb_loop g.seqno g q).1
  unfolding absorb_loop
  absorb_loop-IsCovered g right lo [] part e h near top fits k = (false, keep g e, (inl refl, tt))
  absorb_loop-IsCovered g right lo (next ∷ r) part e h near top fits k =
      let own : u32 (g.seqno + u16 (tcplen_of g)) ≡ g.seqno + g.len =
        omega (arith, plain_len s g part e, part.short, fits, top) in
      let end : u32 (next.seqno + next.len) ≡ next.seqno + next.len =
        omega (arith, k.1, len_le s next, top) in
      elim (ends_before s (g.seqno + g.len) (next.seqno + next.len) g.seqno (omega arith)
        (omega (arith, k.0, h)) (omega (arith, part.short, len_le s g))
        (omega (arith, k.1, len_le s next, near)) (omega (arith, part.place, len_le s g))
        (omega (arith, k.1, len_le s next, top))) [
          | inl (does, before) ↦
              rw (own, end, does)
                (elim k.3 [
                  | inl more ↦
                      let stays : (next.fin && not g.syn) ≡ false = rw more refl in
                      rw stays (
                        absorb_loop-IsCovered g right (next.seqno + tcplen_of next) r part e
                          (omega (arith, k.0, h)) near top fits k.4)
                  | inr last ↦ rw last (elim (Bool-cases next.fin) [
                    | inl fin ↦
                        let taken : (next.fin && not g.syn) ≡ true = rw (fin, part.no_syn) refl in
                        let (stop, room) =
                          same_end s g next right part k.2 fin (omega (arith, k.0, h)) before k.1 in
                        rw taken (true, refl, (inr (refl, stop, room), tt))
                    | inr none_seen ↦
                        let stays : (next.fin && not g.syn) ≡ false = rw none_seen refl in
                        rw stays (false, keep g e, (inl refl, tt))
                  ])
                ])
          | inr (does_not, beyond) ↦
              rw (own, end, does_not)
                (false, keep g e, (inl refl, IsQueue-lower s lo g.seqno right (next ∷ r) h k))
        ]

  -- The segment, with the FIN that it took over, cut where what is left begins.
  absorb_trim-IsAbsorbed :
      (g : Segment) (right : ℕ) (fin : Bool) (rest : List Segment)
      → IsPart s g
      → g.fin ≡ false
      → right < g.seqno + 2 ^ 16
      → right < 2 ^ 32
      → g.seqno + g.len ≤ right
      → IsCovered s g right fin rest
      → Gives
          (IsAbsorbed g.seqno right)
          (absorb_trim g.seqno (record g { fin = fin }) rest >>= λ c. some (c, rest))
  unfolding absorb_trim
  absorb_trim-IsAbsorbed g right false [] part e near top fits cov =
      let new = fin-IsPart s g false part e (inl refl) in
      (
        (
          omega arith,
          omega (arith, plain_len s (record g { fin = false }) new refl, fits),
          new,
          inr refl,
          tt,
        ),
        refl,
      )
  absorb_trim-IsAbsorbed g right true [] part e near top fits (inl nothing, q) =
      absurd (ground arith)
  absorb_trim-IsAbsorbed g right true [] part e near top fits (inr seen, q) =
      let new =
        fin-IsPart s g true part e
          (inr (seen.1, omega (arith, seen.2, top), omega (arith, seen.2, near))) in
      ((omega arith, omega (arith, seen.2), new, inr refl, tt), refl)
  absorb_trim-IsAbsorbed g right true (next ∷ r) part e near top fits (inl nothing, q) =
      absurd (ground arith)
  absorb_trim-IsAbsorbed g right fin (next ∷ r) part e near top fits (inr seen, q) =
      absurd (ground (arith, seen.0))
  absorb_trim-IsAbsorbed g right false (next ∷ r) part e near top fits (inl nothing, q) =
      let new = fin-IsPart s g false part e (inl refl) in
      let l = plain_len s (record g { fin = false }) new refl in
      let own : u32 (g.seqno + u16 (tcplen_of (record g { fin = false }))) ≡ g.seqno + g.len =
        omega (arith, l, part.short, len_le s g, fits, top) in
      elim (goes_past s (g.seqno + g.len) next.seqno g.seqno (omega arith) (omega (arith, q.0))
        (omega (arith, fits, near)) (omega (arith, q.1, near)) (omega (arith, fits, top))
        (omega (arith, q.1, top))) [
          | inl (past, over) ↦
              let k : u16 (sub32 next.seqno g.seqno) ≡ next.seqno - g.seqno =
                omega (arith, q.0, over, fits, near, top) in
              rw (own, past, plain_length g (u16 (sub32 next.seqno g.seqno)) part, k)
                (>>=-Gives (IsFittedTo g next.seqno) (IsAbsorbed g.seqno right) _ _
                  (>>=-Gives (IsCut s (next.seqno - g.seqno) (record g { fin = false }))
                    (IsFittedTo g next.seqno) _ _
                    (cut-IsCut s (next.seqno - g.seqno) (record g { fin = false }) new refl
                      (omega (arith, over)))
                    λ c cutting.
                      asserting-Gives (IsFittedTo g next.seqno) _ (some c)
                        (at_next g c next.seqno cutting (omega (arith, q.0))
                          (omega (arith, q.1, top)))
                        cutting)
                  λ c cutting. (
                    cut_before s g.seqno right next.seqno g c (next ∷ r) (omega arith)
                        (omega (arith, q.0)) (omega (arith, q.1)) cutting
                        (omega arith, q.1, q.2, q.3, q.4),
                    cutting.1,
                  ))
          | inr (short, before) ↦
              rw (own, short)
                (
                  (
                    omega arith,
                    omega (arith, l, fits),
                    new,
                    inl refl,
                    (omega (arith, l, before), q.1, q.2, q.3, q.4),
                  ),
                  refl,
                )
        ]

  pub absorb-IsAbsorbed :
      (g : Segment) (right : ℕ) (q : List Segment)
      → IsPart s g
      → right < g.seqno + 2 ^ 16
      → right < 2 ^ 32
      → g.seqno + tcplen_of g ≤ right
      → IsQueue s g.seqno right q
      → Gives (IsAbsorbed g.seqno right) (absorb g.seqno g q)
  unfolding absorb
  absorb-IsAbsorbed g right [] part near top fits k =
      ((omega arith, fits, part, inr refl, tt), refl)
  absorb-IsAbsorbed g right (next ∷ r) part near top fits k =
      if-Gives (IsAbsorbed g.seqno right) g.fin _ _
        (λ fin. ((omega arith, fits, part, inr refl, tt), refl))
        λ more.
          let (fin, same, cov) =
            absorb_loop-IsCovered g right g.seqno (next ∷ r) part more (omega arith) near top
              (omega (arith, fits, len_le s g)) k in
          rw same (
            absorb_trim-IsAbsorbed g right fin _ part more near top
              (omega (arith, fits, len_le s g)) cov)
