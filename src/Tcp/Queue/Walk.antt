-- ===== src/Tcp/Queue/Walk.antt =====
-- Finding the place of a segment in the queue: the queue stays in order.
use qladder.Prelude.{
  ℕ, ◌+◌, ◌-◌, ◌^◌, ◌≤◌, ◌<◌, ◌≡◌, ◌⊎◌, inl, inr, refl, List, [], ◌∷◌, Option, some, ◌>>=◌, Gives,
  >>=-Gives, if-Gives, Gives-mono, Bool, true, false, if◌then◌else◌, arith, u16, u32, sub32, ltb,
  ◌==◌,
}
use qladder.Pbuf.{pbuf_ref}
use qladder.Tcp.{Segment, tcplen_of, seq_lt, seq_gt, seq_between}
use qladder.Tcp.Stream.{IsPart}
use qladder.Tcp.Queue.{
  tcp_seg_copy, trim_prev, fit_last, insert_before, insert_last, insert_behind, queue_loop,
  queue_segment,
}
use qladder.Tcp.Queue.Cut.{IsCut, cut-IsCut, copied-IsPart}
use qladder.Tcp.Queue.Sorted.{
  IsQueue, IsQueue-lower, plain_len, len_le, goes_past, tcp_oos_insert_segment-IsQueue,
}

module _ (s : ℕ → Option ℕ) where
  -- What goes into the queue: a segment in the window, which begins at `lo`.
  abbrev pub Fits : ℕ → ℕ → Segment → Type 0
  Fits lo right g =
      IsPart s g
      × (lo ≤ g.seqno)
      × (g.seqno + tcplen_of g ≤ right)
      × (right < lo + 2 ^ 16)
      × (right < 2 ^ 32)

  pub insert_before-IsQueue :
      (memory : Bool) (right tcplen lo : ℕ) (g : Segment) (q : List Segment)
      → Fits lo right g
      → IsQueue s lo right q
      → IsQueue s g.seqno right q
      → Gives (IsQueue s lo right) (insert_before memory right tcplen g q)
  unfolding insert_before tcp_seg_copy
  insert_before-IsQueue false right tcplen lo g q h k l = k
  insert_before-IsQueue true right tcplen lo g q h k l =
      tcp_oos_insert_segment-IsQueue s (record g { p = pbuf_ref g.p }) right lo q
        (copied-IsPart s g h.0) h.1 (omega (arith, h.1, h.3)) h.4 h.2 l

  -- Cut or not, the segment before ends where `g` begins, or before.
  trim_prev-Gives :
      (right lo : ℕ) (g prev : Segment)
      → Fits lo right g
      → IsPart s prev
      → prev.fin ≡ false
      → lo ≤ prev.seqno
      → prev.seqno < g.seqno
      → prev.seqno + tcplen_of prev ≤ right
      → Gives
          (λ c.
            IsPart s c
            × (c.seqno ≡ prev.seqno)
            × (c.fin ≡ false)
            × (c.seqno + tcplen_of c ≤ g.seqno))
          (trim_prev g.seqno prev)
  unfolding trim_prev
  trim_prev-Gives right lo g prev fits part more above h k =
      let end : u32 (prev.seqno + prev.len) ≡ prev.seqno + prev.len =
        omega (arith, k, fits.4, len_le s prev) in
      elim (goes_past s (prev.seqno + prev.len) g.seqno prev.seqno (omega arith) (omega arith)
        (omega (arith, part.short, len_le s prev)) (omega (arith, fits, above))
        (omega (arith, k, fits.4, len_le s prev)) (omega (arith, fits.2, fits.4))) [
          | inl (past, over) ↦
              let n : u16 (sub32 g.seqno prev.seqno) ≡ g.seqno - prev.seqno =
                omega (arith, h, over, k, fits.3, fits.4, above, len_le s prev) in
              rw (end, past, n)
                (Gives-mono (IsCut s (g.seqno - prev.seqno) prev) _ _
                  (cut-IsCut s (g.seqno - prev.seqno) prev part more (omega (arith, over)))
                  λ c cutting. (
                    cutting.0,
                    cutting.1,
                    cutting.3,
                    omega (arith, plain_len s c cutting.0 cutting.3, cutting.1, cutting.2, h),
                  ))
          | inr (short, before) ↦
              rw (end, short) (part, refl, more, omega (arith, plain_len s prev part more, before))
        ]

  insert_behind-IsQueue :
      (memory : Bool) (right tcplen lo : ℕ) (g prev : Segment) (q : List Segment)
      → Fits lo right g
      → IsQueue s lo right (prev ∷ q)
      → prev.fin ≡ false
      → prev.seqno < g.seqno
      → IsQueue s g.seqno right q
      → Gives (IsQueue s lo right) (insert_behind memory right tcplen g prev q)
  unfolding insert_behind tcp_seg_copy
  insert_behind-IsQueue false right tcplen lo g prev q h k more l m = k
  insert_behind-IsQueue true right tcplen lo g prev q h k more l m =
      >>=-Gives _ (IsQueue s lo right) (trim_prev g.seqno prev) _
        (trim_prev-Gives right lo g prev h k.2 more k.0 l k.1)
        λ c cutting.
          >>=-Gives (IsQueue s g.seqno right) (IsQueue s lo right) _ _
            (tcp_oos_insert_segment-IsQueue s (record g { p = pbuf_ref g.p }) right g.seqno q
              (copied-IsPart s g h.0) (omega arith) (omega (arith, h.1, h.3)) h.4 h.2 m)
            λ r n. (
              omega (arith, cutting.1, k.0),
              omega (arith, cutting.3, h.2),
              cutting.0,
              inl cutting.2,
              IsQueue-lower s g.seqno (c.seqno + tcplen_of c) right r cutting.3 n,
            )

  insert_last-IsQueue :
      (memory : Bool) (right lo : ℕ) (g last : Segment)
      → Fits lo right g
      → IsQueue s lo right (last ∷ [])
      → last.seqno < g.seqno
      → Gives (IsQueue s lo right) (insert_last memory right (tcplen_of g) g last)
  unfolding insert_last tcp_seg_copy fit_last
  insert_last-IsQueue false right lo g last h k l =
      if-Gives (IsQueue s lo right) last.fin _ _ (λ _. k) (λ _. k)
  insert_last-IsQueue true right lo g last h k l =
      if-Gives (IsQueue s lo right) last.fin _ _ (λ _. k)
        λ more.
          let inside : ltb right (u32 (tcplen_of g + g.seqno)) ≡ false = ground (arith, h.2, h.4) in
          rw inside (
            >>=-Gives _ (IsQueue s lo right) (trim_prev g.seqno last) _
              (trim_prev-Gives right lo g last h k.2 more k.0 l k.1)
              λ c cutting. (
                omega (arith, cutting.1, k.0),
                omega (arith, cutting.3, h.2),
                cutting.0,
                inl cutting.2,
                (cutting.3, h.2, copied-IsPart s g h.0, inr refl, tt),
              ))

  order :
      (a b lo : ℕ)
      → lo ≤ a
      → lo ≤ b
      → a ≤ lo + 2 ^ 17
      → b ≤ lo + 2 ^ 17
      → a < 2 ^ 32
      → b < 2 ^ 32
      → (a == b) ≡ false
      → ((seq_lt a b ≡ true) × (a < b)) ⊎ ((seq_lt a b ≡ false) × (seq_gt a b ≡ true) × (b < a))
  order a b lo h k l m n o p = ground arith

  between_order :
      (prev a next lo : ℕ)
      → lo ≤ prev
      → prev < a
      → prev ≤ next
      → a ≤ lo + 2 ^ 17
      → next ≤ lo + 2 ^ 17
      → a < 2 ^ 32
      → next < 2 ^ 32
      → (a == next) ≡ false
      → ((seq_between a (u32 (prev + 1)) (sub32 next 1) ≡ true) × (a < next))
        ⊎ ((seq_between a (u32 (prev + 1)) (sub32 next 1) ≡ false)
            × (seq_gt a next ≡ true)
            × (next < a))
  between_order prev a next lo h k l m n o p q = ground arith

  again :
      (lo lo' right : ℕ) (g : Segment)
      → Fits lo right g
      → lo ≤ lo'
      → lo' ≤ g.seqno
      → Fits lo' right g
  again lo lo' right g h k l = (h.0, l, h.2, omega (arith, h.3), h.4)

  not_last : {a : Segment} {r : List Segment} (b : Bool) → (b ≡ false) ⊎ ((a ∷ r) ≡ []) → b ≡ false
  not_last b h = ground arith

  -- One round, with what follows where its segment is behind `next`.
  round-IsQueue :
      (memory : Bool) (right lo : ℕ) (g prev next : Segment) (r : List Segment)
      (other : Option (List Segment))
      → Fits lo right g
      → IsQueue s lo right (prev ∷ next ∷ r)
      → prev.seqno < g.seqno
      → (seq_gt g.seqno next.seqno ≡ true → next.seqno < g.seqno → Gives (IsQueue s lo right) other)
      → Gives (IsQueue s lo right) (
          if g.seqno == next.seqno
          then (if ltb next.len g.len
              then (insert_before memory right (tcplen_of g) g (next ∷ r) >>= λ l. some (prev ∷ l))
              else some (prev ∷ next ∷ r))
          else if seq_between g.seqno (u32 (prev.seqno + 1)) (sub32 next.seqno 1)
          then insert_behind memory right (tcplen_of g) g prev (next ∷ r)
          else other)
  round-IsQueue memory right lo g prev next r other h k l rest =
      let more = not_last prev.fin k.3 in
      let end : ℕ = prev.seqno + tcplen_of prev in
      let behind : (l : List Segment) → IsQueue s end right l → IsQueue s lo right (prev ∷ l) =
        λ l m. (k.0, k.1, k.2, inl more, m) in
      if-Gives (IsQueue s lo right) (g.seqno == next.seqno) _ _
        (λ same.
          let e : g.seqno ≡ next.seqno = ground arith in
          if-Gives (IsQueue s lo right) (ltb next.len g.len) _ _
            (λ _.
              >>=-Gives (IsQueue s end right) (IsQueue s lo right) _ _
                (insert_before-IsQueue memory right (tcplen_of g) end g (next ∷ r)
                  (again lo end right g h (omega (arith, k.0)) (omega (arith, e, k.4.0))) k.4
                  (omega (arith, e), k.4.1, k.4.2, k.4.3, k.4.4))
                behind)
            (λ _. k))
        λ differ.
          let cases =
            between_order prev.seqno g.seqno next.seqno lo k.0 l (omega (arith, k.4.0))
              (omega (arith, h.2, h.3)) (omega (arith, k.4.1, h.3)) (omega (arith, h.2, h.4))
              (omega (arith, k.4.1, h.4)) differ in
          elim cases [
            | inl (here, before) ↦ rw here (
                insert_behind-IsQueue memory right (tcplen_of g) lo g prev (next ∷ r) h k more l
                  (omega (arith, before), k.4.1, k.4.2, k.4.3, k.4.4))
            | inr (beyond, past, after) ↦ rw beyond (rest past after)
          ]

  behind_prev :
      (lo right : ℕ) (prev next : Segment) (r l : List Segment)
      → IsQueue s lo right (prev ∷ next ∷ r)
      → IsQueue s (prev.seqno + tcplen_of prev) right l
      → IsQueue s lo right (prev ∷ l)
  behind_prev lo right prev next r l k m = (k.0, k.1, k.2, inl (not_last prev.fin k.3), m)

  queue_loop-IsQueue :
      (memory : Bool) (right lo : ℕ) (g prev : Segment) (q : List Segment)
      → Fits lo right g
      → IsQueue s lo right (prev ∷ q)
      → prev.seqno < g.seqno
      → Gives (IsQueue s lo right) (queue_loop memory right (tcplen_of g) g prev q)
  unfolding queue_loop
  queue_loop-IsQueue memory right lo g prev [] h k l = k
  queue_loop-IsQueue memory right lo g prev (next ∷ []) h k l =
      let end : ℕ = prev.seqno + tcplen_of prev in
      round-IsQueue memory right lo g prev next [] _ h k l λ past after. rw past (
        >>=-Gives (IsQueue s end right) (IsQueue s lo right)
          (insert_last memory right (tcplen_of g) g next) _
          (insert_last-IsQueue memory right end g next
            (again lo end right g h (omega (arith, k.0)) (omega (arith, after, k.4.0))) k.4 after)
          λ m n. behind_prev lo right prev next [] m k n)
  queue_loop-IsQueue memory right lo g prev (next ∷ other ∷ more) h k l =
      let end : ℕ = prev.seqno + tcplen_of prev in
      round-IsQueue memory right lo g prev next (other ∷ more) _ h k l λ past after.
        >>=-Gives (IsQueue s end right) (IsQueue s lo right)
          (queue_loop memory right (tcplen_of g) g next (other ∷ more)) _
          (queue_loop-IsQueue memory right end g next (other ∷ more)
            (again lo end right g h (omega (arith, k.0)) (omega (arith, after, k.4.0))) k.4 after)
          λ m n. behind_prev lo right prev next (other ∷ more) m k n

  first_round-IsQueue :
      (memory : Bool) (right lo : ℕ) (g next : Segment) (r : List Segment)
      (other : Option (List Segment))
      → Fits lo right g
      → IsQueue s lo right (next ∷ r)
      → (seq_gt g.seqno next.seqno ≡ true → next.seqno < g.seqno → Gives (IsQueue s lo right) other)
      → Gives (IsQueue s lo right) (
          if g.seqno == next.seqno
          then (if ltb next.len g.len
              then insert_before memory right (tcplen_of g) g (next ∷ r)
              else some (next ∷ r))
          else if seq_lt g.seqno next.seqno
          then insert_before memory right (tcplen_of g) g (next ∷ r)
          else other)
  first_round-IsQueue memory right lo g next r other h k rest =
      if-Gives (IsQueue s lo right) (g.seqno == next.seqno) _ _
        (λ same.
          let e : g.seqno ≡ next.seqno = ground arith in
          if-Gives (IsQueue s lo right) (ltb next.len g.len) _ _
            (λ _.
              insert_before-IsQueue memory right (tcplen_of g) lo g (next ∷ r) h k
                (omega (arith, e), k.1, k.2, k.3, k.4))
            (λ _. k))
        λ differ.
          elim (order g.seqno next.seqno lo h.1 k.0 (omega (arith, h.2, h.3))
            (omega (arith, k.1, h.3)) (omega (arith, h.2, h.4)) (omega (arith, k.1, h.4)) differ) [
              | inl (here, before) ↦ rw here (
                  insert_before-IsQueue memory right (tcplen_of g) lo g (next ∷ r) h k
                    (omega (arith, before), k.1, k.2, k.3, k.4))
              | inr (beyond, past, after) ↦ rw beyond (rest past after)
            ]

  -- A segment in the window, `tcplen` its length, goes into the queue, or not for lack of memory,
  -- with no assertion failing: the queue stays in order and without overlaps, its bytes those of the
  -- stream.
  pub queue_segment-IsQueue :
      (memory : Bool) (right lo : ℕ) (g : Segment) (q : List Segment)
      → Fits lo right g
      → IsQueue s lo right q
      → Gives (IsQueue s lo right) (queue_segment memory right (tcplen_of g) g q)
  unfolding queue_segment tcp_seg_copy
  queue_segment-IsQueue false right lo g [] h k = tt
  queue_segment-IsQueue true right lo g [] h k = (h.1, h.2, copied-IsPart s g h.0, inr refl, tt)
  queue_segment-IsQueue memory right lo g (next ∷ []) h k =
      first_round-IsQueue memory right lo g next [] _ h k
        λ past after. rw past (insert_last-IsQueue memory right lo g next h k after)
  queue_segment-IsQueue memory right lo g (next ∷ other ∷ more) h k =
      first_round-IsQueue memory right lo g next (other ∷ more) _ h k
        λ past after. queue_loop-IsQueue memory right lo g next (other ∷ more) h k after
