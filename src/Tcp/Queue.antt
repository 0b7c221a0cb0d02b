-- ===== src/Tcp/Queue.antt =====
-- The queue of segments received out of sequence, which is ordered by sequence number.
pub mod Cut
pub mod Sorted
pub mod Walk
use qladder.Prelude.{
  ℕ, ◌+◌, ◌-◌, ◌^◌, List, [], ◌∷◌, ◌++◌, Option, none, some, ◌>>=◌, Bool, true, false, ◌&&◌, ◌||◌,
  not, ltb, leb, ◌==◌, if◌then◌else◌, u16, u32, sub16, sub32,
}
use qladder.Pbuf.{Pbuf, pbuf_ref, pbuf_realloc}
use qladder.Tcp.{Segment, Pcb, tcplen_of, seq_lt, seq_gt, seq_geq, seq_between, asserting}

-- Cutting a segment to `len` bytes, the buffers with it.
unfoldable pub cut : ℕ → Segment → Option Segment
cut len s = pbuf_realloc s.p len >>= λ r. some (record s { len = len; p = r.0 })

-- `memory` says whether `memp_malloc` has room for a segment. The copy shares the buffers.
unfoldable pub tcp_seg_copy : Bool → Segment → Option Segment
tcp_seg_copy memory s = if memory then some (record s { p = pbuf_ref s.p }) else none

-- The `while` of `tcp_oos_insert_segment`: a segment that ends where `end` is or before is freed;
-- whether one of them had the FIN flag, and the rest.
unfoldable pub covered_loop : ℕ → List Segment → Bool × List Segment
covered_loop end [] = (false, [])
covered_loop end (next ∷ r) =
    let (fin, rest) = covered_loop end r in
    if seq_geq end (u32 (next.seqno + next.len)) then (next.fin || fin, rest) else (false, next ∷ r)

-- The trimming of the incoming segment behind that loop.
unfoldable pub trim_to_next : ℕ → Segment → List Segment → Option Segment
trim_to_next seqno cseg [] = some cseg
trim_to_next seqno cseg (next ∷ r) =
    if seq_gt (u32 (seqno + cseg.len)) next.seqno
    then cut (u16 (sub32 next.seqno seqno)) cseg
    else some cseg

-- The list from `cseg` on.
unfoldable pub tcp_oos_insert_segment : ℕ → Segment → List Segment → Option (List Segment)
tcp_oos_insert_segment seqno cseg next =
    if cseg.fin
    then some (cseg ∷ [])
    else let (fin, rest) = covered_loop (u32 (seqno + cseg.len)) next in
      trim_to_next seqno (record cseg { fin = fin }) rest >>= λ c. some (c ∷ rest)

-- The segment before the one that comes in, cut where that begins.
unfoldable pub trim_prev : ℕ → Segment → Option Segment
trim_prev seqno prev =
    if seq_gt (u32 (prev.seqno + prev.len)) seqno
    then cut (u16 (sub32 seqno prev.seqno)) prev
    else some prev

-- Of a segment at the end of the queue, the part that fits in the window; `right` is
-- `rcv_nxt + rcv_wnd` and `tcplen` the global variable.
unfoldable pub fit_last : ℕ → ℕ → Segment → Option Segment
fit_last right tcplen s =
    if ltb right (u32 (tcplen + s.seqno))
    then (cut (u16 (sub32 right s.seqno)) (record s { fin = false }) >>= λ c.
        asserting (u32 (c.seqno + u16 (tcplen_of c)) == right) (some c))
    else some s

-- The `for` over the queue from `next` on: the list from there on, the segment before it included.
module _ (memory : Bool) (right tcplen : ℕ) (inseg : Segment) where
  -- An insertion before `next`.
  unfoldable pub insert_before : List Segment → Option (List Segment)
  insert_before next = elim (tcp_seg_copy memory inseg) [
    | none ↦ some next
    | some cseg ↦ tcp_oos_insert_segment inseg.seqno cseg next
  ]

  -- At the end, behind `last`.
  unfoldable pub insert_last : Segment → Option (List Segment)
  insert_last last = if last.fin then some (last ∷ []) else elim (tcp_seg_copy memory inseg) [
    | none ↦ some (last ∷ [])
    | some cseg ↦
        trim_prev inseg.seqno last >>= λ l. fit_last right tcplen cseg >>= λ c. some (l ∷ c ∷ [])
  ]

  -- Behind `prev`, with the segment before it cut.
  unfoldable pub insert_behind : Segment → List Segment → Option (List Segment)
  insert_behind prev next = elim (tcp_seg_copy memory inseg) [
    | none ↦ some (prev ∷ next)
    | some cseg ↦ trim_prev inseg.seqno prev >>= λ l.
        tcp_oos_insert_segment inseg.seqno cseg next >>= λ r. some (l ∷ r)
  ]

  -- The rounds behind the first, which have a segment `prev`.
  unfoldable pub queue_loop : Segment → List Segment → Option (List Segment)
  queue_loop prev [] = some (prev ∷ [])
  queue_loop prev (next ∷ r) =
      let further = queue_loop next r in
      if inseg.seqno == next.seqno
      then (if ltb next.len inseg.len
          then (insert_before (next ∷ r) >>= λ l. some (prev ∷ l))
          else some (prev ∷ next ∷ r))
      else if seq_between inseg.seqno (u32 (prev.seqno + 1)) (sub32 next.seqno 1)
      then insert_behind prev (next ∷ r)
      else elim r [
        | [] ↦
            if seq_gt inseg.seqno next.seqno
            then (insert_last next >>= λ l. some (prev ∷ l))
            else some (prev ∷ next ∷ [])
        | other ∷ more ↦ further >>= λ l. some (prev ∷ l)
      ]

  -- The first round.
  unfoldable pub queue_segment : List Segment → Option (List Segment)
  queue_segment [] = elim (tcp_seg_copy memory inseg) [
    | none ↦ some []
    | some cseg ↦ some (cseg ∷ [])
  ]
  queue_segment (next ∷ r) =
      if inseg.seqno == next.seqno
      then (if ltb next.len inseg.len then insert_before (next ∷ r) else some (next ∷ r))
      else if seq_lt inseg.seqno next.seqno
      then insert_before (next ∷ r)
      else elim r [
        | [] ↦ if seq_gt inseg.seqno next.seqno then insert_last next else some (next ∷ [])
        | other ∷ more ↦ queue_loop next (other ∷ more)
      ]
