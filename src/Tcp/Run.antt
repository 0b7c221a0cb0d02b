-- ===== src/Tcp/Run.antt =====
-- A conversation: segments of the peer's stream arrive in any order, and the application takes bytes.
use qladder.Prelude.{
  ℕ, ◌+◌, ◌-◌, ◌^◌, ◌≤◌, ◌<◌, ◌≡◌, ◌⊎◌, inl, inr, refl, ap, sym, ◌∙◌, subst, List, [], ◌∷◌, ◌++◌,
  Option, none, some, Gives, >>=-Gives, if-Gives, Bool, true, false, ◌&&◌, length, length-append,
  arith, u16, ltb, leb,
}
use qladder.Pbuf.Content.{content}
use qladder.Tcp.{
  Segment, Pcb, tcplen_of, listening, tcp_wnd, tcp_wnd_update_threshold, tcp_ack_now,
  tcp_send_empty_ack, tcp_update_rcv_ann_wnd, tcp_output, tcp_recved,
}
use qladder.Tcp.Stream.{IsPart, Carries, Carries-append}
use qladder.Tcp.Window.{IsWindow, IsAnnounced, IsUpdated, tcp_update_rcv_ann_wnd-IsUpdated}
use qladder.Tcp.Queue.Sorted.{IsQueue}
use qladder.Tcp.Receive.{Received, receive_data}
use qladder.Tcp.Receive.Delivery.{one_if, IsOutcome}
use qladder.Tcp.Receive.Arrive.{IsReceiving, empty_ack-IsOutcome, receive_data-IsOutcome}

module _ (s : ℕ → Option ℕ) where
  IsQueue-wider :
      (lo right right' : ℕ) (q : List Segment)
      → right ≤ right'
      → IsQueue s lo right q
      → IsQueue s lo right' q
  IsQueue-wider lo right right' [] h k = tt
  IsQueue-wider lo right right' (g ∷ r) h k = (
    k.0,
    omega (arith, h, k.1),
    k.2,
    k.3,
    IsQueue-wider (g.seqno + tcplen_of g) right right' r h k.4,
  )

  -- The window has grown by `len` at its end.
  abbrev pub IsTaken : ℕ → Pcb → ℕ → Pcb → Type 0
  IsTaken right pcb len r =
      IsReceiving s (right + len) r × (r.rcv_nxt ≡ pcb.rcv_nxt) × (r.rcv_wnd ≡ pcb.rcv_wnd + len)

  output-IsTaken :
      (memory processing : Bool) (right len : ℕ) (pcb r : Pcb)
      → listening r.state ≡ false
      → IsTaken right pcb len r
      → Gives (IsTaken right pcb len) (tcp_output memory processing (tcp_ack_now r))
  unfolding tcp_output tcp_ack_now tcp_send_empty_ack
  output-IsTaken memory true right len pcb r open_state h = rw open_state h
  output-IsTaken false false right len pcb r open_state h = rw open_state h
  output-IsTaken true false right len pcb r open_state h =
      let (sent, queue) =
        empty_ack-IsOutcome s true (right + len) (record r { ack_now = true }) h.0 in
      rw open_state ((sent.0, sent.4, queue), h.1, h.2)

  -- The application takes `len` bytes, no more than would fit in the window of 16 bits, of a connection
  -- that is not listening, and the new end of the window neither wraps around nor is 2^31 past the
  -- announced edge: no assertion fails, the window grows by `len` at its end, no more of it is
  -- announced than there is, and the queue stays as it should be.
  pub tcp_recved-IsTaken :
      (memory processing : Bool) (right len : ℕ) (pcb : Pcb)
      → IsReceiving s right pcb
      → listening pcb.state ≡ false
      → pcb.rcv_wnd + len ≤ 0xffff
      → right + len < 2 ^ 32
      → right + len < pcb.rcv_ann_right_edge + 2 ^ 31
      → Gives (IsTaken right pcb len) (tcp_recved memory processing pcb len)
  unfolding tcp_recved
  tcp_recved-IsTaken memory processing right len pcb (window, announced, queue) open_state fits low
        lag =
      let wider : Pcb = record pcb { rcv_wnd = pcb.rcv_wnd + len } in
      let size : u16 (pcb.rcv_wnd + len) ≡ pcb.rcv_wnd + len = omega (arith, fits) in
      let inside : ltb tcp_wnd (pcb.rcv_wnd + len) ≡ false = ground (arith, fits) in
      let granted : leb len (0xffff - pcb.rcv_wnd) ≡ true = ground (arith, fits) in
      let w : IsWindow (right + len) wider =
        (omega (arith, window), low, omega (arith, fits), omega (arith, window), lag) in
      rw (open_state, granted, size, inside)
        (>>=-Gives (IsUpdated wider) (IsTaken right pcb len) (tcp_update_rcv_ann_wnd wider) _
          (tcp_update_rcv_ann_wnd-IsUpdated (right + len) wider w)
          λ r (told, same).
            let k : IsTaken right pcb len (record wider { rcv_ann_wnd = r.0.rcv_ann_wnd }) = (
              (
                w,
                subst IsAnnounced same told,
                IsQueue-wider pcb.rcv_nxt right (right + len) pcb.ooseq (omega arith) queue,
              ),
              refl,
              refl,
            ) in
            let taken : IsTaken right pcb len r.0 = subst (IsTaken right pcb len) (sym same) k in
            if-Gives (IsTaken right pcb len) (leb tcp_wnd_update_threshold r.1 && ltb r.1 (2 ^ 31))
              _ _
              (λ _.
                output-IsTaken memory processing right len pcb r.0
                  (ap (λ x. listening x.state) same ∙ open_state) taken)
              (λ _. taken))

-- A connection, the bytes the application has been given, and whether it has been told of the end.
pub record Connection : Type 0 where
  pub pcb : Pcb
  pub delivered : List ℕ
  pub ended : Bool

abbrev pub right_of : Pcb → ℕ
right_of pcb = pcb.rcv_nxt + pcb.rcv_wnd

-- `s` is the peer's stream. A segment of it comes in, whether or not there is memory for a copy of it
-- and for an acknowledgement; or the application takes bytes.
pub data Step (s : ℕ → Option ℕ) : Connection → Connection → Type 0 where
  arrives :
      (memory room : Bool) (c : Connection) (g : Segment) (y : Received)
      → c.ended ≡ false
      → IsPart s g
      → tcplen_of g < 2 ^ 15
      → c.pcb.rcv_nxt < g.seqno + 2 ^ 31
      → (g.seqno ≤ c.pcb.rcv_nxt) ⊎ (g.seqno + tcplen_of g ≤ right_of c.pcb)
      → receive_data memory room g.seqno (tcplen_of g) g c.pcb ≡ some y
      → Step s c (record {
        pcb = y.pcb;
        delivered = c.delivered ++ content y.recv_data;
        ended = y.got_fin;
      })
  takes :
      (memory processing : Bool) (len : ℕ) (c : Connection) (r : Pcb)
      → listening c.pcb.state ≡ false
      → c.pcb.rcv_wnd + len ≤ 0xffff
      → right_of c.pcb + len < 2 ^ 32
      → right_of c.pcb + len < c.pcb.rcv_ann_right_edge + 2 ^ 31
      → tcp_recved memory processing c.pcb len ≡ some r
      → Step s c (record c { pcb = r })

pub data Reach (s : ℕ → Option ℕ) (start : Connection) : Connection → Type 0 where
  here : Reach s start start
  next : {c d : Connection} → Reach s start c → Step s c d → Reach s start d

module _ (s : ℕ → Option ℕ) (first : ℕ) where
  -- What has been delivered is the stream from `first` on, and all of it where its end is told.
  abbrev pub IsStreaming : Connection → Type 0
  IsStreaming c =
      IsReceiving s (right_of c.pcb) c.pcb
      × Carries s first c.delivered
      × (c.pcb.rcv_nxt ≡ first + length c.delivered + one_if c.ended)
      × ((c.ended ≡ false) ⊎ (s (first + length c.delivered) ≡ none))

  not_ended : (b : Bool) → b ≡ false → one_if b ≡ 0
  not_ended b e = rw e refl

  Step-IsStreaming : {c d : Connection} → Step s c d → IsStreaming c → IsStreaming d
  Step-IsStreaming (arrives memory room c g y more part sane recent inside e)
        (receiving, carried, place, told) =
      let (outcome, queue) : IsOutcome s c.pcb.rcv_nxt (right_of c.pcb) y =
        subst (Gives (IsOutcome s c.pcb.rcv_nxt (right_of c.pcb))) e (
          receive_data-IsOutcome s memory room (right_of c.pcb) g c.pcb receiving part sane recent
            inside) in
      let at : c.pcb.rcv_nxt ≡ first + length c.delivered =
        omega (arith, place, not_ended c.ended more) in
      let size : length (c.delivered ++ content y.recv_data)
          ≡ length c.delivered + length (content y.recv_data) =
        length-append c.delivered (content y.recv_data) in
      let last : first + length (c.delivered ++ content y.recv_data)
          ≡ c.pcb.rcv_nxt + length (content y.recv_data) =
        omega (arith, at, size) in
      let same : right_of c.pcb ≡ right_of y.pcb = sym outcome.0.0 in
      (
        subst (λ r. IsReceiving s r y.pcb) same (outcome.0, outcome.4, queue),
        Carries-append s first c.delivered (content y.recv_data) carried
            (subst (λ n. Carries s n (content y.recv_data)) at outcome.2),
        omega (arith, outcome.3, last),
        elim outcome.5 [ inl open_end ↦ inl open_end | inr stop ↦ inr (ap s last ∙ stop) ],
      )
  Step-IsStreaming (takes memory processing len c r open_state fits low lag e)
        (receiving, carried, place, told) =
      let taken : IsTaken s (right_of c.pcb) c.pcb len r =
        subst (Gives (IsTaken s (right_of c.pcb) c.pcb len)) e (
          tcp_recved-IsTaken s memory processing (right_of c.pcb) len c.pcb receiving open_state
            fits low lag) in
      let same : right_of c.pcb + len ≡ right_of r = omega (arith, taken.1, taken.2) in
      (subst (λ n. IsReceiving s n r) same taken.0, carried, omega (arith, place, taken.1), told)

  -- After any sequence of arrivals and of calls of `tcp_recved`: what the application has been given
  -- is the stream from `first` on without a gap, `rcv_nxt` is the number behind it, and it is told of
  -- the end only when it has all of it. Segments arrive as long as the end has not been told, ordered,
  -- repeated, cut or lost as they may be, each a part of the peer's stream shorter than 2^15 that
  -- begins at `rcv_nxt` or less than 2^31 before it, or ends within the window. A call of `tcp_recved`
  -- is for a connection that is not listening and has nothing unsent, with no more bytes than the
  -- window of 16 bits has room for, and the window's new end neither wraps around nor is 2^31 past the
  -- announced edge.
  pub Reach-IsStreaming : {c d : Connection} → IsStreaming c → Reach s c d → IsStreaming d
  Reach-IsStreaming h here = h
  Reach-IsStreaming h (next r t) = Step-IsStreaming t (Reach-IsStreaming h r)
