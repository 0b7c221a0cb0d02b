-- ===== src/Tcp/Receive.antt =====
-- The second half of `tcp_receive`: what becomes of a segment's data.
pub mod Delivery
pub mod Fit
pub mod Trim
pub mod Arrive
pub mod States
use qladder.Prelude.{
  ℕ, ◌+◌, ◌-◌, ◌^◌, List, [], ◌∷◌, Option, none, some, ◌>>=◌, Bool, true, false, ◌&&◌, ◌||◌, not,
  ltb, leb, ◌==◌, if◌then◌else◌, u16, u32, sub16, sub32, drop,
}
use qladder.Pbuf.{Pbuf, pbuf_cat}
use qladder.Tcp.{
  State, established, fin_wait_1, fin_wait_2, close_wait, closing, last_ack, time_wait, Segment,
  Pcb, tcplen_of, seq_lt, seq_gt, seq_geq, seq_between, asserting, tcp_ack, tcp_ack_now,
  tcp_update_rcv_ann_wnd, tcp_send_empty_ack,
}
use qladder.Tcp.Queue.{cut, queue_segment}

-- `pbuf_header(p, -off)` for an offset below 2^15, on the first buffer of a chain.
unfoldable pub pbuf_header_down : ℕ → List Pbuf → Option (List Pbuf)
pbuf_header_down off [] = none
pbuf_header_down off (p ∷ r) =
    if off == 0
    then some (p ∷ r)
    else asserting (leb off p.len) (
        some (
          record p {
            payload = drop off p.payload;
            len = p.len - off;
            tot_len = sub16 p.tot_len off;
          }
          ∷ r))

-- The `while (p->len < off)` of the trimming, and the call behind it.
unfoldable pub skip_buffers : ℕ → ℕ → List Pbuf → Option (List Pbuf)
skip_buffers new_tot_len off [] = none
skip_buffers new_tot_len off (p ∷ r) =
    let rest = skip_buffers new_tot_len (off - p.len) r in
    if ltb p.len off
    then (rest >>= λ r'. some (record p { tot_len = new_tot_len; len = 0 } ∷ r'))
    else pbuf_header_down off (p ∷ r)

-- Without the first `off` bytes.
unfoldable pub trim_buffers : ℕ → List Pbuf → Option (List Pbuf)
trim_buffers off [] = none
trim_buffers off (p ∷ r) = asserting (ltb off 0x7fff) (
    if ltb p.len off
    then asserting (leb off p.tot_len) (skip_buffers (u16 (p.tot_len - off)) off (p ∷ r))
    else pbuf_header_down off (p ∷ r))

-- Trimming the first edge of the segment: what has been received already goes.
unfoldable pub trim_front : ℕ → ℕ → Segment → Option Segment
trim_front seqno rcv_nxt inseg = trim_buffers (sub32 rcv_nxt seqno) inseg.p >>= λ p.
    some
      (record inseg { seqno = rcv_nxt; len = sub16 inseg.len (u16 (sub32 rcv_nxt seqno)); p = p })

-- `struct` of what a segment leaves: `recv_data`, which is [] for NULL, and TF_GOT_FIN of `recv_flags`.
pub record Received : Type 0 where
  pub pcb : Pcb
  pub recv_data : List Pbuf
  pub got_fin : Bool

-- Of a segment in sequence, the part that fits in the window.
unfoldable pub fit_window : ℕ → Pcb → Segment → Option Segment
fit_window seqno pcb inseg =
    if ltb pcb.rcv_wnd (u16 (tcplen_of inseg))
    then (cut (if inseg.syn then sub16 pcb.rcv_wnd 1 else pcb.rcv_wnd)
          (record inseg { fin = false })
        >>= λ c.
            asserting (u32 (seqno + u16 (tcplen_of c)) == u32 (pcb.rcv_nxt + pcb.rcv_wnd)) (some c))
    else some inseg

-- The `while` over the queue: segments that the one in sequence covers are freed, a FIN is kept.
unfoldable pub absorb_loop : ℕ → Segment → List Segment → Segment × List Segment
absorb_loop seqno inseg [] = (inseg, [])
absorb_loop seqno inseg (next ∷ r) =
    let rest =
      absorb_loop seqno (if next.fin && not inseg.syn then record inseg { fin = true } else inseg)
        r in
    if seq_geq (u32 (seqno + u16 (tcplen_of inseg))) (u32 (next.seqno + next.len))
    then rest
    else (inseg, next ∷ r)

-- Trimming its right side where it overlaps with the first that stays.
unfoldable pub absorb_trim : ℕ → Segment → List Segment → Option Segment
absorb_trim seqno inseg [] = some inseg
absorb_trim seqno inseg (next ∷ r) =
    let len = u16 (sub32 next.seqno seqno) in
    if seq_gt (u32 (seqno + u16 (tcplen_of inseg))) next.seqno
    then (cut (if inseg.syn then sub16 len 1 else len) inseg >>= λ c.
        asserting (u32 (seqno + u16 (tcplen_of c)) == next.seqno) (some c))
    else some inseg

-- The segment and the queue when both have been fitted to each other.
unfoldable pub absorb : ℕ → Segment → List Segment → Option (Segment × List Segment)
absorb seqno inseg [] = some (inseg, [])
absorb seqno inseg (next ∷ r) =
    if inseg.fin
    then some (inseg, [])
    else let (i, rest) = absorb_loop seqno inseg (next ∷ r) in
      absorb_trim seqno i rest >>= λ c. some (c, rest)

-- Moving the window past `n` numbers, up to `rcv_nxt`.
unfoldable pub advance : ℕ → ℕ → Pcb → Option Pcb
advance rcv_nxt n pcb = asserting (leb n pcb.rcv_wnd) (
    tcp_update_rcv_ann_wnd (record pcb { rcv_nxt = rcv_nxt; rcv_wnd = sub16 pcb.rcv_wnd n })
    >>= λ r. some r.0)

-- A segment's buffers joined to those for the application; `none` where `p` is NULL.
unfoldable pub append_data : List Pbuf → List Pbuf → Option (List Pbuf)
append_data recv_data [] = none
append_data [] (q ∷ r) = some (if ltb 0 q.tot_len then q ∷ r else [])
append_data (d ∷ e) (q ∷ r) = some (if ltb 0 q.tot_len then pbuf_cat (d ∷ e) (q ∷ r) else d ∷ e)

-- With a FIN out of the queue a connection that was open is closed by its peer.
abbrev pub passive_close : State → State
passive_close established = close_wait
passive_close s = s

-- The `while` over the segments of the queue that are now in sequence.
unfoldable pub dequeue_loop : List Segment → Received → Option Received
dequeue_loop [] x = some (record x { pcb = record x.pcb { ooseq = [] } })
dequeue_loop (cseg ∷ r) x =
    if cseg.seqno == x.pcb.rcv_nxt
    then (advance (u32 (x.pcb.rcv_nxt + tcplen_of cseg)) (tcplen_of cseg) x.pcb >>= λ pcb.
        append_data x.recv_data cseg.p >>= λ recv_data. dequeue_loop r (record {
          pcb = if cseg.fin then record pcb { state = passive_close pcb.state } else pcb;
          recv_data = recv_data;
          got_fin = cseg.fin || x.got_fin;
        }))
    else some (record x { pcb = record x.pcb { ooseq = cseg ∷ r } })

-- The segment is the next in sequence.
unfoldable pub in_sequence : ℕ → Segment → Pcb → Option Received
in_sequence seqno inseg pcb = fit_window seqno pcb inseg >>= λ fitted.
    absorb seqno fitted pcb.ooseq >>= λ x.
    advance (u32 (seqno + u16 (tcplen_of x.0))) (u16 (tcplen_of x.0)) pcb >>= λ moved.
    append_data [] x.0.p >>= λ recv_data.
    dequeue_loop x.1 (record { pcb = moved; recv_data = recv_data; got_fin = x.0.fin }) >>= λ y.
    some (record y { pcb = tcp_ack y.pcb })

-- It lies further on in the window. `memory` is for the copy of the segment, `room` for an ACK.
unfoldable pub out_of_sequence : Bool → Bool → ℕ → Segment → Pcb → Option Received
out_of_sequence memory room tcplen inseg pcb =
    queue_segment memory (u32 (pcb.rcv_nxt + pcb.rcv_wnd)) tcplen inseg pcb.ooseq >>= λ q.
    some (record {
      pcb = record (tcp_send_empty_ack room pcb) { ooseq = q };
      recv_data = [];
      got_fin = false;
    })

-- The part behind the trimming.
unfoldable pub receive_in_window : Bool → Bool → ℕ → ℕ → Segment → Pcb → Option Received
receive_in_window memory room seqno tcplen inseg pcb =
    if seq_between seqno pcb.rcv_nxt (sub32 (u32 (pcb.rcv_nxt + pcb.rcv_wnd)) 1)
    then (if pcb.rcv_nxt == seqno
        then in_sequence seqno inseg pcb
        else out_of_sequence memory room tcplen inseg pcb)
    else some (record { pcb = tcp_send_empty_ack room pcb; recv_data = []; got_fin = false })

-- The state is before CLOSE_WAIT.
abbrev pub before_close_wait : State → Bool
before_close_wait close_wait = false
before_close_wait closing = false
before_close_wait last_ack = false
before_close_wait time_wait = false
before_close_wait s = true

unfoldable pub receive_data : Bool → Bool → ℕ → ℕ → Segment → Pcb → Option Received
receive_data memory room seqno tcplen inseg pcb =
    if ltb 0 tcplen && before_close_wait pcb.state
    then (if seq_between pcb.rcv_nxt (u32 (seqno + 1)) (u32 (seqno + tcplen - 1))
        then (trim_front seqno pcb.rcv_nxt inseg >>= λ i.
            receive_in_window memory room pcb.rcv_nxt tcplen i pcb)
        else receive_in_window memory room seqno tcplen inseg
            (if seq_lt seqno pcb.rcv_nxt then tcp_ack_now pcb else pcb))
    else some (record {
      pcb =
          if seq_between seqno pcb.rcv_nxt (sub32 (u32 (pcb.rcv_nxt + pcb.rcv_wnd)) 1)
          then pcb
          else tcp_ack_now pcb;
      recv_data = [];
      got_fin = false;
    })
