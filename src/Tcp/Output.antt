-- ===== src/Tcp/Output.antt =====
-- Sending what is in the queue of unsent segments: `tcp_output` of tcp_out.c.
pub mod Steps
pub mod Sends
pub mod Empty
use qladder.Prelude.{
  ℕ, ◌+◌, ◌-◌, ◌^◌, min, List, [], ◌∷◌, ◌++◌, Option, none, some, Bool, true, false, ◌&&◌, ◌||◌,
  not, ltb, leb, ◌==◌, if◌then◌else◌, u16, u32, sub32,
}
use qladder.Tcp.{Segment, tcplen_of, seq_lt, asserting, listening, tcp_send_empty_ack}
use qladder.Tcp.Ack.{Sender, null_queue, insert_unsent}
use qladder.Tcp.Connection.{Tcb, is_syn_sent}

-- TCP_SND_QUEUELEN
abbrev pub tcp_snd_queuelen : ℕ
tcp_snd_queuelen = 0xffff - 3

-- The end of the queue is at `seg` or behind it.
abbrev pub last_seqno : Segment → List Segment → ℕ
last_seqno seg [] = seg.seqno
last_seqno seg (next ∷ r) = last_seqno next r

-- Where a segment that has been sent goes: to the end of the queue, or before it, where the loop is
-- that of `tcp_rexmit`.
abbrev pub put_unacked : Segment → List Segment → List Segment
put_unacked seg [] = seg ∷ []
put_unacked seg (cur ∷ r) =
    if seq_lt seg.seqno (last_seqno cur r)
    then insert_unsent seg (cur ∷ r)
    else (cur ∷ r) ++ (seg ∷ [])

-- `tcp_do_output_nagle`, with the queue of unsent segments.
abbrev pub output_nagle : List Segment → Tcb → Bool
output_nagle [] t =
    null_queue t.snd.unacked
    || t.nodelay
    || t.snd.infr
    || t.snd.snd_buf == 0
    || leb tcp_snd_queuelen t.snd.snd_queuelen
output_nagle (seg ∷ r) t =
    null_queue t.snd.unacked
    || t.nodelay
    || t.snd.infr
    || not (null_queue r)
    || leb t.snd.mss seg.len
    || t.snd.snd_buf == 0
    || leb tcp_snd_queuelen t.snd.snd_queuelen

-- The segment and the bytes before it that are not acknowledged fit in `wnd`.
abbrev pub in_window : ℕ → Segment → Sender → Bool
in_window wnd seg x = leb (u32 (sub32 seg.seqno x.lastack + seg.len)) wnd

-- The numbers behind a segment that has been sent.
abbrev pub advance_snd_nxt : ℕ → Tcb → Tcb
advance_snd_nxt nxt t =
    if seq_lt t.snd.snd_nxt nxt
    then record t { rcv = record t.rcv { snd_nxt = nxt }; snd = record t.snd { snd_nxt = nxt } }
    else t

-- A segment with a number of its own waits for its acknowledgement.
abbrev pub keep_unacked : Segment → Tcb → Tcb
keep_unacked seg t =
    if ltb 0 (tcplen_of seg)
    then record t { snd = record t.snd { unacked = put_unacked seg t.snd.unacked } }
    else t

-- In SYN_SENT there is nothing to acknowledge.
abbrev pub clear_acks : Tcb → Tcb
clear_acks t =
    if is_syn_sent t.rcv.state
    then t
    else record t { rcv = record t.rcv { ack_delay = false; ack_now = false } }

-- The segment is sent.
abbrev pub may_send : ℕ → Segment → List Segment → Tcb → Bool
may_send wnd seg r t =
    in_window wnd seg t.snd && (output_nagle (seg ∷ r) t || t.nagle_memerr || t.fin_queued)

-- The window does not allow the first segment, or there is none.
abbrev pub none_allowed : ℕ → List Segment → Sender → Bool
none_allowed wnd [] x = true
none_allowed wnd (seg ∷ r) x = not (in_window wnd seg x)

-- The ticks of TCP. `no_route` says that the connection has no local address and there is none to take.
module _ (tcp_ticks : ℕ) (no_route : Bool) where
  -- `tcp_output_segment`, without the bytes it writes into the header (options, checksum).
  abbrev pub tcp_output_segment : Segment → Tcb → Tcb
  tcp_output_segment seg t =
      let rcv = record t.rcv { rcv_ann_right_edge = u32 (t.rcv.rcv_nxt + t.rcv.rcv_ann_wnd) } in
      let x = record t.snd { running = true } in
      if no_route then record t { rcv = rcv; snd = x } else record t {
        rcv = rcv;
        snd = if x.rttest == 0 then record x { rttest = tcp_ticks; rtseq = seg.seqno } else x;
        sent = (seg, t.rcv.rcv_nxt, t.rcv.rcv_ann_wnd) ∷ t.sent;
      }

  abbrev pub send_segment : Segment → Tcb → Tcb
  send_segment seg t =
      keep_unacked seg
        (advance_snd_nxt (u32 (seg.seqno + tcplen_of seg)) (tcp_output_segment seg (clear_acks t)))

  -- The `while` over the unsent segments. Its assertion that none has RST cannot fail: no segment that is
  -- queued has.
  unfoldable pub output_loop : ℕ → List Segment → Tcb → Tcb
  output_loop wnd [] t = record t { snd = record t.snd { unsent = [] } }
  output_loop wnd (seg ∷ r) t =
      let rest = output_loop wnd r (send_segment seg t) in
      if may_send wnd seg r t then rest else record t { snd = record t.snd { unsent = seg ∷ r } }

  -- `memory` is for an empty acknowledgement, and `processing` says that the connection's input is being
  -- processed.
  unfoldable pub tcp_output : Bool → Bool → Tcb → Option Tcb
  tcp_output memory processing t =
      let wnd = min t.snd.snd_wnd t.snd.cwnd in
      let u = output_loop wnd t.snd.unsent t in
      asserting (not (listening t.rcv.state)) (
        some (
          if processing
          then t
          else if t.rcv.ack_now && none_allowed wnd t.snd.unsent t.snd
          then record t { rcv = tcp_send_empty_ack memory t.rcv }
          else record u {
            snd = record u.snd {
              unsent_oversize = if null_queue u.snd.unsent then 0 else u.snd.unsent_oversize;
            };
            nagle_memerr = false;
          }))
