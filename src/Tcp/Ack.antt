-- ===== src/Tcp/Ack.antt =====
-- The first half of `tcp_receive`: what an acknowledgement does to the queues of segments that have
-- been sent or are to be sent, to the send window, and to the windows of congestion control.
pub mod Congestion
pub mod Accounts
pub mod Queues
use qladder.Prelude.{
  ℕ, ◌+◌, ◌-◌, ◌*◌, ◌/◌, ◌^◌, min, List, [], ◌∷◌, Option, none, some, ◌>>=◌, Bool, true, false,
  ◌&&◌, ◌||◌, not, ltb, leb, ◌==◌, if◌then◌else◌, u8, u16, u32, sub16, sub32,
}
use qladder.Pbuf.{pbuf_clen}
use qladder.Tcp.{Segment, tcplen_of, seq_lt, seq_leq, seq_between, asserting}

-- The fields of `struct tcp_pcb` for sending. `rtime` says whether the retransmission timer runs (it is
-- not -1), `infr` is TF_INFR; `sa`, `sv` and `rto` are signed, in two's complement of 16 bits.
pub record Sender : Type 0 where
  pub infr : Bool
  pub running : Bool
  pub polltmr : ℕ
  pub mss : ℕ
  pub rttest : ℕ
  pub rtseq : ℕ
  pub sa : ℕ
  pub sv : ℕ
  pub rto : ℕ
  pub nrtx : ℕ
  pub dupacks : ℕ
  pub lastack : ℕ
  pub cwnd : ℕ
  pub ssthresh : ℕ
  pub snd_nxt : ℕ
  pub snd_wl1 : ℕ
  pub snd_wl2 : ℕ
  pub snd_wnd : ℕ
  pub snd_wnd_max : ℕ
  pub acked : ℕ
  pub snd_buf : ℕ
  pub snd_queuelen : ℕ
  pub unsent_oversize : ℕ
  pub unsent : List Segment
  pub unacked : List Segment
  pub persist_cnt : ℕ
  pub persist_backoff : ℕ

-- A signed number of 16 bits is negative, its arithmetic shift to the right, and its opposite.
abbrev pub negative : ℕ → Bool
negative x = leb (2 ^ 15) x

abbrev pub shift_right : ℕ → ℕ → ℕ
shift_right x k = if negative x then 2 ^ 16 - (2 ^ 16 - x + 2 ^ k - 1) / 2 ^ k else x / 2 ^ k

-- The window update. The numbers of the segment are arguments, as in `tcp_in.c` they are globals.
unfoldable pub update_snd_wnd : ℕ → ℕ → ℕ → Sender → Sender
update_snd_wnd seqno ackno wnd x =
    if seq_lt x.snd_wl1 seqno
      || (x.snd_wl1 == seqno && seq_lt x.snd_wl2 ackno)
      || (x.snd_wl2 == ackno && ltb x.snd_wnd wnd)
    then record x {
      snd_wnd = wnd;
      snd_wnd_max = if ltb x.snd_wnd_max wnd then wnd else x.snd_wnd_max;
      snd_wl1 = seqno;
      snd_wl2 = ackno;
      persist_cnt = if wnd == 0 && x.persist_backoff == 0 then 0 else x.persist_cnt;
      persist_backoff =
          if wnd == 0 then (if x.persist_backoff == 0 then 1 else x.persist_backoff) else 0;
    }
    else x

-- The place in the unsent queue, which is sorted.
unfoldable pub insert_unsent : Segment → List Segment → List Segment
insert_unsent seg [] = seg ∷ []
insert_unsent seg (cur ∷ r) =
    let rest = insert_unsent seg r in
    if seq_lt cur.seqno seg.seqno then cur ∷ rest else seg ∷ cur ∷ r

-- The segment is the last in the unsent queue.
unfoldable pub goes_last : Segment → List Segment → Bool
goes_last seg [] = true
goes_last seg (cur ∷ r) = seq_lt cur.seqno seg.seqno && goes_last seg r

unfoldable pub rexmit_first : Segment → List Segment → Sender → Sender
rexmit_first seg rest x = record x {
  unacked = rest;
  unsent = insert_unsent seg x.unsent;
  unsent_oversize = if goes_last seg x.unsent then 0 else x.unsent_oversize;
  nrtx = u8 (x.nrtx + 1);
  rttest = 0;
}

-- `tcp_rexmit` is for the queue that is not empty.
unfoldable pub rexmit_queue : List Segment → Sender → Sender
rexmit_queue [] x = x
rexmit_queue (seg ∷ rest) x = rexmit_first seg rest x

unfoldable pub tcp_rexmit : Sender → Sender
tcp_rexmit x = rexmit_queue x.unacked x

-- Half of the smaller window, two segments at least.
unfoldable pub fast_threshold : Sender → ℕ
fast_threshold x =
    let half = (if ltb x.snd_wnd x.cwnd then x.snd_wnd else x.cwnd) / 2 in
    if ltb half (2 * x.mss) then u16 (2 * x.mss) else half

abbrev pub null_queue : List Segment → Bool
null_queue [] = true
null_queue (s ∷ r) = false

unfoldable pub tcp_rexmit_fast : Sender → Sender
tcp_rexmit_fast x =
    if not (null_queue x.unacked) && not x.infr
    then (let y = tcp_rexmit x in
        record y {
          ssthresh = fast_threshold y;
          cwnd = u16 (fast_threshold y + 3 * y.mss);
          infr = true;
        })
    else x

-- An acknowledgement of nothing new. It counts as a duplicate if it has no data, the window has not
-- changed, the timer runs and it repeats `lastack`; the third one in a row starts a fast
-- retransmission, and later ones widen the congestion window.
unfoldable pub count_dupack : Sender → Sender
count_dupack x =
    let n = if ltb x.dupacks (u8 (x.dupacks + 1)) then x.dupacks + 1 else x.dupacks in
    if ltb 3 n
    then record x {
      dupacks = n;
      cwnd = if ltb x.cwnd (u16 (x.cwnd + x.mss)) then u16 (x.cwnd + x.mss) else x.cwnd;
    }
    else if n == 3
    then tcp_rexmit_fast (record x { dupacks = n })
    else record x { dupacks = n }

unfoldable pub old_ack : ℕ → ℕ → ℕ → Sender → Sender
old_ack ackno tcplen right_wnd_edge x =
    if tcplen == 0
      && u32 (x.snd_wl2 + x.snd_wnd) == right_wnd_edge
      && x.running
      && x.lastack == ackno
    then count_dupack (record x { acked = 0 })
    else record x { acked = 0; dupacks = 0 }

-- The congestion window grows by a segment, or a segment each round trip. Dividing by 0 is undefined.
unfoldable pub grow_cwnd : Sender → Option Sender
grow_cwnd x =
    if ltb x.cwnd x.ssthresh
    then some
        (if ltb x.cwnd (u16 (x.cwnd + x.mss)) then record x { cwnd = u16 (x.cwnd + x.mss) } else x)
    else asserting (not (x.cwnd == 0)) (
        let new_cwnd = u16 (x.cwnd + x.mss * x.mss / x.cwnd) in
        some (if ltb x.cwnd new_cwnd then record x { cwnd = new_cwnd } else x))

-- What a segment that leaves a queue does to the counters; `left` says whether any is left.
unfoldable pub leave_queue : Segment → Bool → Sender → Option Sender
leave_queue next left x =
    let n = pbuf_clen next.p in
    asserting (leb n x.snd_queuelen) (
      let queuelen = sub16 x.snd_queuelen n in
      asserting (queuelen == 0 || left) (
        some (record x {
          acked = if not (x.acked == 0) && next.fin then x.acked - 1 else x.acked;
          snd_queuelen = queuelen;
        })))

-- The `while` over the unacknowledged segments.
unfoldable pub unacked_loop : ℕ → List Segment → Sender → Option Sender
unacked_loop ackno [] x = some (record x { unacked = [] })
unacked_loop ackno (next ∷ r) x =
    if seq_leq (u32 (next.seqno + tcplen_of next)) ackno
    then (leave_queue next (not (null_queue r) || not (null_queue x.unsent)) x >>= λ y.
        unacked_loop ackno r y)
    else some (record x { unacked = next ∷ r })

-- An acknowledgement of something new.
unfoldable pub new_ack : ℕ → Sender → Option Sender
new_ack ackno x =
    let acked = u16 (sub32 ackno x.lastack) in
    grow_cwnd (record x {
      infr = false;
      cwnd = if x.infr then x.ssthresh else x.cwnd;
      nrtx = 0;
      rto = u16 (shift_right x.sa 3 + x.sv);
      acked = acked;
      snd_buf = u16 (x.snd_buf + acked);
      dupacks = 0;
      lastack = ackno;
    })
    >>= λ y. unacked_loop ackno y.unacked y >>= λ z.
        some (record z { running = not (null_queue z.unacked); polltmr = 0 })

-- The `while` over the unsent segments.
unfoldable pub unsent_loop : ℕ → List Segment → Sender → Option Sender
unsent_loop ackno [] x = some (record x { unsent = [] })
unsent_loop ackno (next ∷ r) x =
    if seq_between ackno (u32 (next.seqno + tcplen_of next)) x.snd_nxt
    then (leave_queue next (not (null_queue x.unacked) || not (null_queue r)) x >>= λ y.
        unsent_loop ackno r
          (record y { unsent_oversize = if null_queue r then 0 else y.unsent_oversize }))
    else some (record x { unsent = next ∷ r })

-- The estimate of the round trip time.
unfoldable pub estimate_rtt : ℕ → ℕ → Sender → Sender
estimate_rtt tcp_ticks ackno x =
    let d = sub16 (u16 (sub32 tcp_ticks x.rttest)) (shift_right x.sa 3) in
    let sa = u16 (x.sa + d) in
    let size = if negative d then sub16 0 d else d in
    let sv = u16 (x.sv + sub16 size (shift_right x.sv 2)) in
    if not (x.rttest == 0) && seq_lt x.rtseq ackno
    then record x { sa = sa; sv = sv; rto = u16 (shift_right sa 3 + sv); rttest = 0 }
    else x

-- `tcp_receive` for a segment with ACK, up to the handling of its data; the state is ESTABLISHED or a
-- later one, which it asserts first.
unfoldable pub receive_ack : ℕ → ℕ → ℕ → ℕ → ℕ → Sender → Option Sender
receive_ack tcp_ticks seqno ackno wnd tcplen x =
    let right_wnd_edge = u32 (x.snd_wnd + x.snd_wl2) in
    let y = update_snd_wnd seqno ackno wnd x in
    let handled =
      if seq_leq ackno y.lastack
      then some (old_ack ackno tcplen right_wnd_edge y)
      else if seq_between ackno (u32 (y.lastack + 1)) y.snd_nxt
      then new_ack ackno y
      else some (record y { acked = 0 }) in
    handled >>= λ z. unsent_loop ackno z.unsent z >>= λ v. some (estimate_rtt tcp_ticks ackno v)
