-- ===== src/Tcp/Timer.antt =====
-- What `tcp_slowtmr` of tcp.c does for one connection: the retransmission timer, the persist timer, the
-- waits that end and the polling; with `tcp_rexmit_rto` and `tcp_zero_window_probe` of tcp_out.c.
pub mod Retry
pub mod Slow
use qladder.Prelude.{
  ℕ, ◌+◌, ◌-◌, ◌*◌, ◌/◌, ◌^◌, List, [], ◌∷◌, ◌++◌, Option, none, some, ◌>>=◌, Bool, true, false,
  ◌&&◌, ◌||◌, not, ltb, leb, ◌==◌, if◌then◌else◌, get_elem?, u8, u16, u32, sub32,
}
use qladder.Tcp.{State, fin_wait_2, syn_rcvd, last_ack, Segment, asserting}
use qladder.Tcp.Ack.{Sender, negative, shift_right, fast_threshold, null_queue}
use qladder.Tcp.Connection.{Tcb, is_syn_sent, alive, tcp_pcb_purge}
use qladder.Tcp.Output.{tcp_output}

-- TCP_MAXRTX, TCP_SYNMAXRTX
abbrev pub tcp_maxrtx : ℕ
tcp_maxrtx = 12

abbrev pub tcp_synmaxrtx : ℕ
tcp_synmaxrtx = 6

abbrev pub tcp_backoff : List ℕ
tcp_backoff = 1 ∷ 2 ∷ 3 ∷ 4 ∷ 5 ∷ 6 ∷ 7 ∷ 7 ∷ 7 ∷ 7 ∷ 7 ∷ 7 ∷ 7 ∷ []

abbrev pub tcp_persist_backoff : List ℕ
tcp_persist_backoff = 3 ∷ 6 ∷ 12 ∷ 24 ∷ 48 ∷ 96 ∷ 120 ∷ []

-- What a tick does: the connection, its `rtime` (in two's complement), whether it is to be removed, and
-- the number of a probe that is sent and whether that is a FIN.
pub record Ticked : Type 0 where
  pub tcb : Tcb
  pub rtime : ℕ
  pub remove : Bool
  pub probes : List (ℕ × Bool)

-- The order of signed numbers of 16 bits.
abbrev pub signed_geq : ℕ → ℕ → Bool
signed_geq x y = leb (u16 (y + 2 ^ 15)) (u16 (x + 2 ^ 15))

-- All unacknowledged segments go to the head of the unsent queue.
abbrev pub requeued : Tcb → Tcb
requeued t = record t {
  snd = record t.snd {
    unsent = t.snd.unacked ++ t.snd.unsent;
    unacked = [];
    nrtx = u8 (t.snd.nrtx + 1);
    rttest = 0;
  };
}

-- The time-out is doubled, a power for each try, and the windows of congestion control shrink; the new
-- `ssthresh` is computed as in `tcp_rexmit_fast`.
abbrev pub backed_off : ℕ → Tcb → Tcb
backed_off rto t = record t {
  snd = record t.snd {
    rto = rto;
    running = true;
    ssthresh = fast_threshold t.snd;
    cwnd = t.snd.mss;
  };
}

-- `tcp_backoff` is read at `nrtx`, with `none` behind its end.
abbrev pub next_rto : Tcb → Option ℕ
next_rto t =
    if is_syn_sent t.rcv.state
    then some t.snd.rto
    else get_elem? tcp_backoff t.snd.nrtx >>= λ n.
        some (u16 ((shift_right t.snd.sa 3 + t.snd.sv) * 2 ^ n))

-- The segment to probe with: the first one on its way, or else the first that is to be sent.
abbrev pub probed : List Segment → List Segment → Option Segment
probed (seg ∷ r) unsent = some seg
probed [] (seg ∷ r) = some seg
probed [] [] = none

-- The ticks of TCP, whether there is no route, and whether there is memory for a header.
module _ (tcp_ticks : ℕ) (no_route memory : Bool) where
  unfoldable pub tcp_rexmit_rto : Tcb → Option Tcb
  tcp_rexmit_rto t =
      if null_queue t.snd.unacked
      then some t
      else tcp_output tcp_ticks no_route memory false (requeued t)

  -- Without the byte of data that a probe other than a FIN takes along.
  unfoldable pub tcp_zero_window_probe : Option Segment → Tcb → Tcb × List (ℕ × Bool)
  tcp_zero_window_probe none t = (t, [])
  tcp_zero_window_probe (some seg) t =
      if memory
      then (
        record t {
          rcv = record t.rcv { rcv_ann_right_edge = u32 (t.rcv.rcv_nxt + t.rcv.rcv_ann_wnd) };
        },
        (seg.seqno, seg.fin && seg.len == 0) ∷ [],
      )
      else (t, [])

  -- With a window of 0.
  unfoldable pub persist : ℕ → Tcb → Option Ticked
  persist rtime t =
      let x = t.snd in
      let cnt = u8 (x.persist_cnt + 1) in
      let size : ℕ = 7 in
      get_elem? tcp_persist_backoff (x.persist_backoff - 1) >>= λ due.
      let y = record x {
        persist_cnt = 0;
        persist_backoff =
            if ltb x.persist_backoff size then x.persist_backoff + 1 else x.persist_backoff;
      } in
      let r =
        if ltb cnt due
        then (record t { snd = record x { persist_cnt = cnt } }, [])
        else tcp_zero_window_probe (probed x.unacked x.unsent) (record t { snd = y }) in
      some (record { tcb = r.0; rtime = rtime; remove = false; probes = r.1 })

  unfoldable pub retransmission_timer : ℕ → Tcb → Option Ticked
  retransmission_timer rtime t =
      let x = t.snd in
      let now = if negative rtime then rtime else u16 (rtime + 1) in
      if (is_syn_sent t.rcv.state && x.nrtx == tcp_synmaxrtx) || x.nrtx == tcp_maxrtx
      then some (record { tcb = t; rtime = rtime; remove = true; probes = [] })
      else if ltb 0 x.persist_backoff
      then persist rtime t
      else if not (null_queue x.unacked) && signed_geq now x.rto
      then (next_rto t >>= λ rto. tcp_rexmit_rto (backed_off rto t) >>= λ u.
          some (record { tcb = u; rtime = 0; remove = false; probes = [] }))
      else some (record { tcb = t; rtime = now; remove = false; probes = [] })

-- The waits that end with a state; the constants are in milliseconds, and a tick has 500.
abbrev pub stale : State → Bool → ℕ → Bool
stale fin_wait_2 rxclosed idle = rxclosed && ltb (20000 / 500) idle
stale syn_rcvd rxclosed idle = ltb (20000 / 500) idle
stale last_ack rxclosed idle = ltb (2 * 60000 / 500) idle
stale s rxclosed idle = false

abbrev pub too_long : ℕ → Tcb → Bool
too_long tcp_ticks t = stale t.rcv.state t.rxclosed (sub32 tcp_ticks t.tmr)

-- Segments out of sequence are dropped after six time-outs; `rto` is extended by its sign.
abbrev pub drop_ooseq : ℕ → Tcb → Tcb
drop_ooseq tcp_ticks t =
    let rto = t.snd.rto in
    let limit = u32 ((if negative rto then 2 ^ 32 - (2 ^ 16 - rto) else rto) * 6) in
    if leb limit (sub32 tcp_ticks t.tmr) then record t { rcv = record t.rcv { ooseq = [] } } else t

-- The application is polled every `pollinterval` ticks, and `tcp_output` follows. No callback is set, so
-- the event gives ERR_OK. The result has `polltmr` first.
unfoldable pub poll_step : ℕ → Bool → Bool → ℕ → ℕ → Tcb → Option (ℕ × Tcb)
poll_step tcp_ticks no_route memory pollinterval polltmr t =
    let n = u8 (polltmr + 1) in
    if leb pollinterval n
    then (tcp_output tcp_ticks no_route memory false t >>= λ u. some (0, u))
    else some (n, t)

-- `tcp_slowtmr` for a connection on the active list, without the option SOF_KEEPALIVE, which the program
-- never sets. A connection that is removed is purged, with `rtime` at -1. The result has `polltmr` too.
unfoldable pub slow_timer : ℕ → Bool → Bool → ℕ → ℕ → ℕ → Tcb → Option (Ticked × ℕ)
slow_timer tcp_ticks no_route memory pollinterval polltmr rtime t = asserting (alive t.rcv.state) (
    retransmission_timer tcp_ticks no_route memory rtime t >>= λ r.
    let u = drop_ooseq tcp_ticks r.tcb in
    if r.remove || too_long tcp_ticks u
    then some (record r { tcb = tcp_pcb_purge u; rtime = 2 ^ 16 - 1; remove = true }, polltmr)
    else poll_step tcp_ticks no_route memory pollinterval polltmr u >>= λ polled.
        some (record r { tcb = polled.1 }, polled.0))
