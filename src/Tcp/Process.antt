-- ===== src/Tcp/Process.antt =====
-- The state machine: `tcp_process` of tcp_in.c, which calls both halves of `tcp_receive`, and
-- `tcp_timewait_input`.
pub mod Arcs
pub mod Moves
pub mod Safe
pub mod TimeWait
use qladder.Prelude.{
  ℕ, ◌+◌, ◌-◌, ◌*◌, ◌^◌, min, List, [], ◌∷◌, Option, none, some, ◌>>=◌, Bool, true, false, ◌&&◌,
  ◌||◌, not, ltb, ◌==◌, if◌then◌else◌, u16, u32, sub16, sub32,
}
use qladder.Pbuf.{Pbuf}
use qladder.Tcp.{
  State, closed, listen, syn_sent, syn_rcvd, established, fin_wait_1, fin_wait_2, close_wait,
  closing, last_ack, time_wait, Segment, Pcb, tcplen_of, seq_between, asserting, tcp_ack_now,
  tcp_output,
}
use qladder.Tcp.Receive.{Received, receive_data}
use qladder.Tcp.Ack.{Sender, null_queue, tcp_rexmit, receive_ack}
use qladder.Tcp.Options.{tcp_parseopt}
use qladder.Tcp.Connection.{
  Tcb, ErrT, set_state, ack_now, set_mss, alive, tcp_pcb_purge, enter_time_wait, synchronized,
  is_syn_sent, handshaking, is_closed, is_last_ack, is_ok, is_abrt, tcp_eff_send_mss, err_ok,
  err_abrt, err_rst, err_other,
}

-- What the global variables hold of the segment: `flags` is `ack`, `rst` and the flags of `inseg`,
-- `hdrlen` counts words, and `opts` is the memory from the options on.
pub record Arrival : Type 0 where
  pub inseg : Segment
  pub ack : Bool
  pub rst : Bool
  pub ackno : ℕ
  pub wnd : ℕ
  pub hdrlen : ℕ
  pub opts : List ℕ

abbrev pub tcplen_in : Arrival → ℕ
tcplen_in a = u16 (tcplen_of a.inseg)

-- What `tcp_process` returns and leaves in `recv_data` and `recv_flags`. `aborted` says that it has
-- called `tcp_abort`; `resets` are the numbers that it has given to `tcp_rst`.
pub record Processed : Type 0 where
  pub tcb : Tcb
  pub err : ErrT
  pub recv_data : List Pbuf
  pub got_fin : Bool
  pub reset : Bool
  pub ended : Bool
  pub aborted : Bool
  pub resets : List (ℕ × ℕ)

abbrev pub quiet : ErrT → Tcb → Processed
quiet err t = record {
  tcb = t;
  err = err;
  recv_data = [];
  got_fin = false;
  reset = false;
  ended = false;
  aborted = false;
  resets = [];
}

abbrev pub sent_reset : Arrival → Tcb → Processed
sent_reset a t = record (quiet err_ok t) {
  resets = (a.ackno, u32 (a.inseg.seqno + tcplen_in a)) ∷ [];
}

-- The states behind the handshake, when `tcp_receive` is done: `all` says that the segment acknowledges
-- all that has been sent, `fin` that a FIN is in sequence.
abbrev pub settle : State → Bool → Bool → Tcb → Tcb
settle established all true t = set_state close_wait (ack_now t)
settle close_wait all true t = set_state close_wait (ack_now t)
settle fin_wait_1 true true t = enter_time_wait (ack_now t)
settle fin_wait_1 false true t = set_state closing (ack_now t)
settle fin_wait_1 true false t = set_state fin_wait_2 t
settle fin_wait_2 all true t = enter_time_wait (ack_now t)
settle closing true fin t = enter_time_wait t
settle st all fin t = t

-- The ticks of TCP, whether there is memory for a copy of the segment and for an acknowledgement, and
-- the interface. `connected` and `accept` are the application's functions.
module _ (tcp_ticks : ℕ) (memory room : Bool) (mtu : Option ℕ)
    (connected accept : Tcb → ErrT × Tcb) where
  -- Both halves of `tcp_receive`.
  unfoldable pub tcp_receive : Arrival → Tcb → Option (Tcb × List Pbuf × Bool)
  tcp_receive a t = asserting (synchronized t.rcv.state) (
      (if a.ack
        then receive_ack tcp_ticks a.inseg.seqno a.ackno a.wnd (tcplen_in a) t.snd
        else some t.snd)
      >>= λ snd. receive_data memory room a.inseg.seqno (tcplen_in a) a.inseg t.rcv >>= λ y.
          some (record t { rcv = y.pcb; snd = snd }, y.recv_data, y.got_fin))

  unfoldable pub process_synchronized : Arrival → Tcb → Option Processed
  process_synchronized a t = tcp_receive a t >>= λ r.
      let all = a.ack && a.ackno == r.0.snd.snd_nxt in
      some (record (quiet err_ok (settle t.rcv.state all r.2 r.0)) {
        recv_data = r.1;
        got_fin = r.2;
        ended = is_last_ack t.rcv.state && all;
      })

  -- The answer to our SYN: `rseg` is that SYN.
  unfoldable pub connect : Segment → List Segment → Arrival → Tcb → Option Processed
  connect rseg rest a t =
      let mss = tcp_eff_send_mss mtu t.snd.mss in
      let nxt = u32 (a.inseg.seqno + 1) in
      let x = t.snd in
      asserting (ltb 0 x.snd_queuelen) (
        let (err, u) = connected (record t {
          rcv = record t.rcv {
            rcv_nxt = nxt;
            rcv_ann_right_edge = nxt;
            state = established;
            mss = mss;
          };
          snd = record x {
            snd_buf = u16 (x.snd_buf + 1);
            lastack = a.ackno;
            snd_wnd = a.wnd;
            snd_wnd_max = a.wnd;
            snd_wl1 = sub32 a.inseg.seqno 1;
            mss = mss;
            ssthresh = u16 (mss * 10);
            cwnd = if x.cwnd == 1 then u16 (mss * 2) else mss;
            snd_queuelen = sub16 x.snd_queuelen 1;
            unacked = rest;
            running = not (null_queue rest);
            nrtx = if null_queue rest then x.nrtx else 0;
          };
        }) in
        some (if is_abrt err then quiet err_abrt u else quiet err_ok (ack_now u)))

  -- In SYN_SENT; with no SYN on its way a NULL pointer is followed.
  unfoldable pub process_syn_sent : List Segment → Arrival → Tcb → Option Processed
  process_syn_sent [] a t =
      if a.ack && a.inseg.syn then none else some (if a.ack then sent_reset a t else quiet err_ok t)
  process_syn_sent (rseg ∷ rest) a t =
      if a.ack && a.inseg.syn && a.ackno == u32 (rseg.seqno + 1)
      then connect rseg rest a t
      else some (if a.ack then sent_reset a t else quiet err_ok t)

  -- `accept` has returned.
  unfoldable pub accepted : Arrival → ErrT → Tcb → Option Processed
  accepted a err t =
      if not (is_ok err)
      then some (record (quiet err_abrt t) { aborted = not (is_abrt err) })
      else tcp_receive a t >>= λ r.
          let x = r.0.snd in
          let u = record r.0 {
            snd = record x {
              acked = x.acked - 1;
              cwnd = if t.snd.cwnd == 1 then u16 (x.mss * 2) else x.mss;
            };
          } in
          some (record (quiet err_ok (if r.2 then set_state close_wait (ack_now u) else u)) {
            recv_data = r.1;
            got_fin = r.2;
          })

  unfoldable pub process_syn_rcvd : Arrival → Tcb → Option Processed
  process_syn_rcvd a t =
      if a.ack
      then (if seq_between a.ackno (u32 (t.snd.lastack + 1)) t.snd.snd_nxt
          then (let (err, u) = accept (set_state established t) in accepted a err u)
          else some (sent_reset a t))
      else some (
          quiet err_ok (
            if a.inseg.syn && a.inseg.seqno == sub32 t.rcv.rcv_nxt 1
            then record t { snd = tcp_rexmit t.snd }
            else t))

  unfoldable pub process_state : State → Arrival → Tcb → Option Processed
  process_state closed a t = some (quiet err_ok t)
  process_state listen a t = some (quiet err_ok t)
  process_state time_wait a t = some (quiet err_ok t)
  process_state syn_sent a t = process_syn_sent t.snd.unacked a t
  process_state syn_rcvd a t = process_syn_rcvd a t
  process_state st a t = process_synchronized a t

  unfoldable pub process_reset : Arrival → Tcb → Option Processed
  process_reset a t =
      let acceptable =
        if is_syn_sent t.rcv.state
        then a.ackno == t.snd.snd_nxt
        else seq_between a.inseg.seqno t.rcv.rcv_nxt (u32 (t.rcv.rcv_nxt + t.rcv.rcv_wnd)) in
      if acceptable
      then asserting (not (is_closed t.rcv.state)) (
          some (record (quiet err_rst (record t { rcv = record t.rcv { ack_delay = false } })) {
            reset = true;
          }))
      else some (quiet err_ok t)

  unfoldable pub tcp_process : Arrival → Tcb → Option Processed
  tcp_process a t =
      if a.rst
      then process_reset a t
      else if a.inseg.syn && not (handshaking t.rcv.state)
      then some (quiet err_ok (ack_now t))
      else tcp_parseopt a.hdrlen a.opts t.snd.mss >>= λ mss. process_state t.rcv.state a (
          set_mss mss
            (record t { tmr = if t.rxclosed then t.tmr else tcp_ticks; keep_cnt_sent = 0 }))

-- A segment for a connection in TIME_WAIT; the result has what is given to `tcp_rst`.
unfoldable pub tcp_timewait_input : ℕ → Bool → Arrival → Tcb → Option (Tcb × List (ℕ × ℕ))
tcp_timewait_input tcp_ticks room a t =
    let u = if not a.inseg.syn && a.inseg.fin then record t { tmr = tcp_ticks } else t in
    if a.rst
    then some (t, [])
    else if a.inseg.syn
        && seq_between a.inseg.seqno t.rcv.rcv_nxt (u32 (t.rcv.rcv_nxt + t.rcv.rcv_wnd))
    then some (t, (a.ackno, u32 (a.inseg.seqno + tcplen_in a)) ∷ [])
    else if ltb 0 (tcplen_in a)
    then (tcp_output room false (tcp_ack_now u.rcv) >>= λ rcv. some (record u { rcv = rcv }, []))
    else some (u, [])
