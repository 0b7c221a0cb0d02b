-- ===== src/Tcp/Close.antt =====
-- Closing a connection: `tcp_close`, `tcp_close_shutdown` and `tcp_pcb_remove` of tcp.c, `tcp_send_fin` and
-- `tcp_enqueue_flags` of tcp_out.c.
pub mod Fin
pub mod Orderly
use qladder.Prelude.{
  ℕ, ◌+◌, ◌-◌, List, [], ◌∷◌, ◌++◌, Option, none, some, ◌>>=◌, Bool, true, false, ◌&&◌, ◌||◌, not,
  ltb, leb, ◌==◌, if◌then◌else◌, u16, u32,
}
use qladder.Pbuf.{Pbuf, pbuf_clen}
use qladder.Tcp.{
  State, closed, listen, syn_sent, syn_rcvd, established, fin_wait_1, close_wait, last_ack,
  time_wait, Segment, asserting, tcp_wnd, listening,
}
use qladder.Tcp.Ack.{null_queue}
use qladder.Tcp.Connection.{
  Tcb, ErrT, err_ok, err_other, set_state, ack_now, tcp_pcb_purge, enter_time_wait, is_ok,
}
use qladder.Tcp.Output.{tcp_snd_queuelen, tcp_output}

-- A segment with a header alone, whose bytes are left out.
abbrev pub bare_segment : ℕ → Bool → Bool → Segment
bare_segment seqno syn fin = record {
  seqno = seqno;
  len = 0;
  fin = fin;
  syn = syn;
  p = record { payload = []; tot_len = 0; len = 0; ref = 1 } ∷ [];
}

-- `memory` is for the buffer and the segment; TCP_SNDQUEUELEN_OVERFLOW is TCP_SND_QUEUELEN here, and
-- ERR_MEM is `err_other`.
unfoldable pub tcp_enqueue_flags : Bool → Bool → Bool → Tcb → Option (ErrT × Tcb)
tcp_enqueue_flags memory syn fin t =
    let x = t.snd in
    let seg = bare_segment t.snd_lbb syn fin in
    asserting (syn || fin) (
      some (
        if leb tcp_snd_queuelen x.snd_queuelen || ltb tcp_snd_queuelen x.snd_queuelen
        then (err_other, record t { nagle_memerr = true })
        else if x.snd_buf == 0
        then (err_other, t)
        else if not memory
        then (err_other, record t { nagle_memerr = true })
        else (
          err_ok,
          record t {
            snd = record x {
              unsent = x.unsent ++ (seg ∷ []);
              unsent_oversize = 0;
              snd_buf = x.snd_buf - 1;
              snd_queuelen = u16 (x.snd_queuelen + pbuf_clen seg.p);
            };
            snd_lbb = u32 (t.snd_lbb + 1);
            fin_queued = t.fin_queued || fin;
          },
        )))

-- FIN is put on the last segment, if there is one and it has neither SYN nor FIN.
abbrev pub add_fin : List Segment → Option (List Segment)
add_fin [] = none
add_fin (seg ∷ []) = if seg.syn || seg.fin then none else some (record seg { fin = true } ∷ [])
add_fin (seg ∷ next ∷ r) = add_fin (next ∷ r) >>= λ q. some (seg ∷ q)

abbrev pub fin_added : Bool → Option (List Segment) → Tcb → Option (ErrT × Tcb)
fin_added memory none t = tcp_enqueue_flags memory false true t
fin_added memory (some q) t =
    some (err_ok, record t { snd = record t.snd { unsent = q }; fin_queued = true })

abbrev pub tcp_send_fin : Bool → Tcb → Option (ErrT × Tcb)
tcp_send_fin memory t = fin_added memory (add_fin t.snd.unsent) t

-- What closing does: the error, the connection, whether it is deallocated, and the numbers given to
-- `tcp_rst`.
pub record Closed : Type 0 where
  pub tcb : Tcb
  pub err : ErrT
  pub freed : Bool
  pub resets : List (ℕ × ℕ)

abbrev pub null_pbuf : List Pbuf → Bool
null_pbuf [] = true
null_pbuf (p ∷ r) = false

-- ESTABLISHED or CLOSE_WAIT.
abbrev pub is_open : State → Bool
is_open established = true
is_open close_wait = true
is_open s = false

abbrev pub is_established : State → Bool
is_established established = true
is_established s = false

abbrev pub is_time_wait : State → Bool
is_time_wait time_wait = true
is_time_wait s = false

-- Data that the application has not taken.
abbrev pub not_taken : Tcb → Bool
not_taken t = not (null_pbuf t.refused_data) || not (t.rcv.rcv_wnd == tcp_wnd)

-- The ticks of TCP, whether there is no route, whether there is memory for a FIN and for an
-- acknowledgement, and whether the connection's input is being processed.
module _ (tcp_ticks : ℕ) (no_route memory room processing : Bool) where
  -- The queue of segments out of sequence is that of the purge. The assertion `tcp_pcbs_sane()`, on the
  -- lists of connections, is left out.
  unfoldable pub tcp_pcb_remove : Tcb → Option Tcb
  tcp_pcb_remove t =
      let u = tcp_pcb_purge t in
      (if not (is_time_wait t.rcv.state || listening t.rcv.state) && t.rcv.ack_delay
        then tcp_output tcp_ticks no_route room processing (ack_now u)
        else some u)
      >>= λ v.
          asserting
            (listening t.rcv.state
              || (null_queue v.snd.unsent && null_queue v.snd.unacked && null_queue v.rcv.ooseq))
            (some (set_state closed v))

  -- A FIN is sent, and if it is queued, the state is `next`.
  unfoldable pub close_with : State → Tcb → Option Closed
  close_with next t = tcp_send_fin memory t >>= λ r.
      if is_ok r.0
      then (tcp_output tcp_ticks no_route room processing (set_state next r.1) >>= λ u.
          some (record { tcb = u; err = err_ok; freed = false; resets = [] }))
      else some (record { tcb = r.1; err = r.0; freed = false; resets = [] })

  -- The `switch`. In CLOSED the connection is on no list of active ones.
  unfoldable pub close_state : State → Tcb → Option Closed
  close_state closed t = some (record { tcb = t; err = err_ok; freed = true; resets = [] })
  close_state listen t =
      tcp_pcb_remove t >>= λ u. some (record { tcb = u; err = err_ok; freed = true; resets = [] })
  close_state syn_sent t =
      tcp_pcb_remove t >>= λ u. some (record { tcb = u; err = err_ok; freed = true; resets = [] })
  close_state syn_rcvd t = close_with fin_wait_1 t
  close_state established t = close_with fin_wait_1 t
  close_state close_wait t = close_with last_ack t
  close_state st t = some (record { tcb = t; err = err_ok; freed = false; resets = [] })

  unfoldable pub tcp_close_shutdown : Bool → Tcb → Option Closed
  tcp_close_shutdown rst_on_unacked_data t =
      if rst_on_unacked_data && is_open t.rcv.state && not_taken t
      then asserting t.rxclosed (
          some (record {
            tcb = if is_established t.rcv.state then enter_time_wait t else tcp_pcb_purge t;
            err = err_ok;
            freed = not (is_established t.rcv.state);
            resets = (t.snd.snd_nxt, t.rcv.rcv_nxt) ∷ [];
          }))
      else close_state t.rcv.state t

  unfoldable pub tcp_close : Tcb → Option Closed
  tcp_close t =
      tcp_close_shutdown true (if listening t.rcv.state then t else record t { rxclosed = true })
