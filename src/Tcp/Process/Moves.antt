-- ===== src/Tcp/Process/Moves.antt =====
-- The states that a segment takes a connection to are those that the relation of Arcs allows.
use qladder.Prelude.{
  ℕ, ◌+◌, ◌-◌, ◌*◌, ◌≡◌, inl, inr, refl, sym, subst, List, [], ◌∷◌, Option, none, some, Allows,
  >>=-Allows, if-Allows, Bool, true, false, ◌&&◌, not, ltb, ◌==◌, if◌then◌else◌, u16, u32, sub32,
  Bool-cases, arith,
}
use qladder.Pbuf.{Pbuf}
use qladder.Tcp.{
  State, closed, listen, syn_sent, syn_rcvd, established, fin_wait_1, fin_wait_2, close_wait,
  closing, last_ack, time_wait, Segment, seq_between,
}
use qladder.Tcp.Window.{asserting-Allows}
use qladder.Tcp.Receive.{receive_data}
use qladder.Tcp.Receive.States.{IsStateAfter, receive_data-IsStateAfter, anything}
use qladder.Tcp.Ack.{receive_ack}
use qladder.Tcp.Options.{tcp_parseopt}
use qladder.Tcp.Connection.{
  Tcb, ErrT, err_ok, err_abrt, set_state, ack_now, set_mss, synchronized, is_syn_sent, is_closed,
  handshaking, is_ok, is_abrt,
}
use qladder.Tcp.Process.{
  Arrival, tcplen_in, Processed, quiet, settle, sent_reset, tcp_receive, process_synchronized,
  connect, process_syn_sent, accepted, process_syn_rcvd, process_state, process_reset, tcp_process,
}
use qladder.Tcp.Process.Arcs.{
  Moves, HasMoved, IsReceivedIn, unmoved, stays_at, settle-Moves, settle-snd_nxt, stays, connects,
  accepts, accepts_last,
}

module _ (tcp_ticks : ℕ) (memory room : Bool) (mtu : Option ℕ)
    (connected accept : Tcb → ErrT × Tcb) where
  tcp_receive-IsReceivedIn :
      (a : Arrival) (t : Tcb)
      → Allows
          (λ r. IsReceivedIn t.rcv.state r.2 r.0)
          (tcp_receive tcp_ticks memory room mtu connected accept a t)
  unfolding tcp_receive
  tcp_receive-IsReceivedIn a t =
      let P : Tcb × List Pbuf × Bool → Type 0 = λ r. IsReceivedIn t.rcv.state r.2 r.0 in
      let acks =
        if a.ack
        then receive_ack tcp_ticks a.inseg.seqno a.ackno a.wnd (tcplen_in a) t.snd
        else some t.snd in
      asserting-Allows P (synchronized t.rcv.state) _ (
        >>=-Allows (λ _. Unit {0}) P acks _ (anything acks)
          λ snd _.
            >>=-Allows (IsStateAfter t.rcv.state) P
              (receive_data memory room a.inseg.seqno (tcplen_in a) a.inseg t.rcv) _
              (receive_data-IsStateAfter memory room a.inseg.seqno (tcplen_in a) a.inseg t.rcv)
              λ y h. h)

  pub process_synchronized-HasMoved :
      (a : Arrival) (t : Tcb)
      → Allows
          (HasMoved a t.rcv.state)
          (process_synchronized tcp_ticks memory room mtu connected accept a t)
  unfolding process_synchronized
  process_synchronized-HasMoved a t =
      >>=-Allows (λ r. IsReceivedIn t.rcv.state r.2 r.0) (HasMoved a t.rcv.state)
        (tcp_receive tcp_ticks memory room mtu connected accept a t) _
        (tcp_receive-IsReceivedIn a t)
        λ r h.
          let all = a.ack && a.ackno == r.0.snd.snd_nxt in
          let u = settle t.rcv.state all r.2 r.0 in
          subst (λ n. Moves a r.2 (a.ack && a.ackno == n) t.rcv.state u.rcv.state)
            (sym (settle-snd_nxt t.rcv.state all r.2 r.0))
            (settle-Moves a t.rcv.state all r.2 r.0 h)

  -- The application's functions leave the state as it is.
  abbrev KeepsState : (Tcb → ErrT × Tcb) → Type 0
  KeepsState f = (t : Tcb) → (f t).1.rcv.state ≡ t.rcv.state

  either-HasMoved :
      (b : Bool) (a : Arrival) (st : State) (x y : Processed)
      → HasMoved a st x
      → HasMoved a st y
      → HasMoved a st (if b then x else y)
  either-HasMoved true a st x y h k = h
  either-HasMoved false a st x y h k = k

  refused-HasMoved :
      (a : Arrival) (t : Tcb)
      → t.rcv.state ≡ syn_sent
      → HasMoved a syn_sent (if a.ack then sent_reset a t else quiet err_ok t)
  refused-HasMoved a t e =
      either-HasMoved a.ack a syn_sent (sent_reset a t) (quiet err_ok t)
        (stays_at a false _ syn_sent t.rcv.state e tt)
        (stays_at a false _ syn_sent t.rcv.state e tt)

  connected-HasMoved :
      (a : Arrival) (err : ErrT) (u : Tcb)
      → (a.ack && a.inseg.syn) ≡ true
      → u.rcv.state ≡ established
      → HasMoved a syn_sent (if is_abrt err then quiet err_abrt u else quiet err_ok (ack_now u))
  connected-HasMoved a err u answer e =
      let m : (all : Bool) → Moves a false all syn_sent u.rcv.state = λ all.
        subst (Moves a false all syn_sent) (sym e)
          (connects (ground (arith, answer)) (ground (arith, answer))) in
      either-HasMoved (is_abrt err) a syn_sent (quiet err_abrt u) (quiet err_ok (ack_now u)) (m _)
        (m _)

  process_syn_sent-HasMoved :
      (q : List Segment) (a : Arrival) (t : Tcb)
      → KeepsState connected
      → t.rcv.state ≡ syn_sent
      → Allows
          (HasMoved a syn_sent)
          (process_syn_sent tcp_ticks memory room mtu connected accept q a t)
  unfolding process_syn_sent connect
  process_syn_sent-HasMoved [] a t keeps e =
      if-Allows (HasMoved a syn_sent) (a.ack && a.inseg.syn) none _ (λ _. tt)
        λ _. refused-HasMoved a t e
  process_syn_sent-HasMoved (rseg ∷ rest) a t keeps e =
      if-Allows (HasMoved a syn_sent) (a.ack && a.inseg.syn && a.ackno == u32 (rseg.seqno + 1)) _ _
        (λ answer.
          asserting-Allows (HasMoved a syn_sent) (ltb 0 t.snd.snd_queuelen) _
            (connected-HasMoved a _ _ (ground (arith, answer)) (keeps _)))
        λ _. refused-HasMoved a t e

  taken_in :
      (a : Arrival) (fin : Bool) (u : Tcb)
      → a.ack ≡ true
      → IsReceivedIn established fin u
      → (all : Bool)
      → Moves a fin all syn_rcvd (if fin then set_state close_wait (ack_now u) else u).rcv.state
  taken_in a true u acks h all = accepts_last acks refl
  taken_in a false u acks h all =
      subst (Moves a false all syn_rcvd) (sym (unmoved established u h)) (accepts acks)

  accepted-HasMoved :
      (a : Arrival) (err : ErrT) (t : Tcb)
      → a.ack ≡ true
      → t.rcv.state ≡ established
      → Allows (HasMoved a syn_rcvd) (accepted tcp_ticks memory room mtu connected accept a err t)
  unfolding accepted
  accepted-HasMoved a err t acks e =
      if-Allows (HasMoved a syn_rcvd) (not (is_ok err)) _ _
        (λ _.
          subst (Moves a false (a.ack && a.ackno == t.snd.snd_nxt) syn_rcvd) (sym e) (accepts acks))
        λ _.
          >>=-Allows (λ r. IsReceivedIn t.rcv.state r.2 r.0) (HasMoved a syn_rcvd)
            (tcp_receive tcp_ticks memory room mtu connected accept a t) _
            (tcp_receive-IsReceivedIn a t)
            λ r h.
              let x = r.0.snd in
              taken_in a r.2
                (record r.0 {
                  snd = record x {
                    acked = x.acked - 1;
                    cwnd = if t.snd.cwnd == 1 then u16 (x.mss * 2) else x.mss;
                  };
                })
                acks (subst (λ st. IsReceivedIn st r.2 r.0) e h) _

  process_syn_rcvd-HasMoved :
      (a : Arrival) (t : Tcb)
      → KeepsState accept
      → t.rcv.state ≡ syn_rcvd
      → Allows
          (HasMoved a syn_rcvd)
          (process_syn_rcvd tcp_ticks memory room mtu connected accept a t)
  unfolding process_syn_rcvd
  process_syn_rcvd-HasMoved a t keeps e =
      if-Allows (HasMoved a syn_rcvd) a.ack _ _
        (λ acks.
          if-Allows (HasMoved a syn_rcvd)
            (seq_between a.ackno (u32 (t.snd.lastack + 1)) t.snd.snd_nxt) _ _
            (λ _. accepted-HasMoved a _ _ acks (keeps (set_state established t)))
            λ _. stays_at a false _ syn_rcvd t.rcv.state e tt)
        λ _. elim (Bool-cases (a.inseg.syn && a.inseg.seqno == sub32 t.rcv.rcv_nxt 1)) [
          | inl again ↦ rw again (stays_at a false _ syn_rcvd t.rcv.state e tt)
          | inr other ↦ rw other (stays_at a false _ syn_rcvd t.rcv.state e tt)
        ]

  synchronized_at :
      (st : State) (a : Arrival) (t : Tcb)
      → t.rcv.state ≡ st
      → Allows (HasMoved a st) (process_synchronized tcp_ticks memory room mtu connected accept a t)
  synchronized_at st a t e =
      subst
        (λ n.
          Allows (HasMoved a n)
            (process_synchronized tcp_ticks memory room mtu connected accept a t))
        e (process_synchronized-HasMoved a t)

  process_state-HasMoved :
      (st : State) (a : Arrival) (t : Tcb)
      → KeepsState connected
      → KeepsState accept
      → t.rcv.state ≡ st
      → Allows (HasMoved a st) (process_state tcp_ticks memory room mtu connected accept st a t)
  unfolding process_state
  process_state-HasMoved closed a t k l e = stays_at a false _ closed t.rcv.state e tt
  process_state-HasMoved listen a t k l e = stays_at a false _ listen t.rcv.state e tt
  process_state-HasMoved time_wait a t k l e = stays_at a false _ time_wait t.rcv.state e tt
  process_state-HasMoved syn_sent a t k l e = process_syn_sent-HasMoved t.snd.unacked a t k e
  process_state-HasMoved syn_rcvd a t k l e = process_syn_rcvd-HasMoved a t l e
  process_state-HasMoved established a t k l e = synchronized_at established a t e
  process_state-HasMoved fin_wait_1 a t k l e = synchronized_at fin_wait_1 a t e
  process_state-HasMoved fin_wait_2 a t k l e = synchronized_at fin_wait_2 a t e
  process_state-HasMoved close_wait a t k l e = synchronized_at close_wait a t e
  process_state-HasMoved closing a t k l e = synchronized_at closing a t e
  process_state-HasMoved last_ack a t k l e = synchronized_at last_ack a t e

  process_reset-HasMoved :
      (a : Arrival) (t : Tcb)
      → a.rst ≡ true
      → Allows
          (HasMoved a t.rcv.state)
          (process_reset tcp_ticks memory room mtu connected accept a t)
  unfolding process_reset
  process_reset-HasMoved a t rst =
      if-Allows (HasMoved a t.rcv.state)
        (if is_syn_sent t.rcv.state
          then a.ackno == t.snd.snd_nxt
          else seq_between a.inseg.seqno t.rcv.rcv_nxt (u32 (t.rcv.rcv_nxt + t.rcv.rcv_wnd)))
        _ _
        (λ _.
          asserting-Allows (HasMoved a t.rcv.state) (not (is_closed t.rcv.state)) _
            (stays t.rcv.state (inl rst)))
        λ _. stays t.rcv.state (inl rst)

  -- A segment for a connection in any state, with application functions that leave the state as it is:
  -- when no assertion fails, the state stays or goes along an arc of the relation for what the segment
  -- brings: our SYN answered or acknowledged, the peer's FIN in sequence, or all that was sent
  -- acknowledged.
  pub tcp_process-HasMoved :
      (a : Arrival) (t : Tcb)
      → KeepsState connected
      → KeepsState accept
      → Allows (HasMoved a t.rcv.state) (tcp_process tcp_ticks memory room mtu connected accept a t)
  unfolding tcp_process
  tcp_process-HasMoved a t k l =
      let P = HasMoved a t.rcv.state in
      if-Allows P a.rst _ _ (λ rst. process_reset-HasMoved a t rst)
        λ _.
          if-Allows P (a.inseg.syn && not (handshaking t.rcv.state)) _ _
            (λ again. stays t.rcv.state (inr (inl (ground (arith, again)))))
            λ _.
              >>=-Allows (λ _. Unit {0}) P (tcp_parseopt a.hdrlen a.opts t.snd.mss) _
                (anything (tcp_parseopt a.hdrlen a.opts t.snd.mss))
                λ mss _.
                  process_state-HasMoved t.rcv.state a
                    (set_mss mss (record t {
                      tmr = if t.rxclosed then t.tmr else tcp_ticks;
                      keep_cnt_sent = 0;
                    }))
                    k l refl
