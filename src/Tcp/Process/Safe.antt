-- ===== src/Tcp/Process/Safe.antt =====
-- The whole handling of a segment for a connection behind the handshake: what both halves of
-- `tcp_receive` rely on is kept, and no assertion fails.
use qladder.Prelude.{
  ℕ, ◌+◌, ◌-◌, ◌*◌, ◌^◌, ◌≤◌, ◌<◌, ◌≡◌, ◌⊎◌, inl, inr, refl, sym, subst, List, Option, some, Gives,
  >>=-Gives, if-Gives, Gives-Allows, Bool, true, false, ◌&&◌, not, ◌==◌, if◌then◌else◌, length, u32,
  Bool-cases, arith,
}
use qladder.Pbuf.{Pbuf}
use qladder.Tcp.{
  State, closed, listen, syn_sent, syn_rcvd, established, fin_wait_1, fin_wait_2, close_wait,
  closing, last_ack, time_wait, tcplen_of, seq_between,
}
use qladder.Tcp.Stream.{IsPart}
use qladder.Tcp.Window.{asserting-Gives}
use qladder.Tcp.Receive.{receive_data}
use qladder.Tcp.Receive.Delivery.{IsOutcome}
use qladder.Tcp.Receive.Arrive.{IsReceiving, nothing-IsOutcome, receive_data-IsOutcome}
use qladder.Tcp.Ack.{receive_ack}
use qladder.Tcp.Ack.Congestion.{IsSending}
use qladder.Tcp.Ack.Accounts.{receive_ack-IsSending}
use qladder.Tcp.Options.{tcp_parseopt}
use qladder.Tcp.Options.Limits.{IsMss, AllBytes, tcp_parseopt-IsMss}
use qladder.Tcp.Connection.{
  Tcb, ErrT, err_ok, err_rst, set_mss, ack_now, alive, enter_time_wait, synchronized, is_syn_sent,
  is_closed, handshaking,
}
use qladder.Tcp.Process.{
  Arrival, tcplen_in, Processed, quiet, settle, tcp_receive, process_synchronized, process_state,
  process_reset, tcp_process,
}
use qladder.Tcp.Process.Arcs.{HasMoved, stays}
use qladder.Tcp.Process.Moves.{process_synchronized-HasMoved}

module _ (s : ℕ → Option ℕ) where
  -- Both halves are as they should be.
  abbrev pub IsTcb : ℕ → Tcb → Type 0
  IsTcb right t = IsReceiving s right t.rcv × IsSending t.snd

  -- What has been delivered, and the counters, which are of no use any more in TIME_WAIT.
  abbrev pub IsHandled : ℕ → ℕ → Tcb → List Pbuf → Bool → Type 0
  IsHandled first right t recv_data got_fin =
      IsOutcome s first right (record { pcb = t.rcv; recv_data = recv_data; got_fin = got_fin })
      × ((t.rcv.state ≡ time_wait) ⊎ IsSending t.snd)

  abbrev pub IsProcessed : ℕ → ℕ → Processed → Type 0
  IsProcessed first right r = IsHandled first right r.tcb r.recv_data r.got_fin

  quiet-IsProcessed :
      (err : ErrT) (right : ℕ) (t : Tcb)
      → IsTcb right t
      → IsProcessed t.rcv.rcv_nxt right (quiet err t)
  quiet-IsProcessed err right t h = (nothing-IsOutcome s right t.rcv h.0, inr h.1)

  -- A segment that carries a part of the stream; the memory goes on behind its header by a byte.
  abbrev pub IsArrival : ℕ → ℕ → Arrival → Type 0
  IsArrival nxt right a =
      IsPart s a.inseg
      × (tcplen_of a.inseg < 2 ^ 15)
      × (nxt < a.inseg.seqno + 2 ^ 31)
      × ((a.inseg.seqno ≤ nxt) ⊎ (a.inseg.seqno + tcplen_of a.inseg ≤ right))
      × (a.hdrlen ≤ 15)
      × AllBytes a.opts
      × ((a.hdrlen - 5) * 4 < length a.opts)

  enter_time_wait-IsHandled :
      (first right : ℕ) (t : Tcb) (d : List Pbuf) (fin : Bool)
      → IsHandled first right t d fin
      → IsHandled first right (enter_time_wait t) d fin
  enter_time_wait-IsHandled first right t d fin h = elim (Bool-cases (alive t.rcv.state)) [
    | inl e ↦ rw e ((h.0.0, tt), inl refl)
    | inr e ↦ rw e (h.0, inl refl)
  ]

  settle-IsHandled :
      (first right : ℕ) (st : State) (all fin : Bool) (t : Tcb) (d : List Pbuf)
      → IsHandled first right t d fin
      → IsSending t.snd
      → IsHandled first right (settle st all fin t) d fin
  settle-IsHandled first right established all true t d h k = (h.0, inr k)
  settle-IsHandled first right established all false t d h k = h
  settle-IsHandled first right close_wait all true t d h k = (h.0, inr k)
  settle-IsHandled first right close_wait all false t d h k = h
  settle-IsHandled first right fin_wait_1 true true t d h k =
      enter_time_wait-IsHandled first right (ack_now t) d true h
  settle-IsHandled first right fin_wait_1 false true t d h k = (h.0, inr k)
  settle-IsHandled first right fin_wait_1 true false t d h k = (h.0, inr k)
  settle-IsHandled first right fin_wait_1 false false t d h k = h
  settle-IsHandled first right fin_wait_2 all true t d h k =
      enter_time_wait-IsHandled first right (ack_now t) d true h
  settle-IsHandled first right fin_wait_2 all false t d h k = h
  settle-IsHandled first right closing true fin t d h k =
      enter_time_wait-IsHandled first right t d fin h
  settle-IsHandled first right closing false fin t d h k = h
  settle-IsHandled first right closed all fin t d h k = h
  settle-IsHandled first right listen all fin t d h k = h
  settle-IsHandled first right syn_sent all fin t d h k = h
  settle-IsHandled first right syn_rcvd all fin t d h k = h
  settle-IsHandled first right last_ack all fin t d h k = h
  settle-IsHandled first right time_wait all fin t d h k = h

  module _ (tcp_ticks : ℕ) (memory room : Bool) (mtu : Option ℕ)
      (connected accept : Tcb → ErrT × Tcb) where
    tcp_receive-IsHandled :
        (right : ℕ) (a : Arrival) (t : Tcb)
        → IsTcb right t
        → IsArrival t.rcv.rcv_nxt right a
        → synchronized t.rcv.state ≡ true
        → Gives
            (λ r. IsHandled t.rcv.rcv_nxt right r.0 r.1 r.2 × IsSending r.0.snd)
            (tcp_receive tcp_ticks memory room mtu connected accept a t)
    unfolding tcp_receive
    tcp_receive-IsHandled right a t h k e =
        let P : Tcb × List Pbuf × Bool → Type 0 =
          λ r. IsHandled t.rcv.rcv_nxt right r.0 r.1 r.2 × IsSending r.0.snd in
        let (part, short, recent, inside, words, bytes, room_behind) = k in
        let len : tcplen_in a ≡ tcplen_of a.inseg = omega (arith, short) in
        asserting-Gives P (synchronized t.rcv.state) _ e (
          >>=-Gives IsSending P
            (if a.ack
              then receive_ack tcp_ticks a.inseg.seqno a.ackno a.wnd (tcplen_in a) t.snd
              else some t.snd)
            _
            (if-Gives IsSending a.ack _ _
              (λ _.
                receive_ack-IsSending tcp_ticks a.inseg.seqno a.ackno a.wnd (tcplen_in a) t.snd h.1)
              (λ _. h.1))
            λ snd m.
              >>=-Gives (IsOutcome s t.rcv.rcv_nxt right) P
                (receive_data memory room a.inseg.seqno (tcplen_in a) a.inseg t.rcv) _
                (subst
                  (λ n.
                    Gives (IsOutcome s t.rcv.rcv_nxt right)
                      (receive_data memory room a.inseg.seqno n a.inseg t.rcv))
                  (sym len)
                  (receive_data-IsOutcome s memory room right a.inseg t.rcv h.0 part short recent
                    inside))
                λ y n. ((n, inr m), m))

    process_synchronized-IsProcessed :
        (right : ℕ) (a : Arrival) (t : Tcb)
        → IsTcb right t
        → IsArrival t.rcv.rcv_nxt right a
        → synchronized t.rcv.state ≡ true
        → Gives
            (IsProcessed t.rcv.rcv_nxt right)
            (process_synchronized tcp_ticks memory room mtu connected accept a t)
    unfolding process_synchronized
    process_synchronized-IsProcessed right a t h k e =
        >>=-Gives (λ r. IsHandled t.rcv.rcv_nxt right r.0 r.1 r.2 × IsSending r.0.snd)
          (IsProcessed t.rcv.rcv_nxt right)
          (tcp_receive tcp_ticks memory room mtu connected accept a t) _
          (tcp_receive-IsHandled right a t h k e)
          λ r m.
            settle-IsHandled t.rcv.rcv_nxt right t.rcv.state (a.ack && a.ackno == r.0.snd.snd_nxt)
              r.2 r.0 r.1 m.0 m.1

    -- The state decides nothing but the settling.
    in_state :
        (st : State) (a : Arrival) (t : Tcb) (P : Processed → Type 0)
        → synchronized st ≡ true
        → alive st ≡ true
        → Gives P (process_synchronized tcp_ticks memory room mtu connected accept a t)
        → Gives P (process_state tcp_ticks memory room mtu connected accept st a t)
    unfolding process_state
    in_state closed a t P e l h = absurd (ground arith)
    in_state listen a t P e l h = absurd (ground arith)
    in_state syn_sent a t P e l h = absurd (ground arith)
    in_state syn_rcvd a t P e l h = absurd (ground arith)
    in_state time_wait a t P e l h = absurd (ground arith)
    in_state established a t P e l h = h
    in_state fin_wait_1 a t P e l h = h
    in_state fin_wait_2 a t P e l h = h
    in_state close_wait a t P e l h = h
    in_state closing a t P e l h = h
    in_state last_ack a t P e l h = h

    not_closed : (st : State) → synchronized st ≡ true → not (is_closed st) ≡ true
    not_closed closed e = absurd (ground arith)
    not_closed listen e = refl
    not_closed syn_sent e = refl
    not_closed syn_rcvd e = refl
    not_closed time_wait e = refl
    not_closed established e = refl
    not_closed fin_wait_1 e = refl
    not_closed fin_wait_2 e = refl
    not_closed close_wait e = refl
    not_closed closing e = refl
    not_closed last_ack e = refl

    -- A segment arrives for a connection from ESTABLISHED to LAST_ACK whose window, queues and
    -- counters are in order. The segment is a reset or not and acknowledges what it likes, but it
    -- carries a part of the peer's stream shorter than 2^15 that begins at `rcv_nxt` or less than 2^31
    -- before it, or ends within the window; its header has at most 15 words, and a byte behind its
    -- options can be read. `tcp_process` fails no assertion. The application is given the stream's
    -- bytes from `rcv_nxt` on and told of its end only there, the window ends where it did, queues and
    -- counters stay in order (the counters unless it goes to TIME_WAIT). A FIN in sequence takes the
    -- state from ESTABLISHED to CLOSE_WAIT, from FIN_WAIT_1 to CLOSING and from FIN_WAIT_2 to
    -- TIME_WAIT, an acknowledgement of `snd_nxt` from FIN_WAIT_1 to FIN_WAIT_2 and from CLOSING to
    -- TIME_WAIT, and both from FIN_WAIT_1 to TIME_WAIT; only for a reset, a SYN or a segment that
    -- brings none of these does the state stay.
    pub tcp_process-IsProcessed :
        (right : ℕ) (a : Arrival) (t : Tcb)
        → IsTcb right t
        → IsArrival t.rcv.rcv_nxt right a
        → synchronized t.rcv.state ≡ true
        → alive t.rcv.state ≡ true
        → Gives
            (λ r. IsProcessed t.rcv.rcv_nxt right r × HasMoved a t.rcv.state r)
            (tcp_process tcp_ticks memory room mtu connected accept a t)
    unfolding tcp_process process_reset
    tcp_process-IsProcessed right a t h k e l =
        let P : Processed → Type 0 =
          λ r. IsProcessed t.rcv.rcv_nxt right r × HasMoved a t.rcv.state r in
        if-Gives P a.rst _ _
          (λ rst.
            if-Gives P
              (if is_syn_sent t.rcv.state
                then a.ackno == t.snd.snd_nxt
                else seq_between a.inseg.seqno t.rcv.rcv_nxt (u32 (t.rcv.rcv_nxt + t.rcv.rcv_wnd)))
              _ _
              (λ _. asserting-Gives P (not (is_closed t.rcv.state)) _ (not_closed t.rcv.state e) (
                quiet-IsProcessed err_rst right
                    (record t { rcv = record t.rcv { ack_delay = false } }) h,
                stays t.rcv.state (inl rst),
              ))
              λ _. (quiet-IsProcessed err_ok right t h, stays t.rcv.state (inl rst)))
          λ _.
            if-Gives P (a.inseg.syn && not (handshaking t.rcv.state)) _ _
              (λ again. (
                quiet-IsProcessed err_ok right (ack_now t) h,
                stays t.rcv.state (inr (inl (ground (arith, again)))),
              ))
              λ _.
                >>=-Gives IsMss P (tcp_parseopt a.hdrlen a.opts t.snd.mss) _
                  (tcp_parseopt-IsMss a.hdrlen a.opts t.snd.mss k.4 k.5 k.6 (h.1.1.0, h.1.1.1))
                  λ mss usable.
                    let u : Tcb = set_mss mss (record t {
                      tmr = if t.rxclosed then t.tmr else tcp_ticks;
                      keep_cnt_sent = 0;
                    }) in
                    let in_order : IsTcb right u =
                      (h.0, (h.1.0, (usable.0, usable.1, h.1.1.2, h.1.1.3, h.1.1.4, h.1.1.5))) in
                    in_state t.rcv.state a u P e l (
                      Gives-Allows (IsProcessed t.rcv.rcv_nxt right) (HasMoved a t.rcv.state)
                        (process_synchronized tcp_ticks memory room mtu connected accept a u)
                        (process_synchronized-IsProcessed right a u in_order k e)
                        (process_synchronized-HasMoved tcp_ticks memory room mtu connected accept a
                          u))
