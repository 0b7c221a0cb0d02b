-- ===== src/Tcp/Process/TimeWait.antt =====
-- A segment for a connection in TIME_WAIT: `tcp_timewait_input`.
use qladder.Prelude.{
  ℕ, ◌+◌, ◌≡◌, refl, ap, ◌∙◌, List, [], some, ◌>>=◌, Gives, >>=-Gives, if-Gives, either, Bool, true,
  false, ◌&&◌, not, ltb, if◌then◌else◌, u32, arith,
}
use qladder.Tcp.{Pcb, listening, seq_between, tcp_ack_now, tcp_output, tcp_send_empty_ack}
use qladder.Tcp.Window.{asserting-Gives}
use qladder.Tcp.Connection.{Tcb}
use qladder.Tcp.Process.{Arrival, tcplen_in, tcp_timewait_input}

-- The state, the number that is expected next and the window are the same.
abbrev IsIdle : Pcb → Pcb → Type 0
IsIdle x y = (y.state ≡ x.state) × (y.rcv_nxt ≡ x.rcv_nxt) × (y.rcv_wnd ≡ x.rcv_wnd)

abbrev IsWaiting : Tcb → Tcb × List (ℕ × ℕ) → Type 0
IsWaiting t r = IsIdle t.rcv r.0.rcv × (r.0.snd ≡ t.snd)

tcp_output-IsIdle :
    (room : Bool) (x : Pcb)
    → listening x.state ≡ false
    → Gives (IsIdle x) (tcp_output room false (tcp_ack_now x))
unfolding tcp_output tcp_ack_now tcp_send_empty_ack
tcp_output-IsIdle room x up =
    let e : not (listening x.state) ≡ true = ground (arith, up) in
    asserting-Gives (IsIdle x) (not (listening x.state)) _ e
      (either (IsIdle x) room _ _ (λ _. (refl, refl, refl)) λ _. (refl, refl, refl))

-- Whatever arrives for a connection in TIME_WAIT, or any that is not listening, no assertion fails, and
-- the state, the number that is expected next, the window and the sending half stay.
tcp_timewait_input-IsWaiting :
    (tcp_ticks : ℕ) (room : Bool) (a : Arrival) (t : Tcb)
    → listening t.rcv.state ≡ false
    → Gives (IsWaiting t) (tcp_timewait_input tcp_ticks room a t)
unfolding tcp_timewait_input
tcp_timewait_input-IsWaiting tcp_ticks room a t up =
    if-Gives (IsWaiting t) a.rst _ _ (λ _. ((refl, refl, refl), refl))
      λ _.
        if-Gives (IsWaiting t)
          (a.inseg.syn
            && seq_between a.inseg.seqno t.rcv.rcv_nxt (u32 (t.rcv.rcv_nxt + t.rcv.rcv_wnd)))
          _ _ (λ _. ((refl, refl, refl), refl))
          λ _.
            either {A = Tcb}
              (λ u. Gives (IsWaiting t) (
                if ltb 0 (tcplen_in a)
                then (tcp_output room false (tcp_ack_now u.rcv) >>= λ rcv.
                    some (record u { rcv = rcv }, []))
                else some (u, [])))
              (not a.inseg.syn && a.inseg.fin) (record t { tmr = tcp_ticks }) t
              (λ _. answered (record t { tmr = tcp_ticks }) refl refl) λ _. answered t refl refl
  where
    answered :
        (u : Tcb)
        → u.rcv ≡ t.rcv
        → u.snd ≡ t.snd
        → Gives (IsWaiting t) (
            if ltb 0 (tcplen_in a)
            then (tcp_output room false (tcp_ack_now u.rcv) >>= λ rcv.
                some (record u { rcv = rcv }, []))
            else some (u, []))
    answered u e f =
        let idle : IsIdle t.rcv u.rcv =
          (ap (λ x. x.state) e, ap (λ x. x.rcv_nxt) e, ap (λ x. x.rcv_wnd) e) in
        if-Gives (IsWaiting t) (ltb 0 (tcplen_in a)) _ _
          (λ _.
            >>=-Gives (IsIdle u.rcv) (IsWaiting t) (tcp_output room false (tcp_ack_now u.rcv)) _
              (tcp_output-IsIdle room u.rcv (ap (λ x. listening x.state) e ∙ up))
              λ y m. ((m.0 ∙ idle.0, m.1 ∙ idle.1, m.2 ∙ idle.2), f))
          λ _. (idle, f)
