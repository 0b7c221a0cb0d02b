-- ===== src/Tests/Output.antt =====
-- The connection of the runs on `tcp_process`: sending, ticks of its timer, and closing.
use qladder.Prelude.{
  ℕ, ◌≡◌, refl, List, [], ◌∷◌, Option, none, some, ◌>>=◌, Gives, true, false, arith, zero, suc,
  Bool,
}
use qladder.Tcp.Output.{output_loop, tcp_output}
use qladder.Tcp.Output.Sends.{SameTries, HasOutput, tcp_output-IsSent}
use qladder.Tcp.Ack.Congestion.{IsSending}
use qladder.Tcp.{Segment, syn_rcvd, tcp_wnd}
use qladder.Tcp.Options.{tcp_parseopt}
use qladder.Tcp.Connection.{Tcb}
use qladder.Tcp.Process.{Arrival, tcp_process, process_state, process_syn_rcvd}
use qladder.Tcp.Ack.{
  fast_threshold, tcp_rexmit, rexmit_queue, rexmit_first, insert_unsent, goes_last,
}
use qladder.Tcp.Timer.{Ticked, poll_step, tcp_rexmit_rto, retransmission_timer, slow_timer}
use qladder.Tcp.Close.{Closed, close_with, close_state, tcp_close_shutdown, tcp_close}
use qladder.Tests.Tcp.{waiting}
use qladder.Tests.Ack.{segment, sender, sender-IsSending}
use qladder.Tests.Process.{connection, callback}

-- Five bytes are to be sent, and ten are on their way: Nagle's algorithm holds them back.
abbrev at_once : Tcb
at_once = record connection { nodelay = true }

abbrev queues : Option Tcb → Option (List Segment × List Segment)
queues x = x >>= λ u. some (u.snd.unacked, u.snd.unsent)

held_back :
    queues (tcp_output 7 false true false connection)
    ≡ some (segment 500 10 ∷ [], segment 510 5 ∷ [])
unfolding tcp_output output_loop
held_back = refl

not_held_back :
    queues (tcp_output 7 false true false at_once) ≡ some (segment 500 10 ∷ segment 510 5 ∷ [], [])
unfolding tcp_output output_loop
not_held_back = refl

tcp_output-IsSent_example :
    Gives
      (λ u. IsSending u.snd × SameTries at_once u × HasOutput true false at_once u)
      (tcp_output 7 false true false at_once)
tcp_output-IsSent_example =
    tcp_output-IsSent 7 true false at_once refl sender-IsSending (omega arith, tt)

-- The time-out of three ticks is over: the segment on its way goes before the unsent one, and the window
-- of one segment lets both out, as they are small.
abbrev late : Tcb
late = record at_once { snd = record sender { cwnd = 1460 } }

abbrev tries : Option (Ticked × ℕ) → Option (ℕ × ℕ × ℕ × Bool × List Segment × List Segment)
tries x = x >>= λ (r, polltmr).
    some
      (r.tcb.snd.nrtx, r.tcb.snd.cwnd, r.tcb.snd.rto, r.remove, r.tcb.snd.unacked, r.tcb.snd.unsent)

ticks :
    tries (slow_timer 9 false true 0 0 2 late)
    ≡ some (1, 1460, 6, false, segment 500 10 ∷ segment 510 5 ∷ [], [])
unfolding slow_timer poll_step retransmission_timer tcp_rexmit_rto tcp_output output_loop
    fast_threshold
ticks = refl

-- A connection in SYN_RCVD, and the peer's SYN once more.
abbrev half_open : Tcb
half_open = record connection {
  rcv = record waiting { state = syn_rcvd; ooseq = [] };
  snd = record sender {
    unacked = record (segment 500 0) { syn = true } ∷ [];
    unsent = [];
    snd_queuelen = 1;
    cwnd = 1;
  };
}

abbrev same_syn : Arrival
same_syn = record {
  inseg = record (segment 999 0) { syn = true };
  ack = false;
  rst = false;
  ackno = 0;
  wnd = 8000;
  hdrlen = 5;
  opts = 0 ∷ [];
}

-- Each time, as `tcp_input` does, `tcp_output` follows `tcp_process`.
abbrev duplicates : ℕ → Tcb → Option Tcb
duplicates zero t = some t
duplicates (suc n) t = tcp_process 9 true true none callback callback same_syn t >>= λ r.
    tcp_output 9 false true false r.tcb >>= λ u. duplicates n u

thirteen : (duplicates 13 half_open >>= λ t. some t.snd.nrtx) ≡ some 13
unfolding tcp_process process_state process_syn_rcvd tcp_parseopt tcp_rexmit rexmit_queue
    rexmit_first insert_unsent goes_last tcp_output output_loop
thirteen = refl

-- Thirteen of them within a tick, and the next time-out is looked up behind the end of `tcp_backoff`.
overrun : (duplicates 13 half_open >>= λ t. slow_timer 10 false true 0 0 5 t) ≡ none
unfolding tcp_process process_state process_syn_rcvd tcp_parseopt tcp_rexmit rexmit_queue
    rexmit_first insert_unsent goes_last tcp_output output_loop slow_timer poll_step
    retransmission_timer tcp_rexmit_rto
overrun = refl

-- With twelve the connection is given up.
given_up :
    (duplicates 12 half_open >>= λ t. slow_timer 10 false true 0 0 5 t >>= λ r. some r.0.remove)
    ≡ some true
unfolding tcp_process process_state process_syn_rcvd tcp_parseopt tcp_rexmit rexmit_queue
    rexmit_first insert_unsent goes_last tcp_output output_loop slow_timer poll_step
    retransmission_timer tcp_rexmit_rto
given_up = refl

-- The window of 8000 bytes is not TCP_WND, so data has not been taken; with all of it taken, the FIN goes
-- on the five bytes.
abbrev taken : Tcb
taken = record at_once { rcv = record waiting { rcv_wnd = tcp_wnd } }

abbrev ended : Option Closed → Option (Bool × List (ℕ × ℕ) × List Segment)
ended x = x >>= λ r. some (r.freed, r.resets, r.tcb.snd.unacked)

close_taken :
    ended (tcp_close 7 false true true false taken)
    ≡ some (false, [], segment 500 10 ∷ record (segment 510 5) { fin = true } ∷ [])
unfolding tcp_close tcp_close_shutdown close_state close_with tcp_output output_loop
close_taken = refl

close_left : ended (tcp_close 7 false true true false at_once) ≡ some (false, (510, 1000) ∷ [], [])
unfolding tcp_close tcp_close_shutdown
close_left = refl
