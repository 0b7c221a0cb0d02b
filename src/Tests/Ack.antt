-- ===== src/Tests/Ack.antt =====
-- A sender with a segment of ten bytes on its way and one of five to be sent.
use qladder.Prelude.{
  ℕ, ◌≡◌, refl, List, [], ◌∷◌, Option, none, some, ◌>>=◌, Gives, Bool, true, false, arith,
}
use qladder.Pbuf.{pbuf_clen}
use qladder.Tcp.{Segment}
use qladder.Tcp.Ack.{
  Sender, update_snd_wnd, insert_unsent, goes_last, rexmit_first, rexmit_queue, tcp_rexmit,
  fast_threshold, tcp_rexmit_fast, count_dupack, old_ack, grow_cwnd, leave_queue, unacked_loop,
  new_ack, unsent_loop, estimate_rtt, receive_ack,
}
use qladder.Tcp.Ack.Accounts.{receive_ack-IsSending}
use qladder.Tcp.Ack.Congestion.{IsSending}
use qladder.Tcp.Ack.Queues.{IsTrimmed, receive_ack-IsTrimmed}

abbrev pub segment : ℕ → ℕ → Segment
segment seqno n = record {
  seqno = seqno;
  len = n;
  fin = false;
  syn = false;
  p = record { payload = []; tot_len = 0; len = 0; ref = 1 } ∷ [];
}

abbrev pub sender : Sender
sender = record {
  infr = false;
  running = true;
  polltmr = 1;
  mss = 1460;
  rttest = 4;
  rtseq = 500;
  sa = 8;
  sv = 2;
  rto = 3;
  nrtx = 0;
  dupacks = 2;
  lastack = 500;
  cwnd = 2920;
  ssthresh = 14600;
  snd_nxt = 510;
  snd_wl1 = 900;
  snd_wl2 = 500;
  snd_wnd = 8000;
  snd_wnd_max = 8000;
  acked = 0;
  snd_buf = 985;
  snd_queuelen = 2;
  unsent_oversize = 1400;
  unsent = segment 510 5 ∷ [];
  unacked = segment 500 10 ∷ [];
  persist_cnt = 0;
  persist_backoff = 0;
}

abbrev queues : Sender → List Segment × List Segment × ℕ × ℕ × ℕ × Bool
queues x = (x.unacked, x.unsent, x.snd_queuelen, x.cwnd, x.acked, x.running)

abbrev seen : Option Sender → Option (List Segment × List Segment × ℕ × ℕ × ℕ × Bool)
seen x = x >>= λ y. some (queues y)

-- The ten bytes are acknowledged, in 7 ticks' time: the window grows and the timer stops.
acknowledged :
    seen (receive_ack 7 900 510 8000 0 sender) ≡ some ([], segment 510 5 ∷ [], 1, 4380, 10, false)
unfolding receive_ack update_snd_wnd new_ack grow_cwnd unacked_loop leave_queue unsent_loop
    estimate_rtt pbuf_clen
acknowledged = refl

-- The third duplicate: the segment goes before the one that waits.
third_duplicate :
    seen (receive_ack 7 900 500 8000 0 sender)
    ≡ some ([], segment 500 10 ∷ segment 510 5 ∷ [], 2, 7300, 0, true)
unfolding receive_ack update_snd_wnd old_ack count_dupack tcp_rexmit_fast tcp_rexmit rexmit_queue
    rexmit_first insert_unsent goes_last fast_threshold unsent_loop leave_queue estimate_rtt
    pbuf_clen
third_duplicate = refl

-- A counter that says too little: an assertion fails.
miscounted : receive_ack 7 900 510 8000 0 (record sender { snd_queuelen = 0 }) ≡ none
unfolding receive_ack update_snd_wnd new_ack grow_cwnd unacked_loop leave_queue unsent_loop
    estimate_rtt pbuf_clen
miscounted = refl

pub sender-IsSending : IsSending sender
unfolding pbuf_clen
sender-IsSending = (
  (refl, omega arith),
  (omega arith, omega arith, omega arith, omega arith, omega arith, omega arith),
)

receive_ack-IsSending_example : Gives IsSending (receive_ack 7 900 510 8000 0 sender)
receive_ack-IsSending_example = receive_ack-IsSending 7 900 510 8000 0 sender sender-IsSending

receive_ack-IsTrimmed_example :
    Gives
      (λ y. IsSending y × IsTrimmed 510 (segment 500 10 ∷ []) y)
      (receive_ack 7 900 510 8000 0 sender)
receive_ack-IsTrimmed_example =
    receive_ack-IsTrimmed 7 900 510 8000 0 sender sender-IsSending refl refl
