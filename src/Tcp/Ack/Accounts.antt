-- ===== src/Tcp/Ack/Accounts.antt =====
-- Segments that are acknowledged leave the queues, and the counters stay true.
use qladder.Prelude.{
  ℕ, ◌+◌, ◌^◌, ◌<◌, ◌≡◌, refl, sym, subst, List, [], ◌∷◌, Gives, >>=-Gives, if-Gives, Bool, true,
  false, ◌||◌, not, if◌then◌else◌, arith, u16, u32, sub16, sub32, leb, ◌==◌,
}
use qladder.Pbuf.{pbuf_clen}
use qladder.Tcp.{Segment, tcplen_of, seq_leq, seq_between}
use qladder.Tcp.Window.{asserting-Gives}
use qladder.Tcp.Ack.{
  Sender, update_snd_wnd, null_queue, shift_right, leave_queue, unacked_loop, new_ack, unsent_loop,
  receive_ack,
}
use qladder.Tcp.Ack.Congestion.{
  queue_len, IsCounted, IsGoing, IsSending, old_ack-IsSending, update_snd_wnd-IsSending,
  estimate_rtt-IsSending, grow_cwnd-IsSending,
}

abbrev IsLeft : ℕ → Sender → Sender → Type 0
IsLeft m x y = y ≡ record x { acked = y.acked; snd_queuelen = m }

-- A segment leaves a queue, and the counter says what is left.
leave_queue-IsLeft :
    (next : Segment) (left : Bool) (m : ℕ) (x : Sender)
    → x.snd_queuelen ≡ pbuf_clen next.p + m
    → x.snd_queuelen < 2 ^ 16
    → (left ≡ false → m ≡ 0)
    → Gives (IsLeft m x) (leave_queue next left x)
unfolding leave_queue
leave_queue-IsLeft next left m x counted small none_left =
    let held : leb (pbuf_clen next.p) x.snd_queuelen ≡ true = ground (arith, counted) in
    let less : sub16 x.snd_queuelen (pbuf_clen next.p) ≡ m = omega (arith, counted, small) in
    rw (held, less) (asserting-Gives (IsLeft m x) (m == 0 || left) _ (valid left none_left) refl)
  where
    valid : (b : Bool) → (b ≡ false → m ≡ 0) → (m == 0 || b) ≡ true
    valid true h = ground arith
    valid false h = let e = h refl in ground arith

null_queue-queue_len :
    (a b : List Segment)
    → (not (null_queue a) || not (null_queue b)) ≡ false
    → queue_len a + queue_len b ≡ 0
null_queue-queue_len [] [] h = refl
null_queue-queue_len [] (s ∷ r) h = absurd (ground arith)
null_queue-queue_len (s ∷ r) b h = absurd (ground arith)

unacked_loop-IsSending :
    (ackno : ℕ) (q : List Segment) (x : Sender)
    → IsCounted x.snd_queuelen q x.unsent
    → IsGoing x.mss x.cwnd x.ssthresh
    → Gives IsSending (unacked_loop ackno q x)
unfolding unacked_loop
unacked_loop-IsSending ackno [] x counted going = (counted, going)
unacked_loop-IsSending ackno (next ∷ r) x counted going =
    if-Gives IsSending (seq_leq (u32 (next.seqno + tcplen_of next)) ackno) _ _
      (λ _.
        let m : ℕ = queue_len r + queue_len x.unsent in
        >>=-Gives (IsLeft m x) IsSending _ _
          (leave_queue-IsLeft next _ m x (omega (arith, counted)) counted.1
            (null_queue-queue_len r x.unsent))
          λ y e.
            let (now, still) =
              subst (λ y. IsCounted y.snd_queuelen r y.unsent × IsGoing y.mss y.cwnd y.ssthresh)
                (sym e) ((refl, omega (arith, counted)), going) in
            unacked_loop-IsSending ackno r y now still)
      (λ _. (counted, going))

unsent_loop-IsSending :
    (ackno : ℕ) (q : List Segment) (x : Sender)
    → IsCounted x.snd_queuelen x.unacked q
    → IsGoing x.mss x.cwnd x.ssthresh
    → Gives IsSending (unsent_loop ackno q x)
unfolding unsent_loop
unsent_loop-IsSending ackno [] x counted going = (counted, going)
unsent_loop-IsSending ackno (next ∷ r) x counted going =
    if-Gives IsSending (seq_between ackno (u32 (next.seqno + tcplen_of next)) x.snd_nxt) _ _
      (λ _.
        let m : ℕ = queue_len x.unacked + queue_len r in
        >>=-Gives (IsLeft m x) IsSending _ _
          (leave_queue-IsLeft next _ m x (omega (arith, counted)) counted.1
            (null_queue-queue_len x.unacked r))
          λ y e.
            let (now, still) =
              subst (λ y. IsCounted y.snd_queuelen y.unacked r × IsGoing y.mss y.cwnd y.ssthresh)
                (sym e) ((refl, omega (arith, counted)), going) in
            unsent_loop-IsSending ackno r
              (record y { unsent_oversize = if null_queue r then 0 else y.unsent_oversize }) now
              still)
      (λ _. (counted, going))

new_ack-IsSending : (ackno : ℕ) (x : Sender) → IsSending x → Gives IsSending (new_ack ackno x)
unfolding new_ack
new_ack-IsSending ackno x (counted, going) =
    let (some_bytes, fits) =
      either x.infr x.ssthresh x.cwnd (going.4, going.5) (going.2, going.3) in
    >>=-Gives IsSending IsSending _ _
      (grow_cwnd-IsSending
        (record x {
          infr = false;
          cwnd = if x.infr then x.ssthresh else x.cwnd;
          nrtx = 0;
          rto = u16 (shift_right x.sa 3 + x.sv);
          acked = u16 (sub32 ackno x.lastack);
          snd_buf = u16 (x.snd_buf + u16 (sub32 ackno x.lastack));
          dupacks = 0;
          lastack = ackno;
        })
        (counted, (going.0, going.1, some_bytes, fits, going.4, going.5)))
      λ y h.
        >>=-Gives IsSending IsSending _ _ (unacked_loop-IsSending ackno y.unacked y h.0 h.1)
          λ z k. k
  where
    either :
        (b : Bool) (m n : ℕ)
        → (0 < m) × (m < 2 ^ 16)
        → (0 < n) × (n < 2 ^ 16)
        → (0 < (if b then m else n)) × ((if b then m else n) < 2 ^ 16)
    either true m n h k = h
    either false m n h k = k

-- For a connection whose `snd_queuelen` counts the buffers of its unsent and unacknowledged segments,
-- whose segment size is not 0 and at most TCP_MSS, and whose `cwnd` and `ssthresh` are not 0: whatever
-- numbers, window and length a segment with ACK has, its handling fails no assertion, divides by
-- nothing that is 0, and leaves the connection so.
pub receive_ack-IsSending :
    (tcp_ticks seqno ackno wnd tcplen : ℕ) (x : Sender)
    → IsSending x
    → Gives IsSending (receive_ack tcp_ticks seqno ackno wnd tcplen x)
unfolding receive_ack
receive_ack-IsSending tcp_ticks seqno ackno wnd tcplen x h =
    let k = update_snd_wnd-IsSending seqno ackno wnd x h in
    >>=-Gives IsSending IsSending _ _
      (if-Gives IsSending (seq_leq ackno (update_snd_wnd seqno ackno wnd x).lastack) _ _
        (λ _. old_ack-IsSending ackno tcplen _ (update_snd_wnd seqno ackno wnd x) k)
        (λ _.
          if-Gives IsSending
            (seq_between ackno (u32 ((update_snd_wnd seqno ackno wnd x).lastack + 1))
              (update_snd_wnd seqno ackno wnd x).snd_nxt)
            _ _ (λ _. new_ack-IsSending ackno (update_snd_wnd seqno ackno wnd x) k) (λ _. k)))
      λ z l.
        >>=-Gives IsSending IsSending _ _ (unsent_loop-IsSending ackno z.unsent z l.0 l.1)
          λ v m. estimate_rtt-IsSending tcp_ticks ackno v m
