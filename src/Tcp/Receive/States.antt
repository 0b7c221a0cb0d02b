-- ===== src/Tcp/Receive/States.antt =====
-- The state of a connection changes in `tcp_receive` only with a FIN out of the queue.
use qladder.Prelude.{
  ℕ, ◌+◌, ◌-◌, min, ◌≡◌, ◌/◌, ◌⊎◌, inl, inr, refl, ap, ◌∙◌, List, [], ◌∷◌, Option, none, some,
  Allows, >>=-Allows, if-Allows, Bool, true, false, ◌&&◌, ◌||◌, ltb, leb, ◌==◌, if◌then◌else◌, u16,
  u32, sub16, sub32, Bool-cases,
}
use qladder.Pbuf.{Pbuf}
use qladder.Tcp.{
  State, established, close_wait, Segment, Pcb, tcplen_of, seq_lt, seq_gt, seq_geq, seq_between,
  tcp_wnd, tcp_ack, tcp_ack_now, tcp_update_rcv_ann_wnd, tcp_send_empty_ack,
}
use qladder.Tcp.Window.{asserting-Allows}
use qladder.Tcp.Queue.{queue_segment}
use qladder.Tcp.Receive.{
  Received, advance, append_data, fit_window, absorb, passive_close, dequeue_loop, in_sequence,
  out_of_sequence, receive_in_window, before_close_wait, receive_data, trim_front,
}

-- From the state `st`.
abbrev pub IsStateAfter : State → Received → Type 0
IsStateAfter st y =
    (y.pcb.state ≡ st) ⊎ ((st ≡ established) × (y.pcb.state ≡ close_wait) × (y.got_fin ≡ true))

update_keeps : (pcb : Pcb) → Allows (λ r. r.0.state ≡ pcb.state) (tcp_update_rcv_ann_wnd pcb)
unfolding tcp_update_rcv_ann_wnd
update_keeps pcb =
    if-Allows (λ r. r.0.state ≡ pcb.state)
      (seq_geq (u32 (pcb.rcv_nxt + pcb.rcv_wnd))
        (u32 (pcb.rcv_ann_right_edge + min (tcp_wnd / 2) pcb.mss)))
      _ _ (λ _. refl)
      λ _.
        if-Allows (λ r. r.0.state ≡ pcb.state) (seq_gt pcb.rcv_nxt pcb.rcv_ann_right_edge) _ _
          (λ _. refl)
          λ _.
            asserting-Allows (λ r. r.0.state ≡ pcb.state)
              (leb (sub32 pcb.rcv_ann_right_edge pcb.rcv_nxt) 0xffff)
              (some
                (record pcb { rcv_ann_wnd = u16 (sub32 pcb.rcv_ann_right_edge pcb.rcv_nxt) }, 0))
              refl

advance_keeps :
    (rcv_nxt n : ℕ) (pcb : Pcb) → Allows (λ r. r.state ≡ pcb.state) (advance rcv_nxt n pcb)
unfolding advance
advance_keeps rcv_nxt n pcb =
    let moved : Pcb = record pcb { rcv_nxt = rcv_nxt; rcv_wnd = sub16 pcb.rcv_wnd n } in
    asserting-Allows (λ r. r.state ≡ pcb.state) (leb n pcb.rcv_wnd) _
      (>>=-Allows (λ r. r.0.state ≡ pcb.state) (λ r. r.state ≡ pcb.state)
        (tcp_update_rcv_ann_wnd moved) _ (update_keeps moved) λ r e. e)

tcp_ack_keeps : (pcb : Pcb) → (tcp_ack pcb).state ≡ pcb.state
unfolding tcp_ack
tcp_ack_keeps pcb = elim (Bool-cases pcb.ack_delay) [ inl e ↦ rw e refl | inr e ↦ rw e refl ]

empty_ack_keeps : (room : Bool) (pcb : Pcb) → (tcp_send_empty_ack room pcb).state ≡ pcb.state
unfolding tcp_send_empty_ack
empty_ack_keeps true pcb = refl
empty_ack_keeps false pcb = refl

pub anything {ℓ} : {A : Type ℓ} (x : Option A) → Allows (λ _. Unit {0}) x
anything none = tt
anything (some a) = tt

-- A FIN out of the queue of a connection that was in `st`.
closed_by_peer :
    (st : State) (y : Received)
    → y.pcb.state ≡ passive_close st
    → y.got_fin ≡ true
    → IsStateAfter st y
closed_by_peer established y e fin = inr (refl, e, fin)
closed_by_peer _ y e fin = inl e

dequeued :
    (st : State) (x : Received) (fin : Bool) (pcb : Pcb) (d : List Pbuf)
    → IsStateAfter st x
    → pcb.state ≡ x.pcb.state
    → IsStateAfter st (record {
      pcb = if fin then record pcb { state = passive_close pcb.state } else pcb;
      recv_data = d;
      got_fin = fin || x.got_fin;
    })
dequeued st x false pcb d (inl h) e = inl (e ∙ h)
dequeued st x false pcb d (inr (h, k, l)) e = inr (h, e ∙ k, l)
dequeued st x true pcb d (inl h) e =
    closed_by_peer st
      (record {
        pcb = record pcb { state = passive_close pcb.state };
        recv_data = d;
        got_fin = true;
      })
      (ap passive_close (e ∙ h)) refl
dequeued st x true pcb d (inr (h, k, l)) e = inr (h, ap passive_close (e ∙ k), refl)

dequeue_loop-IsStateAfter :
    (st : State) (q : List Segment) (x : Received)
    → IsStateAfter st x
    → Allows (IsStateAfter st) (dequeue_loop q x)
unfolding dequeue_loop
dequeue_loop-IsStateAfter st [] x h = h
dequeue_loop-IsStateAfter st (c ∷ r) x h =
    if-Allows (IsStateAfter st) (c.seqno == x.pcb.rcv_nxt) _ _
      (λ _.
        >>=-Allows (λ p. p.state ≡ x.pcb.state) (IsStateAfter st)
          (advance (u32 (x.pcb.rcv_nxt + tcplen_of c)) (tcplen_of c) x.pcb) _
          (advance_keeps _ _ x.pcb)
          λ pcb e.
            >>=-Allows (λ _. Unit {0}) (IsStateAfter st) (append_data x.recv_data c.p) _
              (anything (append_data x.recv_data c.p))
              λ d _. dequeue_loop-IsStateAfter st r _ (dequeued st x c.fin pcb d h e))
      (λ _. h)

in_sequence-IsStateAfter :
    (seqno : ℕ) (g : Segment) (pcb : Pcb)
    → Allows (IsStateAfter pcb.state) (in_sequence seqno g pcb)
unfolding in_sequence
in_sequence-IsStateAfter seqno g pcb =
    let P = IsStateAfter pcb.state in
    >>=-Allows (λ _. Unit {0}) P (fit_window seqno pcb g) _ (anything (fit_window seqno pcb g))
      λ f _.
        >>=-Allows (λ _. Unit {0}) P (absorb seqno f pcb.ooseq) _
          (anything (absorb seqno f pcb.ooseq))
          λ x _.
            >>=-Allows (λ p. p.state ≡ pcb.state) P
              (advance (u32 (seqno + u16 (tcplen_of x.0))) (u16 (tcplen_of x.0)) pcb) _
              (advance_keeps _ _ pcb)
              λ moved e.
                >>=-Allows (λ _. Unit {0}) P (append_data [] x.0.p) _
                  (anything (append_data [] x.0.p))
                  λ d _.
                    >>=-Allows P P
                      (dequeue_loop x.1 (record { pcb = moved; recv_data = d; got_fin = x.0.fin }))
                      _ (dequeue_loop-IsStateAfter pcb.state x.1 _ (inl e))
                      λ y h. elim h [
                        | inl k ↦ inl (tcp_ack_keeps y.pcb ∙ k)
                        | inr (k, l, m) ↦ inr (k, tcp_ack_keeps y.pcb ∙ l, m)
                      ]

receive_in_window-IsStateAfter :
    (memory room : Bool) (seqno tcplen : ℕ) (g : Segment) (pcb : Pcb)
    → Allows (IsStateAfter pcb.state) (receive_in_window memory room seqno tcplen g pcb)
unfolding receive_in_window out_of_sequence
receive_in_window-IsStateAfter memory room seqno tcplen g pcb =
    let P = IsStateAfter pcb.state in
    if-Allows P (seq_between seqno pcb.rcv_nxt (sub32 (u32 (pcb.rcv_nxt + pcb.rcv_wnd)) 1)) _ _
      (λ _.
        if-Allows P (pcb.rcv_nxt == seqno) _ _ (λ _. in_sequence-IsStateAfter seqno g pcb)
          (λ _.
            let queued =
              queue_segment memory (u32 (pcb.rcv_nxt + pcb.rcv_wnd)) tcplen g pcb.ooseq in
            >>=-Allows (λ _. Unit {0}) P queued _ (anything queued)
              λ q _. inl (empty_ack_keeps room pcb)))
      (λ _. inl (empty_ack_keeps room pcb))

pub receive_data-IsStateAfter :
    (memory room : Bool) (seqno tcplen : ℕ) (g : Segment) (pcb : Pcb)
    → Allows (IsStateAfter pcb.state) (receive_data memory room seqno tcplen g pcb)
unfolding receive_data tcp_ack_now
receive_data-IsStateAfter memory room seqno tcplen g pcb =
    let P = IsStateAfter pcb.state in
    if-Allows P (ltb 0 tcplen && before_close_wait pcb.state) _ _
      (λ _.
        if-Allows P (seq_between pcb.rcv_nxt (u32 (seqno + 1)) (u32 (seqno + tcplen - 1))) _ _
          (λ _.
            >>=-Allows (λ _. Unit {0}) P (trim_front seqno pcb.rcv_nxt g) _
              (anything (trim_front seqno pcb.rcv_nxt g))
              λ i _. receive_in_window-IsStateAfter memory room pcb.rcv_nxt tcplen i pcb)
          (λ _. elim (Bool-cases (seq_lt seqno pcb.rcv_nxt)) [
            | inl stale ↦ rw stale (
                receive_in_window-IsStateAfter memory room seqno tcplen g
                  (record pcb { ack_now = true }))
            | inr fresh ↦ rw fresh (receive_in_window-IsStateAfter memory room seqno tcplen g pcb)
          ]))
      (λ _.
        elim (Bool-cases
          (seq_between seqno pcb.rcv_nxt (sub32 (u32 (pcb.rcv_nxt + pcb.rcv_wnd)) 1))) [
            | inl acceptable ↦ rw acceptable (inl refl)
            | inr outside ↦ rw outside (inl refl)
          ])
