-- ===== src/Tcp/Receive/Arrive.antt =====
-- A segment that arrives: what the application is given of it, and what is kept for later.
use qladder.Prelude.{
  ℕ, ◌+◌, ◌-◌, ◌^◌, ◌≤◌, ◌<◌, ◌≡◌, ◌⊎◌, inl, inr, refl, sym, ◌∙◌, subst, List, [], ◌++◌, Option,
  Gives, >>=-Gives, if-Gives, Bool, true, false, ◌&&◌, arith, u16, u32, sub32, ltb, ◌==◌,
  Bool-cases,
}
use qladder.Pbuf.Content.{content, IsPacket}
use qladder.Tcp.{
  Segment, Pcb, tcplen_of, seq_lt, seq_between, tcp_ack, tcp_ack_now, tcp_send_empty_ack,
}
use qladder.Tcp.Stream.{IsPart}
use qladder.Tcp.Window.{IsWindow, IsAnnounced}
use qladder.Tcp.Queue.{queue_segment}
use qladder.Tcp.Queue.Sorted.{IsQueue, len_le}
use qladder.Tcp.Queue.Walk.{queue_segment-IsQueue}
use qladder.Tcp.Receive.{
  Received, fit_window, absorb, advance, append_data, dequeue_loop, in_sequence, out_of_sequence,
  receive_in_window, receive_data, trim_front, before_close_wait,
}
use qladder.Tcp.Receive.Delivery.{
  IsAdvanced, advance-IsAdvanced, append_data-content, IsOutcome, joined-IsDelivered,
  dequeue_loop-IsOutcome,
}
use qladder.Tcp.Receive.Fit.{
  IsFitted, fit_window-IsFitted, tcplen_bound, IsAbsorbed, absorb-IsAbsorbed,
}
use qladder.Tcp.Receive.Trim.{trim_front-IsPart}

module _ (s : ℕ → Option ℕ) where
  -- A connection in the middle of the stream: its window, what it announces of it, and its queue.
  abbrev pub IsReceiving : ℕ → Pcb → Type 0
  IsReceiving right pcb =
      IsWindow right pcb × IsAnnounced pcb × IsQueue s pcb.rcv_nxt right pcb.ooseq

  pub nothing-IsOutcome :
      (right : ℕ) (pcb : Pcb)
      → IsReceiving right pcb
      → IsOutcome s pcb.rcv_nxt right (record { pcb = pcb; recv_data = []; got_fin = false })
  nothing-IsOutcome right pcb h =
      let here : pcb.rcv_nxt ≡ pcb.rcv_nxt + 0 + 0 = omega arith in
      ((h.0, tt, tt, here, h.1, inl refl), h.2)

  tcp_ack_now-IsOutcome :
      (right : ℕ) (pcb : Pcb)
      → IsReceiving right pcb
      → IsOutcome s pcb.rcv_nxt right
          (record { pcb = tcp_ack_now pcb; recv_data = []; got_fin = false })
  unfolding tcp_ack_now
  tcp_ack_now-IsOutcome right pcb h = nothing-IsOutcome right (record pcb { ack_now = true }) h

  tcp_ack-IsOutcome :
      (first right : ℕ) (y : Received)
      → IsOutcome s first right y
      → IsOutcome s first right (record y { pcb = tcp_ack y.pcb })
  unfolding tcp_ack
  tcp_ack-IsOutcome first right y h = elim (Bool-cases y.pcb.ack_delay) [
    | inl e ↦ rw e h
    | inr e ↦ rw e h
  ]

  -- Whether there is room for the acknowledgement or not.
  pub empty_ack-IsOutcome :
      (room : Bool) (right : ℕ) (pcb : Pcb)
      → IsReceiving right pcb
      → IsOutcome s pcb.rcv_nxt right
          (record { pcb = tcp_send_empty_ack room pcb; recv_data = []; got_fin = false })
  unfolding tcp_send_empty_ack
  empty_ack-IsOutcome false right pcb h = nothing-IsOutcome right pcb h
  empty_ack-IsOutcome true right pcb h =
      let (window, announced, queue) = h in
      let e : u32 (pcb.rcv_nxt + pcb.rcv_ann_wnd) ≡ pcb.rcv_nxt + pcb.rcv_ann_wnd =
        omega (arith, window, announced) in
      let here : pcb.rcv_nxt ≡ pcb.rcv_nxt + 0 + 0 = omega arith in
      (
        (
          (
            window.0,
            window.1,
            window.2,
            omega (arith, e, window, announced),
            omega (arith, e, window, announced),
          ),
          tt,
          tt,
          here,
          (omega (arith, e), announced.1),
          inl refl,
        ),
        queue,
      )

  -- The acknowledgement, and then the queue.
  with_queue :
      (room : Bool) (right : ℕ) (pcb : Pcb) (q : List Segment)
      → IsReceiving right pcb
      → IsQueue s pcb.rcv_nxt right q
      → IsOutcome s pcb.rcv_nxt right (record {
        pcb = record (tcp_send_empty_ack room pcb) { ooseq = q };
        recv_data = [];
        got_fin = false;
      })
  unfolding tcp_send_empty_ack
  with_queue false right pcb q h k =
      empty_ack-IsOutcome false right (record pcb { ooseq = q }) (h.0, h.1, k)
  with_queue true right pcb q h k =
      empty_ack-IsOutcome true right (record pcb { ooseq = q }) (h.0, h.1, k)

  in_sequence-IsOutcome :
      (right : ℕ) (g : Segment) (pcb : Pcb)
      → IsReceiving right pcb
      → IsPart s g
      → g.seqno ≡ pcb.rcv_nxt
      → Gives (IsOutcome s pcb.rcv_nxt right) (in_sequence g.seqno g pcb)
  unfolding in_sequence
  in_sequence-IsOutcome right g pcb (window, announced, queue) part e =
      let near : right < pcb.rcv_nxt + 2 ^ 16 = omega (arith, window) in
      let P = IsOutcome s pcb.rcv_nxt right in
      >>=-Gives (IsFitted s g.seqno right) P (fit_window g.seqno pcb g) _
        (fit_window-IsFitted s right pcb g window part e)
        λ f fitted.
          >>=-Gives (IsAbsorbed s g.seqno right) P (absorb g.seqno f pcb.ooseq) _
            (subst (λ n. Gives (IsAbsorbed s n right) (absorb n f pcb.ooseq)) fitted.1
              (absorb-IsAbsorbed s f right pcb.ooseq fitted.0 (omega (arith, fitted.1, e, near))
                window.1 fitted.2
                (subst (λ n. IsQueue s n right pcb.ooseq) (sym (fitted.1 ∙ e)) queue)))
            λ x (kept, at).
              let n : ℕ = tcplen_of x.0 in
              let len : u16 n ≡ n = omega (arith, kept.2.short) in
              let next : u32 (g.seqno + n) ≡ pcb.rcv_nxt + n = omega (arith, e, at, kept.2.place) in
              rw (len, next)
                (>>=-Gives (IsAdvanced right n pcb) P (advance (pcb.rcv_nxt + n) n pcb) _
                  (advance-IsAdvanced right (pcb.rcv_nxt + n) n pcb window refl
                    (omega (arith, kept.1, at, e, window.0)))
                  λ moved adv.
                    >>=-Gives (λ d. IsPacket d × (content d ≡ [] ++ content x.0.p)) P
                      (append_data [] x.0.p) _
                      (append_data-content [] x.0.p tt kept.2.packet kept.2.buffers
                        (omega (arith, kept.2.size, len_le s x.0, kept.2.short)))
                      λ d (packet, bytes).
                        >>=-Gives P P
                          (dequeue_loop x.1
                            (record { pcb = moved; recv_data = d; got_fin = x.0.fin }))
                          _
                          (dequeue_loop-IsOutcome s pcb.rcv_nxt right x.1 moved d x.0.fin near
                            (joined-IsDelivered s pcb.rcv_nxt right x.0 pcb moved [] d
                              (nothing-IsOutcome right pcb (window, announced, queue)).0 kept.2
                              (at ∙ e) adv packet bytes)
                            (subst (λ m. IsQueue s m right x.1)
                              (let h : x.0.seqno + n ≡ moved.rcv_nxt =
                                  omega (arith, at, e, adv.1) in
                                h)
                              kept.4)
                            kept.3)
                          (tcp_ack-IsOutcome pcb.rcv_nxt right))

  -- Behind what is expected next, and within the window.
  out_of_sequence-IsOutcome :
      (memory room : Bool) (right : ℕ) (g : Segment) (pcb : Pcb)
      → IsReceiving right pcb
      → IsPart s g
      → pcb.rcv_nxt < g.seqno
      → g.seqno + tcplen_of g ≤ right
      → Gives (IsOutcome s pcb.rcv_nxt right) (out_of_sequence memory room (tcplen_of g) g pcb)
  unfolding out_of_sequence
  out_of_sequence-IsOutcome memory room right g pcb (window, announced, queue) part later inside =
      let edge : u32 (pcb.rcv_nxt + pcb.rcv_wnd) ≡ right = omega (arith, window) in
      let P = IsOutcome s pcb.rcv_nxt right in
      rw edge (
        >>=-Gives (IsQueue s pcb.rcv_nxt right) P
          (queue_segment memory right (tcplen_of g) g pcb.ooseq) _
          (queue_segment-IsQueue s memory right pcb.rcv_nxt g pcb.ooseq
            (part, omega (arith, later), inside, omega (arith, window), window.1) queue)
          λ q k. with_queue room right pcb q (window, announced, queue) k)

  -- A number that passes for one in the window is not behind it.
  ahead :
      (a nxt right last : ℕ)
      → (a ≤ nxt) ⊎ (a ≤ right)
      → nxt < a + 2 ^ 31
      → nxt ≤ right
      → right < nxt + 2 ^ 16
      → right < 2 ^ 32
      → seq_between a nxt last ≡ true
      → nxt ≤ a
  ahead a nxt right last h k l m n e = ground arith

  receive_in_window-IsOutcome :
      (memory room : Bool) (seqno tcplen right : ℕ) (g : Segment) (pcb : Pcb)
      → IsReceiving right pcb
      → IsPart s g
      → g.seqno ≡ seqno
      → (g.seqno ≤ pcb.rcv_nxt) ⊎ (g.seqno + tcplen_of g ≤ right)
      → pcb.rcv_nxt < g.seqno + 2 ^ 31
      → (g.seqno ≡ pcb.rcv_nxt) ⊎ (tcplen ≡ tcplen_of g)
      → Gives (IsOutcome s pcb.rcv_nxt right) (receive_in_window memory room seqno tcplen g pcb)
  unfolding receive_in_window
  receive_in_window-IsOutcome memory room seqno tcplen right g pcb h part same inside recent known =
      let P = IsOutcome s pcb.rcv_nxt right in
      if-Gives P (seq_between seqno pcb.rcv_nxt (sub32 (u32 (pcb.rcv_nxt + pcb.rcv_wnd)) 1)) _ _
        (λ in_window.
          if-Gives P (pcb.rcv_nxt == seqno) _ _
            (λ here.
              subst (λ n. Gives P (in_sequence n g pcb)) same
                (in_sequence-IsOutcome right g pcb h part (ground (arith, same, here))))
            λ elsewhere.
              let later : pcb.rcv_nxt < g.seqno =
                strictly pcb.rcv_nxt seqno g.seqno elsewhere same (
                  ahead seqno pcb.rcv_nxt right _ (ends inside) (omega (arith, same, recent))
                    (omega (arith, h.0)) (omega (arith, h.0)) h.0.1 in_window) in
              elim known [
                | inl at ↦ absurd (omega (arith, at, later))
                | inr e ↦ elim inside [
                  | inl behind ↦ absurd (omega (arith, behind, later))
                  | inr within ↦
                      rw e (out_of_sequence-IsOutcome memory room right g pcb h part later within)
                ]
              ])
        (λ outside. empty_ack-IsOutcome room right pcb h)
    where
      strictly : (nxt seqno g : ℕ) → (nxt == seqno) ≡ false → g ≡ seqno → nxt ≤ seqno → nxt < g
      strictly nxt seqno g e k l = ground arith

      ends :
          (g.seqno ≤ pcb.rcv_nxt) ⊎ (g.seqno + tcplen_of g ≤ right)
          → (seqno ≤ pcb.rcv_nxt) ⊎ (seqno ≤ right)
      ends (inl a) = inl (omega (arith, same, a))
      ends (inr a) = inr (omega (arith, same, a))

  -- What has been received already is part of the segment, which is not longer than 2^15.
  reaches :
      (nxt seqno n : ℕ)
      → nxt < seqno + 2 ^ 31
      → n < 2 ^ 15
      → 0 < n
      → seqno + n < 2 ^ 32
      → nxt < 2 ^ 32
      → seqno < nxt + 2 ^ 16
      → seq_between nxt (u32 (seqno + 1)) (u32 (seqno + n - 1)) ≡ true
      → (seqno < nxt) × (nxt < seqno + n)
  reaches nxt seqno n h k l m o q e = ground arith

  -- A segment arrives that carries a part of the stream and is shorter than 2^15: it begins at
  -- `rcv_nxt` or less than 2^31 before it, or it ends within the window, which does not wrap around.
  -- No assertion fails. The application is given the stream's bytes from `rcv_nxt` on, and `rcv_nxt`
  -- moves past these and, when it is told so, past FIN, which is where the stream ends. The window ends where it did, no more of it is
  -- announced than there is, and the queue stays in order, its bytes those of the stream.
  pub receive_data-IsOutcome :
      (memory room : Bool) (right : ℕ) (g : Segment) (pcb : Pcb)
      → IsReceiving right pcb
      → IsPart s g
      → tcplen_of g < 2 ^ 15
      → pcb.rcv_nxt < g.seqno + 2 ^ 31
      → (g.seqno ≤ pcb.rcv_nxt) ⊎ (g.seqno + tcplen_of g ≤ right)
      → Gives (IsOutcome s pcb.rcv_nxt right) (receive_data memory room g.seqno (tcplen_of g) g pcb)
  unfolding receive_data tcp_ack_now
  receive_data-IsOutcome memory room right g pcb h part sane recent inside =
      let P = IsOutcome s pcb.rcv_nxt right in
      if-Gives P (ltb 0 (tcplen_of g) && before_close_wait pcb.state) _ _
        (λ some_data.
          if-Gives P (seq_between pcb.rcv_nxt (u32 (g.seqno + 1)) (u32 (g.seqno + tcplen_of g - 1)))
            _ _
            (λ middle.
              let (before, after) =
                reaches pcb.rcv_nxt g.seqno (tcplen_of g) recent sane
                  (positive (tcplen_of g) _ some_data) part.place (omega (arith, h.0)) (near inside)
                  middle in
              >>=-Gives (λ c. IsPart s c × (c.seqno ≡ pcb.rcv_nxt)) P
                (trim_front g.seqno pcb.rcv_nxt g) _
                (trim_front-IsPart s pcb.rcv_nxt g part before
                  (omega (arith, after, tcplen_bound s g part)) (omega (arith, after, sane)))
                λ c (trimmed, at).
                  receive_in_window-IsOutcome memory room pcb.rcv_nxt (tcplen_of g) right c pcb h
                    trimmed at (inl (omega (arith, at))) (omega (arith, at)) (inl at))
            λ whole. elim (Bool-cases (seq_lt g.seqno pcb.rcv_nxt)) [
              | inl stale ↦ rw stale (
                  receive_in_window-IsOutcome memory room g.seqno (tcplen_of g) right g
                    (record pcb { ack_now = true }) h part refl inside recent (inr refl))
              | inr fresh ↦ rw fresh (
                  receive_in_window-IsOutcome memory room g.seqno (tcplen_of g) right g pcb h part
                    refl inside recent (inr refl))
            ])
        λ no_data.
          elim (Bool-cases
            (seq_between g.seqno pcb.rcv_nxt (sub32 (u32 (pcb.rcv_nxt + pcb.rcv_wnd)) 1))) [
              | inl acceptable ↦ rw acceptable (nothing-IsOutcome right pcb h)
              | inr outside ↦ rw outside (tcp_ack_now-IsOutcome right pcb h)
            ]
    where
      positive : (n : ℕ) (b : Bool) → (ltb 0 n && b) ≡ true → 0 < n
      positive n b e = ground arith

      near :
          (g.seqno ≤ pcb.rcv_nxt) ⊎ (g.seqno + tcplen_of g ≤ right) → g.seqno < pcb.rcv_nxt + 2 ^ 16
      near (inl a) = omega (arith, a)
      near (inr a) = omega (arith, a, h.0)
