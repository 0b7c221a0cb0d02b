-- ===== src/Tcp/Output/Steps.antt =====
-- What the steps of sending one segment change.
use qladder.Prelude.{
  ℕ, ◌+◌, ◌<◌, ◌≡◌, inl, inr, refl, ap, ap₂, ◌∙◌, List, [], ◌∷◌, ◌++◌, Bool, true, false, ltb, ◌==◌,
  u32, Bool-cases, arith,
}
use qladder.Pbuf.{pbuf_clen}
use qladder.Tcp.{Segment, tcplen_of, seq_lt}
use qladder.Tcp.Ack.Congestion.{queue_len, insert_unsent-queue_len}
use qladder.Tcp.Connection.{Tcb, is_syn_sent}
use qladder.Tcp.Output.{
  last_seqno, put_unacked, tcp_output_segment, advance_snd_nxt, keep_unacked, clear_acks,
  send_segment,
}

pub queue_len-append : (p q : List Segment) → queue_len (p ++ q) ≡ queue_len p + queue_len q
queue_len-append [] q = omega arith
queue_len-append (s ∷ r) q = let e = queue_len-append r q in omega (arith, e)

put_unacked-queue_len :
    (seg : Segment) (q : List Segment)
    → queue_len (put_unacked seg q) ≡ pbuf_clen seg.p + queue_len q
put_unacked-queue_len seg [] = refl
put_unacked-queue_len seg (cur ∷ r) = elim (Bool-cases (seq_lt seg.seqno (last_seqno cur r))) [
  | inl before ↦ rw before (insert_unsent-queue_len seg (cur ∷ r))
  | inr behind ↦ rw behind (omega (arith, queue_len-append (cur ∷ r) (seg ∷ [])))
]

abbrev pub AllNumbered : List Segment → Type 0
AllNumbered [] = Unit {0}
AllNumbered (s ∷ r) = (0 < tcplen_of s) × AllNumbered r

pub append-AllNumbered : (p q : List Segment) → AllNumbered p → AllNumbered q → AllNumbered (p ++ q)
append-AllNumbered [] q h k = k
append-AllNumbered (s ∷ r) q h k = (h.0, append-AllNumbered r q h.1 k)

-- What is the same after a step.
abbrev pub Same : Tcb → Tcb → Type 0
Same t u =
    (u.snd.lastack ≡ t.snd.lastack)
    × (u.rcv.rcv_nxt ≡ t.rcv.rcv_nxt)
    × (u.rcv.rcv_ann_wnd ≡ t.rcv.rcv_ann_wnd)
    × (u.snd.mss ≡ t.snd.mss)
    × (u.snd.cwnd ≡ t.snd.cwnd)
    × (u.snd.ssthresh ≡ t.snd.ssthresh)
    × (u.snd.snd_queuelen ≡ t.snd.snd_queuelen)
    × (u.snd.nrtx ≡ t.snd.nrtx)
    × (u.snd.persist_backoff ≡ t.snd.persist_backoff)
    × (u.rcv.state ≡ t.rcv.state)
    × (u.tmr ≡ t.tmr)
    × (u.rxclosed ≡ t.rxclosed)

pub then-Same : (t u v : Tcb) → Same t u → Same u v → Same t v
then-Same t u v h k = (
  k.0 ∙ h.0,
  k.1 ∙ h.1,
  k.2 ∙ h.2,
  k.3 ∙ h.3,
  k.4 ∙ h.4,
  k.5 ∙ h.5,
  k.6 ∙ h.6,
  k.7 ∙ h.7,
  k.8 ∙ h.8,
  k.9 ∙ h.9,
  k.10 ∙ h.10,
  k.11 ∙ h.11,
)

abbrev Kept : Tcb → Tcb → Type 0
Kept t u = Same t u × (u.snd.unacked ≡ t.snd.unacked) × (u.sent ≡ t.sent)

clear_acks-Kept : (t : Tcb) → Kept t (clear_acks t)
clear_acks-Kept t = elim (Bool-cases (is_syn_sent t.rcv.state)) [
  | inl e ↦
      rw e ((refl, refl, refl, refl, refl, refl, refl, refl, refl, refl, refl, refl), refl, refl)
  | inr e ↦
      rw e ((refl, refl, refl, refl, refl, refl, refl, refl, refl, refl, refl, refl), refl, refl)
]

advance_snd_nxt-Kept : (nxt : ℕ) (t : Tcb) → Kept t (advance_snd_nxt nxt t)
advance_snd_nxt-Kept nxt t = elim (Bool-cases (seq_lt t.snd.snd_nxt nxt)) [
  | inl e ↦
      rw e ((refl, refl, refl, refl, refl, refl, refl, refl, refl, refl, refl, refl), refl, refl)
  | inr e ↦
      rw e ((refl, refl, refl, refl, refl, refl, refl, refl, refl, refl, refl, refl), refl, refl)
]

-- Handed to `ip_output`, if there is a route.
abbrev IsOut : Bool → Segment → Tcb → Tcb → Type 0
IsOut no_route seg t u =
    Same t u
    × (u.snd.unacked ≡ t.snd.unacked)
    × (no_route ≡ false → u.sent ≡ (seg, t.rcv.rcv_nxt, t.rcv.rcv_ann_wnd) ∷ t.sent)

tcp_output_segment-IsOut :
    (tcp_ticks : ℕ) (no_route : Bool) (seg : Segment) (t : Tcb)
    → IsOut no_route seg t (tcp_output_segment tcp_ticks no_route seg t)
tcp_output_segment-IsOut tcp_ticks true seg t = (
  (refl, refl, refl, refl, refl, refl, refl, refl, refl, refl, refl, refl),
  refl,
  λ e. absurd (ground arith),
)
tcp_output_segment-IsOut tcp_ticks false seg t = elim (Bool-cases (t.snd.rttest == 0)) [
  | inl e ↦
      rw e
        ((refl, refl, refl, refl, refl, refl, refl, refl, refl, refl, refl, refl), refl, λ _. refl)
  | inr e ↦
      rw e
        ((refl, refl, refl, refl, refl, refl, refl, refl, refl, refl, refl, refl), refl, λ _. refl)
]

keep_unacked-queue_len :
    (seg : Segment) (t : Tcb)
    → 0 < tcplen_of seg
    → Same t (keep_unacked seg t)
      × (queue_len (keep_unacked seg t).snd.unacked ≡ pbuf_clen seg.p + queue_len t.snd.unacked)
      × ((keep_unacked seg t).sent ≡ t.sent)
keep_unacked-queue_len seg t pos =
    let e : ltb 0 (tcplen_of seg) ≡ true = ground (arith, pos) in
    rw e (
      (refl, refl, refl, refl, refl, refl, refl, refl, refl, refl, refl, refl),
      put_unacked-queue_len seg t.snd.unacked,
      refl,
    )

module _ (tcp_ticks : ℕ) (no_route : Bool) where
  -- A segment that has a number is sent: it waits for its acknowledgement, and is on its way.
  abbrev pub IsGone : Segment → Tcb → Tcb → Type 0
  IsGone seg t u =
      Same t u
      × (queue_len u.snd.unacked ≡ pbuf_clen seg.p + queue_len t.snd.unacked)
      × (no_route ≡ false → u.sent ≡ (seg, t.rcv.rcv_nxt, t.rcv.rcv_ann_wnd) ∷ t.sent)

  pub send_segment-IsGone :
      (seg : Segment) (t : Tcb)
      → 0 < tcplen_of seg
      → IsGone seg t (send_segment tcp_ticks no_route seg t)
  send_segment-IsGone seg t pos =
      let u = clear_acks t in
      let v = tcp_output_segment tcp_ticks no_route seg u in
      let w = advance_snd_nxt (u32 (seg.seqno + tcplen_of seg)) v in
      let (ku, kq, ks) = clear_acks-Kept t in
      let (lu, lq, ls) = tcp_output_segment-IsOut tcp_ticks no_route seg u in
      let (mu, mq, ms) = advance_snd_nxt-Kept (u32 (seg.seqno + tcplen_of seg)) v in
      let (nu, nq, ns) = keep_unacked-queue_len seg w pos in
      (
        then-Same t w (send_segment tcp_ticks no_route seg t)
            (then-Same t v w (then-Same t u v ku lu) mu) nu,
        nq ∙ ap (λ q. pbuf_clen seg.p + queue_len q) (mq ∙ lq ∙ kq),
        λ e.
            ns
            ∙ ms
            ∙ ls e
            ∙ ap₂ (λ n m. (seg, n, m) ∷ u.sent) ku.1 ku.2
            ∙ ap (λ l. (seg, t.rcv.rcv_nxt, t.rcv.rcv_ann_wnd) ∷ l) ks,
      )
