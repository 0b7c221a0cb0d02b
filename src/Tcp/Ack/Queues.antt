-- ===== src/Tcp/Ack/Queues.antt =====
-- Which segments an acknowledgement takes off the queue of those that are on their way.
use qladder.Prelude.{
  ℕ, ◌+◌, ◌*◌, ◌/◌, ◌≡◌, ◌-◌, inl, inr, refl, ap, sym, ◌∙◌, subst, List, [], ◌∷◌, ◌++◌, Option,
  none, some, Gives, Allows, >>=-Allows, if-Allows, Gives-Allows, Bool, true, false, ◌&&◌, ◌||◌,
  not, if◌then◌else◌, u16, u32, sub16, sub32, ltb, leb, ◌==◌, Bool-cases,
}
use qladder.Pbuf.{pbuf_clen}
use qladder.Tcp.{Segment, tcplen_of, seq_lt, seq_leq, seq_between}
use qladder.Tcp.Ack.{
  Sender, shift_right, update_snd_wnd, null_queue, grow_cwnd, leave_queue, unacked_loop, new_ack,
  unsent_loop, estimate_rtt, receive_ack,
}
use qladder.Tcp.Ack.Congestion.{IsSending}
use qladder.Tcp.Window.{asserting-Allows}
use qladder.Tcp.Ack.Accounts.{receive_ack-IsSending}

abbrev AllAcked : ℕ → List Segment → Type 0
AllAcked ackno [] = Unit {0}
AllAcked ackno (s ∷ r) = (seq_leq (u32 (s.seqno + tcplen_of s)) ackno ≡ true) × AllAcked ackno r

abbrev NotAcked : ℕ → List Segment → Type 0
NotAcked ackno [] = Unit {0}
NotAcked ackno (s ∷ r) = seq_leq (u32 (s.seqno + tcplen_of s)) ackno ≡ false

-- What is left is the queue without a first part that is acknowledged, up to a segment that is not.
abbrev IsAcked : ℕ → List Segment → List Segment → Type 0
IsAcked ackno q left =
    (gone : List Segment) × (q ≡ gone ++ left) × AllAcked ackno gone × NotAcked ackno left

-- The queue on its way, the number and the timer are the same.
abbrev IsKept : Sender → Sender → Type 0
IsKept x y = (y.unacked ≡ x.unacked) × (y.lastack ≡ x.lastack) × (y.running ≡ x.running)

update_snd_wnd-IsKept :
    (seqno ackno wnd : ℕ) (x : Sender)
    → IsKept x (update_snd_wnd seqno ackno wnd x)
      × ((update_snd_wnd seqno ackno wnd x).snd_nxt ≡ x.snd_nxt)
unfolding update_snd_wnd
update_snd_wnd-IsKept seqno ackno wnd x =
    elim (Bool-cases (
      seq_lt x.snd_wl1 seqno
      || (x.snd_wl1 == seqno && seq_lt x.snd_wl2 ackno)
      || (x.snd_wl2 == ackno && ltb x.snd_wnd wnd))) [
        | inl does ↦ rw does ((refl, refl, refl), refl)
        | inr does_not ↦ rw does_not ((refl, refl, refl), refl)
      ]

estimate_rtt-IsKept : (tcp_ticks ackno : ℕ) (x : Sender) → IsKept x (estimate_rtt tcp_ticks ackno x)
unfolding estimate_rtt
estimate_rtt-IsKept tcp_ticks ackno x =
    elim (Bool-cases (not (x.rttest == 0) && seq_lt x.rtseq ackno)) [
      | inl does ↦ rw does (refl, refl, refl)
      | inr does_not ↦ rw does_not (refl, refl, refl)
    ]

grow_cwnd-IsKept : (x : Sender) → Allows (IsKept x) (grow_cwnd x)
unfolding grow_cwnd
grow_cwnd-IsKept x =
    if-Allows (IsKept x) (ltb x.cwnd x.ssthresh) _ _
      (λ _. elim (Bool-cases (ltb x.cwnd (u16 (x.cwnd + x.mss)))) [
        | inl more ↦ rw more (refl, refl, refl)
        | inr same ↦ rw same (refl, refl, refl)
      ])
      (λ _.
        asserting-Allows (IsKept x) (not (x.cwnd == 0)) _
          (elim (Bool-cases (ltb x.cwnd (u16 (x.cwnd + x.mss * x.mss / x.cwnd)))) [
            | inl more ↦ rw more (refl, refl, refl)
            | inr same ↦ rw same (refl, refl, refl)
          ]))

leave_queue-IsKept :
    (next : Segment) (left : Bool) (x : Sender) → Allows (IsKept x) (leave_queue next left x)
unfolding leave_queue
leave_queue-IsKept next left x =
    let queuelen = sub16 x.snd_queuelen (pbuf_clen next.p) in
    asserting-Allows (IsKept x) (leb (pbuf_clen next.p) x.snd_queuelen) _ (
      asserting-Allows (IsKept x) (queuelen == 0 || left)
        (some (record x {
          acked = if not (x.acked == 0) && next.fin then x.acked - 1 else x.acked;
          snd_queuelen = queuelen;
        }))
        (refl, refl, refl))

unsent_loop-IsKept :
    (ackno : ℕ) (q : List Segment) (x : Sender) → Allows (IsKept x) (unsent_loop ackno q x)
unfolding unsent_loop
unsent_loop-IsKept ackno [] x = (refl, refl, refl)
unsent_loop-IsKept ackno (next ∷ r) x =
    if-Allows (IsKept x) (seq_between ackno (u32 (next.seqno + tcplen_of next)) x.snd_nxt) _ _
      (λ _. >>=-Allows (IsKept x) (IsKept x) _ _ (leave_queue-IsKept next _ x) λ y h.
        then_kept x y h _ (
          unsent_loop-IsKept ackno r
            (record y { unsent_oversize = if null_queue r then 0 else y.unsent_oversize })))
      (λ _. (refl, refl, refl))
  where
    then_kept :
        (x y : Sender)
        → IsKept x y
        → (z : Option Sender) → Allows (IsKept y) z
        → Allows (IsKept x) z
    then_kept x y h none k = tt
    then_kept x y h (some z) k = (k.0 ∙ h.0, k.1 ∙ h.1, k.2 ∙ h.2)

unacked_loop-IsAcked :
    (ackno : ℕ) (q : List Segment) (x : Sender)
    → Allows (λ y. IsAcked ackno q y.unacked × (y.lastack ≡ x.lastack)) (unacked_loop ackno q x)
unfolding unacked_loop
unacked_loop-IsAcked ackno [] x = (([], refl, tt, tt), refl)
unacked_loop-IsAcked ackno (next ∷ r) x =
    if-Allows (λ y. IsAcked ackno (next ∷ r) y.unacked × (y.lastack ≡ x.lastack))
      (seq_leq (u32 (next.seqno + tcplen_of next)) ackno) _ _
      (λ acked.
        >>=-Allows (IsKept x) (λ y. IsAcked ackno (next ∷ r) y.unacked × (y.lastack ≡ x.lastack)) _
          _ (leave_queue-IsKept next _ x)
          λ y h. one_more acked y h (unacked_loop ackno r y) (unacked_loop-IsAcked ackno r y))
      (λ ahead. (([], refl, tt, ahead), refl))
  where
    one_more :
        seq_leq (u32 (next.seqno + tcplen_of next)) ackno ≡ true
        → (y : Sender) → IsKept x y
        → (z : Option Sender) → Allows (λ v. IsAcked ackno r v.unacked × (v.lastack ≡ y.lastack)) z
        → Allows (λ v. IsAcked ackno (next ∷ r) v.unacked × (v.lastack ≡ x.lastack)) z
    one_more acked y h none k = tt
    one_more acked y h (some v) ((gone, e, all, ahead), l) =
        ((next ∷ gone, ap (◌∷◌ next) e, (acked, all), ahead), l ∙ h.1)

-- The numbers acknowledged are `ackno` now, and the timer runs on if there is something left.
abbrev pub IsTrimmed : ℕ → List Segment → Sender → Type 0
IsTrimmed ackno q y =
    IsAcked ackno q y.unacked × (y.lastack ≡ ackno) × (y.running ≡ not (null_queue y.unacked))

new_ack-IsTrimmed : (ackno : ℕ) (x : Sender) → Allows (IsTrimmed ackno x.unacked) (new_ack ackno x)
unfolding new_ack
new_ack-IsTrimmed ackno x =
    let start : Sender = record x {
      infr = false;
      cwnd = if x.infr then x.ssthresh else x.cwnd;
      nrtx = 0;
      rto = u16 (shift_right x.sa 3 + x.sv);
      acked = u16 (sub32 ackno x.lastack);
      snd_buf = u16 (x.snd_buf + u16 (sub32 ackno x.lastack));
      dupacks = 0;
      lastack = ackno;
    } in
    >>=-Allows (IsKept start) (IsTrimmed ackno x.unacked) (grow_cwnd start) _
      (grow_cwnd-IsKept start)
      λ y h.
        >>=-Allows (λ z. IsAcked ackno y.unacked z.unacked × (z.lastack ≡ y.lastack))
          (IsTrimmed ackno x.unacked) (unacked_loop ackno y.unacked y) _
          (unacked_loop-IsAcked ackno y.unacked y)
          λ z k.
            let (gone, e, all, ahead) = k.0 in ((gone, sym h.0 ∙ e, all, ahead), k.1 ∙ h.1, refl)

kept-IsTrimmed :
    (ackno : ℕ) (q : List Segment) (x y : Sender)
    → IsKept x y
    → IsTrimmed ackno q x
    → IsTrimmed ackno q y
kept-IsTrimmed ackno q x y h ((gone, e, all, ahead), at, timer) = (
  (gone, e ∙ ap (λ l. gone ++ l) (sym h.0), all, rw h.0 ahead),
  h.1 ∙ at,
  h.2 ∙ timer ∙ ap (λ l. not (null_queue l)) (sym h.0),
)

-- For a connection whose counters are true and an acknowledgement of something new, after `lastack` and
-- up to `snd_nxt`: its handling ends with true counters, with `lastack` that number, and with the segments
-- on their way less the first ones, which are all acknowledged whole, up to the first that is not; the
-- timer runs if one is left.
pub receive_ack-IsTrimmed :
    (tcp_ticks seqno ackno wnd tcplen : ℕ) (x : Sender)
    → IsSending x
    → seq_leq ackno x.lastack ≡ false
    → seq_between ackno (u32 (x.lastack + 1)) x.snd_nxt ≡ true
    → Gives
        (λ y. IsSending y × IsTrimmed ackno x.unacked y)
        (receive_ack tcp_ticks seqno ackno wnd tcplen x)
unfolding receive_ack
receive_ack-IsTrimmed tcp_ticks seqno ackno wnd tcplen x h new sent =
    let y = update_snd_wnd seqno ackno wnd x in
    let (kept, nxt) = update_snd_wnd-IsKept seqno ackno wnd x in
    let sent_still : seq_between ackno (u32 (y.lastack + 1)) y.snd_nxt ≡ true =
      subst (λ n. seq_between ackno (u32 (n + 1)) y.snd_nxt ≡ true) (sym kept.1)
        (subst (λ n. seq_between ackno (u32 (x.lastack + 1)) n ≡ true) (sym nxt) sent) in
    Gives-Allows IsSending (IsTrimmed ackno x.unacked) _
      (receive_ack-IsSending tcp_ticks seqno ackno wnd tcplen x h)
      (rw (subst (λ n. seq_leq ackno n ≡ false) (sym kept.1) new, sent_still)
        (>>=-Allows (IsTrimmed ackno x.unacked) (IsTrimmed ackno x.unacked) (new_ack ackno y) _
          (subst (λ q. Allows (IsTrimmed ackno q) (new_ack ackno y)) kept.0
            (new_ack-IsTrimmed ackno y))
          λ z k.
            >>=-Allows (IsKept z) (IsTrimmed ackno x.unacked) (unsent_loop ackno z.unsent z) _
              (unsent_loop-IsKept ackno z.unsent z)
              λ v l.
                kept-IsTrimmed ackno x.unacked v (estimate_rtt tcp_ticks ackno v)
                  (estimate_rtt-IsKept tcp_ticks ackno v) (kept-IsTrimmed ackno x.unacked z v l k)))
