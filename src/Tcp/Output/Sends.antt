-- ===== src/Tcp/Output/Sends.antt =====
-- What `tcp_output` sends.
use qladder.Prelude.{
  sym, Bool-cases, ◌-◌, ◌==◌, ℕ, ◌+◌, ◌≤◌, ◌<◌, ◌≡◌, ◌⊎◌, inl, inr, refl, ap, subst, ap₂, ◌∙◌, min,
  List, [], ◌∷◌, ◌++◌, Gives, either, Bool, true, false, ◌&&◌, ◌||◌, not, leb, if◌then◌else◌, u32,
  sub32, arith,
}
use qladder.Tcp.{Pcb, Segment, listening, tcp_send_empty_ack}
use qladder.Tcp.Window.{asserting-Gives}
use qladder.Tcp.Ack.{Sender, null_queue}
use qladder.Tcp.Ack.Congestion.{queue_len, IsSending}
use qladder.Tcp.Connection.{Tcb}
use qladder.Tcp.Output.{
  output_nagle, in_window, send_segment, may_send, output_loop, none_allowed, tcp_output,
}
use qladder.Tcp.Output.Steps.{AllNumbered, Same, then-Same, send_segment-IsGone}

-- What is handed to `ip_output`, with the same acknowledgement and window on each segment.
abbrev pub log : ℕ → ℕ → List Segment → List (Segment × ℕ × ℕ) → List (Segment × ℕ × ℕ)
log nxt ann [] sent = sent
log nxt ann (seg ∷ r) sent = log nxt ann r ((seg, nxt, ann) ∷ sent)

-- The bytes up to the end of each segment are allowed by the peer and the congestion window.
abbrev pub AllInWindow : ℕ → ℕ → List Segment → Type 0
AllInWindow wnd lastack [] = Unit {0}
AllInWindow wnd lastack (s ∷ r) =
    (u32 (sub32 s.seqno lastack + s.len) ≤ wnd) × AllInWindow wnd lastack r

-- Nagle's algorithm holds a segment back if something is on its way and nothing else asks for haste: it
-- is the only one, has less than `mss` bytes, and neither the buffer nor the queue is full.
abbrev pub IsNagled : Segment → List Segment → Tcb → Type 0
IsNagled s r u =
    (u.snd.unacked ≡ [] → ⊥)
    × (u.nodelay ≡ false)
    × (u.snd.infr ≡ false)
    × (r ≡ [])
    × (s.len < u.snd.mss)
    × (0 < u.snd.snd_buf)
    × (u.snd.snd_queuelen < 0xfffc)

-- The first segment that is left is outside the window, or Nagle's algorithm holds it back.
abbrev pub IsHeld : ℕ → List Segment → Tcb → Type 0
IsHeld wnd [] u = Unit {0}
IsHeld wnd (s ∷ r) u =
    (wnd < u32 (sub32 s.seqno u.snd.lastack + s.len))
    ⊎ (IsNagled s r u × (u.nagle_memerr ≡ false) × (u.fin_queued ≡ false))

abbrev pub IsFront : ℕ → List Segment → Tcb → Tcb → List Segment → Type 0
IsFront wnd q t u front =
    (q ≡ front ++ u.snd.unsent)
    × AllInWindow wnd t.snd.lastack front
    × (u.sent ≡ log t.rcv.rcv_nxt t.rcv.rcv_ann_wnd front t.sent)

-- A first part of the queue `q` is on its way, and the rest is held back.
abbrev pub IsSent : ℕ → List Segment → Tcb → Tcb → Type 0
IsSent wnd q t u = ((front : List Segment) × IsFront wnd q t u front) × IsHeld wnd u.snd.unsent u

abbrev IsRun : ℕ → List Segment → Tcb → Tcb → Type 0
IsRun wnd q t u =
    Same t u
    × (queue_len u.snd.unacked + queue_len u.snd.unsent ≡ queue_len t.snd.unacked + queue_len q)
    × IsSent wnd q t u

in_window-bounds :
    (wnd : ℕ) (seg : Segment) (x : Sender) (b : Bool)
    → (in_window wnd seg x && b ≡ true)
    → u32 (sub32 seg.seqno x.lastack + seg.len) ≤ wnd
in_window-bounds wnd seg x b h = ground (arith, h)

held :
    (wnd n : ℕ) (b c d : Bool)
    → (leb n wnd && (b || c || d) ≡ false)
    → (wnd < n) ⊎ ((b ≡ false) × (c ≡ false) × (d ≡ false))
held wnd n b c d h = ground (arith, h)

-- One segment more at the front.
IsSent-send :
    (wnd : ℕ) (seg : Segment) (r : List Segment) (t w u : Tcb)
    → u32 (sub32 seg.seqno t.snd.lastack + seg.len) ≤ wnd
    → Same t w
    → w.sent ≡ (seg, t.rcv.rcv_nxt, t.rcv.rcv_ann_wnd) ∷ t.sent
    → IsSent wnd r w u
    → IsSent wnd (seg ∷ r) t u
IsSent-send wnd seg r t w u fits same sent ((front, (all, allowed, logged)), last) = (
  (
    seg ∷ front,
    (
      ap (λ q. seg ∷ q) all,
      (fits, subst (λ n. AllInWindow wnd n front) same.0 allowed),
      logged
          ∙ ap₂ (λ n m. log n m front w.sent) same.1 same.2
          ∙ ap (log t.rcv.rcv_nxt t.rcv.rcv_ann_wnd front) sent,
    ),
  ),
  last,
)

pub null_queue-nil : (q : List Segment) → null_queue q ≡ true → q ≡ []
null_queue-nil [] h = refl
null_queue-nil (x ∷ r) h = absurd (ground arith)

pub null_queue-some : (q : List Segment) → null_queue q ≡ false → q ≡ [] → ⊥
null_queue-some [] h e = absurd (ground arith)
null_queue-some (x ∷ r) h e = let k : false ≡ true = ap null_queue e in absurd (ground (arith, k))

no_haste :
    (a b c d : Bool) (mss len buf n : ℕ)
    → (a || b || c || not d || leb mss len || buf == 0 || leb (0xffff - 3) n) ≡ false
    → (a ≡ false) × (b ≡ false) × (c ≡ false) × (d ≡ true) × (len < mss) × (0 < buf) × (n < 0xfffc)
no_haste a b c d mss len buf n h = ground (arith, h)

output_nagle-IsNagled :
    (s : Segment) (r : List Segment) (u : Tcb) → output_nagle (s ∷ r) u ≡ false → IsNagled s r u
output_nagle-IsNagled s r u h =
    let k =
      no_haste (null_queue u.snd.unacked) u.nodelay u.snd.infr (null_queue r) u.snd.mss s.len
        u.snd.snd_buf u.snd.snd_queuelen h in
    (null_queue-some u.snd.unacked k.0, k.1, k.2, null_queue-nil r k.3, k.4, k.5, k.6)

stuck-IsHeld :
    (wnd : ℕ) (s : Segment) (r : List Segment) (u : Tcb)
    → (wnd < u32 (sub32 s.seqno u.snd.lastack + s.len))
      ⊎ ((output_nagle (s ∷ r) u ≡ false) × (u.nagle_memerr ≡ false) × (u.fin_queued ≡ false))
    → IsHeld wnd (s ∷ r) u
stuck-IsHeld wnd s r u (inl h) = inl h
stuck-IsHeld wnd s r u (inr (h, k, l)) = inr (output_nagle-IsNagled s r u h, k, l)

output_loop-IsSent :
    (tcp_ticks wnd : ℕ) (q : List Segment) (t : Tcb)
    → AllNumbered q
    → IsRun wnd q t (output_loop tcp_ticks false wnd q t)
unfolding output_loop
output_loop-IsSent tcp_ticks wnd [] t numbered = (
  (refl, refl, refl, refl, refl, refl, refl, refl, refl, refl, refl, refl),
  refl,
  (([], (refl, tt, refl)), tt),
)
output_loop-IsSent tcp_ticks wnd (seg ∷ r) t (pos, numbered) =
    let w = send_segment tcp_ticks false seg t in
    let (same, len, sent) = send_segment-IsGone tcp_ticks false seg t pos in
    let (rest, rest_len, rest_sent) = output_loop-IsSent tcp_ticks wnd r w numbered in
    let u = output_loop tcp_ticks false wnd r w in
    either (IsRun wnd (seg ∷ r) t) (may_send wnd seg r t) u
      (record t { snd = record t.snd { unsent = seg ∷ r } })
      (λ may. (
        then-Same t w u same rest,
        omega (arith, rest_len, len),
        IsSent-send wnd seg r t w u (in_window-bounds wnd seg t.snd _ may) same (sent refl)
            rest_sent,
      ))
      (λ may_not. (
        (refl, refl, refl, refl, refl, refl, refl, refl, refl, refl, refl, refl),
        refl,
        (
          ([], (refl, tt, refl)),
          stuck-IsHeld wnd seg r t (
              held wnd (u32 (sub32 seg.seqno t.snd.lastack + seg.len)) (output_nagle (seg ∷ r) t)
                t.nagle_memerr t.fin_queued may_not),
        ),
      ))

both_hold : (b c : Bool) → (b && c ≡ true) → (b ≡ true) × (c ≡ true)
both_hold b c h = ground (arith, h)

run-IsSending :
    (wnd : ℕ) (t u : Tcb) → IsRun wnd t.snd.unsent t u → IsSending t.snd → IsSending u.snd
run-IsSending wnd t u (same, len, sent) (counted, going) = (
  (omega (arith, same, len, counted), omega (arith, same, counted)),
  (
    omega (arith, same, going),
    omega (arith, same, going),
    omega (arith, same, going),
    omega (arith, same, going),
    omega (arith, same, going),
    omega (arith, same, going),
  ),
)

-- The state, its clock, and the counters of retransmissions and of probes.
abbrev pub SameTries : Tcb → Tcb → Type 0
SameTries t u =
    (u.snd.nrtx ≡ t.snd.nrtx)
    × (u.snd.persist_backoff ≡ t.snd.persist_backoff)
    × (u.rcv.state ≡ t.rcv.state)
    × (u.tmr ≡ t.tmr)
    × (u.rxclosed ≡ t.rxclosed)

-- With memory for it an acknowledgement goes alone, with the number that is expected next and the
-- window, and none is due any more; without, nothing happens.
abbrev pub IsAnswered : Bool → Pcb → Pcb → Type 0
IsAnswered true x y =
    (y.answers ≡ (x.snd_nxt, x.rcv_nxt, x.rcv_ann_wnd) ∷ x.answers)
    × (y.ack_now ≡ false)
    × (y.ack_delay ≡ false)
    × (y.state ≡ x.state)
IsAnswered false x y = y ≡ x

tcp_send_empty_ack-IsAnswered :
    (memory : Bool) (x : Pcb) → IsAnswered memory x (tcp_send_empty_ack memory x)
unfolding tcp_send_empty_ack
tcp_send_empty_ack-IsAnswered true x = (refl, refl, refl, refl)
tcp_send_empty_ack-IsAnswered false x = refl

IsAnswered-state : (memory : Bool) (x y : Pcb) → IsAnswered memory x y → y.state ≡ x.state
IsAnswered-state true x y h = h.3
IsAnswered-state false x y h = ap (λ z. z.state) h

-- The queue is empty, or its first segment ends outside the window.
abbrev pub NoneFits : ℕ → ℕ → List Segment → Type 0
NoneFits wnd lastack [] = Unit {0}
NoneFits wnd lastack (s ∷ r) = wnd < u32 (sub32 s.seqno lastack + s.len)

none_allowed-NoneFits :
    (wnd : ℕ) (q : List Segment) (x : Sender)
    → none_allowed wnd q x ≡ true
    → NoneFits wnd x.lastack q
none_allowed-NoneFits wnd [] x h = tt
none_allowed-NoneFits wnd (s ∷ r) x h = ground (arith, h)

some_allowed-NoneFits :
    (wnd : ℕ) (q : List Segment) (x : Sender)
    → none_allowed wnd q x ≡ false
    → NoneFits wnd x.lastack q
    → ⊥
some_allowed-NoneFits wnd [] x h k = absurd (ground arith)
some_allowed-NoneFits wnd (s ∷ r) x h k = absurd (ground (arith, h, k))

-- While the connection's input is processed there is no output. Otherwise, if an acknowledgement is due
-- and no segment fits, that alone is sent, and nothing but the receiving half changes; if none is due or
-- a segment fits, the front of the queue is sent.
abbrev pub HasOutput : Bool → Bool → Tcb → Tcb → Type 0
HasOutput memory processing t u =
    ((processing ≡ true) × (u ≡ t))
    ⊎ (((processing ≡ false)
          × (t.rcv.ack_now ≡ true)
          × NoneFits (min t.snd.snd_wnd t.snd.cwnd) t.snd.lastack t.snd.unsent
          × (u ≡ record t { rcv = u.rcv })
          × IsAnswered memory t.rcv u.rcv)
        ⊎ ((processing ≡ false)
            × ((t.rcv.ack_now ≡ false)
                ⊎ (NoneFits (min t.snd.snd_wnd t.snd.cwnd) t.snd.lastack t.snd.unsent → ⊥))
            × IsSent (min t.snd.snd_wnd t.snd.cwnd) t.snd.unsent t u))

AllNumbered-rest : (p q : List Segment) → AllNumbered (p ++ q) → AllNumbered q
AllNumbered-rest [] q h = h
AllNumbered-rest (s ∷ r) q h = AllNumbered-rest r q h.1

pub HasOutput-AllNumbered :
    (memory processing : Bool) (t u : Tcb)
    → HasOutput memory processing t u
    → AllNumbered t.snd.unsent
    → AllNumbered u.snd.unsent
HasOutput-AllNumbered memory processing t u (inl h) n =
    subst (λ x. AllNumbered x.snd.unsent) (sym h.1) n
HasOutput-AllNumbered memory processing t u (inr (inl h)) n =
    subst AllNumbered (sym (ap (λ x. x.snd.unsent) h.3)) n
HasOutput-AllNumbered memory processing t u (inr (inr h)) n =
    let ((front, (all, allowed, logged)), last) = h.2 in
    AllNumbered-rest front u.snd.unsent (subst AllNumbered all n)

-- The fields that the end of `tcp_output` changes play no part.
IsHeld-after :
    (wnd n : ℕ) (q : List Segment) (u : Tcb)
    → IsHeld wnd q u
    → IsHeld wnd q (record u { snd = record u.snd { unsent_oversize = n }; nagle_memerr = false })
IsHeld-after wnd n [] u h = tt
IsHeld-after wnd n (s ∷ r) u (inl h) = inl h
IsHeld-after wnd n (s ∷ r) u (inr h) = inr (h.0, refl, h.2)

not_both :
    (wnd : ℕ) (t : Tcb)
    → (t.rcv.ack_now && none_allowed wnd t.snd.unsent t.snd) ≡ false
    → (t.rcv.ack_now ≡ false) ⊎ (NoneFits wnd t.snd.lastack t.snd.unsent → ⊥)
not_both wnd t h = elim (Bool-cases t.rcv.ack_now) [
  | inl due ↦ inr (some_allowed-NoneFits wnd t.snd.unsent t.snd (only t.rcv.ack_now _ due h))
  | inr none_due ↦ inl none_due
]
  where
    only : (b c : Bool) → b ≡ true → (b && c) ≡ false → c ≡ false
    only b c e f = ground (arith, e, f)

-- `tcp_output` of a connection that is not listening and has a route, with true counters, where each
-- unsent segment has a number of its own: no assertion fails, the counters stay true, and those of
-- retransmissions, the state and its clock are the same. While the connection's input is processed nothing
-- changes. Otherwise, if an acknowledgement is due and no segment is unsent or the first is outside the
-- windows, an acknowledgement goes alone if there is memory for it, with the number that is expected next
-- and the window, and only the receiving half changes. If none is due, or the first segment fits, a first
-- part of the unsent queue, all of it within the smaller of the two windows, is handed to IP in order, each
-- segment with that number and window, and the rest stays: its first segment is outside the windows, or it
-- is the only one, small, and held back by Nagle's algorithm.
pub tcp_output-IsSent :
    (tcp_ticks : ℕ) (memory processing : Bool) (t : Tcb)
    → listening t.rcv.state ≡ false
    → IsSending t.snd
    → AllNumbered t.snd.unsent
    → Gives
        (λ u. IsSending u.snd × SameTries t u × HasOutput memory processing t u)
        (tcp_output tcp_ticks false memory processing t)
unfolding tcp_output
tcp_output-IsSent tcp_ticks memory processing t up sending numbered =
    let wnd = min t.snd.snd_wnd t.snd.cwnd in
    let u = output_loop tcp_ticks false wnd t.snd.unsent t in
    let v : Tcb = record u {
      snd = record u.snd {
        unsent_oversize = if null_queue u.snd.unsent then 0 else u.snd.unsent_oversize;
      };
      nagle_memerr = false;
    } in
    let Does : Tcb → Type 0 =
      λ w. IsSending w.snd × SameTries t w × HasOutput memory processing t w in
    let e : not (listening t.rcv.state) ≡ true = ground (arith, up) in
    asserting-Gives Does (not (listening t.rcv.state)) _ e (
      either Does processing t _ (λ now. (sending, (refl, refl, refl, refl, refl), inl (now, refl)))
        λ idle.
          either Does (t.rcv.ack_now && none_allowed wnd t.snd.unsent t.snd)
            (record t { rcv = tcp_send_empty_ack memory t.rcv }) v
            (λ now.
              let h = both_hold t.rcv.ack_now (none_allowed wnd t.snd.unsent t.snd) now in
              let answered = tcp_send_empty_ack-IsAnswered memory t.rcv in
              (
                sending,
                (refl, refl, IsAnswered-state memory t.rcv _ answered, refl, refl),
                inr (
                    inl (
                      idle,
                      h.0,
                      none_allowed-NoneFits wnd t.snd.unsent t.snd h.1,
                      refl,
                      answered,
                    )),
              ))
            (λ not_now.
              let (same, len, (front, last)) =
                output_loop-IsSent tcp_ticks wnd t.snd.unsent t numbered in
              (
                run-IsSending wnd t u (same, len, (front, last)) sending,
                (same.7, same.8, same.9, same.10, same.11),
                inr (
                    inr (
                      idle,
                      not_both wnd t not_now,
                      (front, IsHeld-after wnd _ u.snd.unsent u last),
                    )),
              )))
