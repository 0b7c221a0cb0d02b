-- ===== src/Tcp/Close/Fin.antt =====
-- Queuing a FIN.
use qladder.Prelude.{
  ℕ, ◌+◌, ◌<◌, ◌≡◌, ◌⊎◌, inl, inr, refl, ap, ◌≤◌, ◌>>=◌, List, [], ◌∷◌, ◌++◌, Option, none, some,
  Gives, Bool, true, false, ◌||◌, not, ltb, leb, ◌==◌, arith, either,
}
use qladder.Pbuf.{pbuf_clen}
use qladder.Tcp.{Segment}
use qladder.Tcp.Ack.Congestion.{queue_len, IsSending}
use qladder.Tcp.Connection.{Tcb, ErrT, err_ok, err_other}
use qladder.Tcp.Output.{tcp_snd_queuelen}
use qladder.Tcp.Output.Steps.{AllNumbered, queue_len-append, append-AllNumbered}
use qladder.Tcp.Close.{bare_segment, tcp_enqueue_flags, add_fin, fin_added, tcp_send_fin}

-- The last segment gets a FIN too.
abbrev HasFin : List Segment → List Segment → Type 0
HasFin q left =
    (front : List Segment) × ((seg : Segment) × ((q ≡ front ++ (seg ∷ []))
        × (left ≡ front ++ (record seg { fin = true } ∷ []))))

-- The last segment of the queue has room for a FIN.
abbrev pub OpenEnd : List Segment → Type 0
OpenEnd [] = ⊥
OpenEnd (seg ∷ []) = (seg.syn ≡ false) × (seg.fin ≡ false)
OpenEnd (seg ∷ next ∷ r) = OpenEnd (next ∷ r)

-- An empty segment with a FIN and the next number is behind the queue.
abbrev HasOneMore : ℕ → List Segment → List Segment → Type 0
HasOneMore number q left =
    (seg : Segment) × ((left ≡ q ++ (seg ∷ []))
      × (seg.seqno ≡ number)
      × (seg.len ≡ 0)
      × (seg.fin ≡ true)
      × (seg.syn ≡ false))

-- A FIN ends the queue: on its last segment if that has room for it, or else on one behind it.
abbrev pub EndsInFin : Tcb → List Segment → Type 0
EndsInFin t q =
    (OpenEnd t.snd.unsent × HasFin t.snd.unsent q)
    ⊎ ((OpenEnd t.snd.unsent → ⊥) × HasOneMore t.snd_lbb t.snd.unsent q)

abbrev IsAdded : List Segment → Option (List Segment) → Type 0
IsAdded q none = OpenEnd q → ⊥
IsAdded q (some left) =
    OpenEnd q × HasFin q left × (queue_len left ≡ queue_len q) × (AllNumbered q → AllNumbered left)

closed_end : (b c : Bool) → (b || c ≡ true) → b ≡ false → c ≡ false → ⊥
closed_end b c h e f = absurd (ground (arith, h, e, f))

open_end : (b c : Bool) → (b || c ≡ false) → (b ≡ false) × (c ≡ false)
open_end b c h = ground (arith, h)

IsAdded-behind :
    (seg next : Segment) (r : List Segment) (m : Option (List Segment))
    → IsAdded (next ∷ r) m
    → IsAdded (seg ∷ next ∷ r) (m >>= λ q. some (seg ∷ q))
IsAdded-behind seg next r none m = m
IsAdded-behind seg next r (some q) (end, (front, (last, (before, after))), len, numbered) = (
  end,
  (seg ∷ front, (last, (ap (λ l. seg ∷ l) before, ap (λ l. seg ∷ l) after))),
  ap (λ n. pbuf_clen seg.p + n) len,
  λ h. (h.0, numbered h.1),
)

add_fin-IsAdded : (q : List Segment) → IsAdded q (add_fin q)
add_fin-IsAdded [] = λ h. h
add_fin-IsAdded (seg ∷ []) =
    either (IsAdded (seg ∷ [])) (seg.syn || seg.fin) _ _
      (λ e h. closed_end seg.syn seg.fin e h.0 h.1)
      λ e. (open_end seg.syn seg.fin e, ([], (seg, (refl, refl))), refl, λ h. (omega arith, tt))
add_fin-IsAdded (seg ∷ next ∷ r) =
    IsAdded-behind seg next r (add_fin (next ∷ r)) (add_fin-IsAdded (next ∷ r))

-- Neither the last segment has room for a FIN, nor is there memory and room for one more segment.
abbrev pub NoRoom : Bool → Tcb → Type 0
NoRoom memory t =
    (OpenEnd t.snd.unsent → ⊥)
    × ((memory ≡ false) ⊎ ((t.snd.snd_buf ≡ 0) ⊎ (0xfffc ≤ t.snd.snd_queuelen)))

-- The error says that nothing has been queued; otherwise a FIN has.
abbrev pub IsQueued : Bool → Tcb → ErrT × Tcb → Type 0
IsQueued memory t r =
    (NoRoom memory t
      × (r.0 ≡ err_other)
      × (r.1.snd ≡ t.snd)
      × (r.1.rcv ≡ t.rcv)
      × (r.1.sent ≡ t.sent))
    ⊎ ((r.0 ≡ err_ok)
        × IsSending r.1.snd
        × AllNumbered r.1.snd.unsent
        × EndsInFin t r.1.snd.unsent
        × (r.1.snd.unacked ≡ t.snd.unacked)
        × (r.1.rcv ≡ t.rcv)
        × (r.1.sent ≡ t.sent))

below : (n : ℕ) → (leb tcp_snd_queuelen n || ltb tcp_snd_queuelen n ≡ false) → n < tcp_snd_queuelen
below n h = ground (arith, h)

full : (n : ℕ) → (leb tcp_snd_queuelen n || ltb tcp_snd_queuelen n ≡ true) → 0xfffc ≤ n
full n h = ground (arith, h)

tcp_enqueue_flags-IsQueued :
    (memory : Bool) (t : Tcb)
    → IsSending t.snd
    → AllNumbered t.snd.unsent
    → (OpenEnd t.snd.unsent → ⊥)
    → Gives (IsQueued memory t) (tcp_enqueue_flags memory false true t)
unfolding tcp_enqueue_flags pbuf_clen
tcp_enqueue_flags-IsQueued memory t sending numbered end =
    let seg = bare_segment t.snd_lbb false true in
    let len = queue_len-append t.snd.unsent (seg ∷ []) in
    let (counted, going) = sending in
    either (IsQueued memory t)
      (leb tcp_snd_queuelen t.snd.snd_queuelen || ltb tcp_snd_queuelen t.snd.snd_queuelen) _ _
      (λ e. inl ((end, inr (inr (full t.snd.snd_queuelen e))), refl, refl, refl, refl))
      λ room.
        let few : t.snd.snd_queuelen < tcp_snd_queuelen = below t.snd.snd_queuelen room in
        either (IsQueued memory t) (t.snd.snd_buf == 0) _ _
          (λ e. inl ((end, inr (inl (ground (arith, e)))), refl, refl, refl, refl))
          λ _.
            either (IsQueued memory t) (not memory) _ _
              (λ e. inl ((end, inl (ground (arith, e))), refl, refl, refl, refl))
              λ _. inr (
                refl,
                ((omega (arith, counted, len, few), omega arith), going),
                append-AllNumbered t.snd.unsent (seg ∷ []) numbered (omega arith, tt),
                inr (end, (seg, (refl, refl, refl, refl, refl))),
                refl,
                refl,
                refl,
              )

pub tcp_send_fin-IsQueued :
    (memory : Bool) (t : Tcb)
    → IsSending t.snd
    → AllNumbered t.snd.unsent
    → Gives (IsQueued memory t) (tcp_send_fin memory t)
tcp_send_fin-IsQueued memory t sending numbered =
    queued (add_fin t.snd.unsent) (add_fin-IsAdded t.snd.unsent)
  where
    queued :
        (m : Option (List Segment))
        → IsAdded t.snd.unsent m
        → Gives (IsQueued memory t) (fin_added memory m t)
    queued none h = tcp_enqueue_flags-IsQueued memory t sending numbered h
    queued (some q) (end, fin, len, more) = inr (
      refl,
      ((omega (arith, sending, len), sending.0.1), sending.1),
      more numbered,
      inl (end, fin),
      refl,
      refl,
      refl,
    )
