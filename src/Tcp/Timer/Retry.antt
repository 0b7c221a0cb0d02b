-- ===== src/Tcp/Timer/Retry.antt =====
-- What a tick of the retransmission timer does to a connection.
use qladder.Prelude.{
  ℕ, zero, suc, length, Gives-mono, ◌+◌, ◌-◌, ◌≤◌, ◌<◌, ◌≡◌, ◌⊎◌, inl, inr, refl, ◌∙◌, List, [],
  ◌∷◌, ◌++◌, Option, none, some, Gives, >>=-Gives, if-Gives, Bool, true, false, ◌&&◌, ◌||◌, not,
  ltb, ◌==◌, if◌then◌else◌, get_elem?, u8, u16, arith, either, ◌^◌, ap,
}
use qladder.Tcp.{State, syn_sent, Segment, listening}
use qladder.Tcp.Ack.{negative, null_queue}
use qladder.Tcp.Ack.Congestion.{IsSending, fast_threshold-bounds}
use qladder.Tcp.Connection.{Tcb, is_syn_sent}
use qladder.Tcp.Output.Steps.{AllNumbered, queue_len-append, append-AllNumbered}
use qladder.Tcp.Output.Sends.{
  HasOutput, HasOutput-AllNumbered, null_queue-nil, null_queue-some, tcp_output-IsSent,
}
use qladder.Tcp.Timer.{
  tcp_maxrtx, tcp_synmaxrtx, tcp_backoff, tcp_persist_backoff, Ticked, signed_geq, requeued,
  backed_off, next_rto, probed, tcp_rexmit_rto, tcp_zero_window_probe, persist,
  retransmission_timer,
}

-- The counters that the tables of time-outs are read at.
abbrev pub IsTrying : Tcb → Type 0
IsTrying t = (t.snd.nrtx ≤ tcp_maxrtx) × (t.snd.persist_backoff ≤ 7)

-- The queue to be sent again is that of both queues, with one segment allowed.
abbrev pub IsAgain : Tcb → Tcb → Type 0
IsAgain t v =
    (v.snd.unsent ≡ t.snd.unacked ++ t.snd.unsent)
    × (v.snd.unacked ≡ [])
    × (v.snd.cwnd ≡ t.snd.mss)
    × (v.snd.snd_wnd ≡ t.snd.snd_wnd)
    × (v.snd.nrtx ≡ t.snd.nrtx + 1)
    × (v.sent ≡ t.sent)

-- The last try has been made.
abbrev pub GaveUp : Tcb → Type 0
GaveUp t = (t.snd.nrtx ≡ 12) ⊎ ((t.rcv.state ≡ syn_sent) × (t.snd.nrtx ≡ 6))

-- The time-out is stopped, at -1, or has a tick more before it leaves the signed numbers.
abbrev pub HasClock : ℕ → Tcb → Type 0
HasClock rtime t = (t.snd.rto < 2 ^ 15) × ((rtime ≡ 2 ^ 16 - 1) ⊎ (rtime + 1 < 2 ^ 15))

-- The time-out runs, and is over with this tick.
abbrev pub IsDue : ℕ → Tcb → Type 0
IsDue rtime t = (rtime < 2 ^ 15) × (t.snd.rto ≤ rtime + 1)

abbrev IsNext : ℕ → ℕ → Type 0
IsNext rtime now =
    ((rtime ≡ 2 ^ 16 - 1) × (now ≡ 2 ^ 16 - 1)) ⊎ ((rtime < 2 ^ 15) × (now ≡ rtime + 1))

-- The persist timer runs; or it is not time to send again, and the time-out goes on.
abbrev HasWaited : ℕ → Tcb → Ticked → Type 0
HasWaited rtime t r =
    ((0 < t.snd.persist_backoff) × (r.rtime ≡ rtime))
    ⊎ ((t.snd.persist_backoff ≡ 0)
        × ((t.snd.unacked ≡ []) ⊎ (IsDue rtime t → ⊥))
        × IsNext rtime r.rtime
        × (r.probes ≡ []))

abbrev IsQuiet : ℕ → Tcb → Ticked → Type 0
IsQuiet rtime t r =
    (r.tcb.snd.unacked ≡ t.snd.unacked)
    × (r.tcb.snd.unsent ≡ t.snd.unsent)
    × (r.tcb.snd.nrtx ≡ t.snd.nrtx)
    × (r.tcb.sent ≡ t.sent)
    × HasWaited rtime t r

-- What is on its way is overdue, and sent again.
abbrev IsRetried : Bool → ℕ → Tcb → Ticked → Type 0
IsRetried memory rtime t r =
    (t.snd.persist_backoff ≡ 0)
    × (t.snd.unacked ≡ [] → ⊥)
    × IsDue rtime t
    × (r.rtime ≡ 0)
    × (r.probes ≡ [])
    × (r.tcb.snd.nrtx ≡ t.snd.nrtx + 1)
    × ((v : Tcb) × (IsAgain t v × HasOutput memory false v r.tcb))

-- The tries are used up, and the connection is to be removed; or nothing is sent again, and the queues
-- stay; or all that is not acknowledged goes before what is unsent, and the sending starts anew.
abbrev pub HasTicked : Bool → ℕ → Tcb → Ticked → Type 0
HasTicked memory rtime t r =
    ((r.remove ≡ true) × (r.tcb ≡ t) × GaveUp t)
    ⊎ ((r.remove ≡ false) × (GaveUp t → ⊥) × (IsQuiet rtime t r ⊎ IsRetried memory rtime t r))

-- The state and its clock.
abbrev SameState : Tcb → Tcb → Type 0
SameState t u = (u.rcv.state ≡ t.rcv.state) × (u.rxclosed ≡ t.rxclosed) × (u.tmr ≡ t.tmr)

abbrev pub IsInOrder : Tcb → Tcb → Type 0
IsInOrder t u = IsSending u.snd × IsTrying u × SameState t u × AllNumbered u.snd.unsent

abbrev pub IsTicked : Bool → ℕ → Tcb → Ticked → Type 0
IsTicked memory rtime t r = IsInOrder t r.tcb × HasTicked memory rtime t r

-- An element of a table is read inside it.
read_inside :
    (table : List ℕ) (n : ℕ) → n < length table → Gives (λ b. Unit {0}) (get_elem? table n)
read_inside [] n h = absurd (omega arith)
read_inside (x ∷ r) zero h = tt
read_inside (x ∷ r) (suc n) h = read_inside r n (omega arith)

next_rto-read : (t : Tcb) → t.snd.nrtx < 13 → Gives (λ b. Unit {0}) (next_rto t)
next_rto-read t h =
    if-Gives (λ b. Unit {0}) (is_syn_sent t.rcv.state) _ _ (λ _. tt)
      λ _.
        >>=-Gives (λ b. Unit {0}) (λ b. Unit {0}) (get_elem? tcp_backoff t.snd.nrtx) _
          (read_inside tcp_backoff t.snd.nrtx h) λ b m. tt

syn_sent_state : (s : State) → is_syn_sent s ≡ true → s ≡ syn_sent
syn_sent_state syn_sent h = refl
syn_sent_state s h = absurd (ground (arith, h))

used_up : (b : Bool) (n : ℕ) → ((b && n == 6) || n == 12 ≡ true) → (n ≡ 12) ⊎ ((b ≡ true) × (n ≡ 6))
used_up b n h = ground (arith, h)

GaveUp-used_up :
    (t : Tcb)
    → ((is_syn_sent t.rcv.state && t.snd.nrtx == tcp_synmaxrtx) || t.snd.nrtx == tcp_maxrtx ≡ true)
    → GaveUp t
GaveUp-used_up t h = elim (used_up (is_syn_sent t.rcv.state) t.snd.nrtx h) [
  | inl all ↦ inl all
  | inr (e, n) ↦ inr (syn_sent_state t.rcv.state e, n)
]

still_left :
    (b : Bool) (n : ℕ)
    → ((b && n == 6) || n == 12 ≡ false)
    → (n ≡ 12 → ⊥) × ((b ≡ true) → (n ≡ 6) → ⊥)
still_left b n h = (λ e. ground (arith, h, e), λ e f. ground (arith, h, e, f))

GaveUp-left :
    (t : Tcb)
    → ((is_syn_sent t.rcv.state && t.snd.nrtx == tcp_synmaxrtx) || t.snd.nrtx == tcp_maxrtx ≡ false)
    → GaveUp t
    → ⊥
GaveUp-left t h (inl all) = (still_left (is_syn_sent t.rcv.state) t.snd.nrtx h).0 all
GaveUp-left t h (inr (e, n)) =
    (still_left (is_syn_sent t.rcv.state) t.snd.nrtx h).1 (ap is_syn_sent e) n

tries_left :
    (b : Bool) (n : ℕ)
    → ((b && n == tcp_synmaxrtx) || n == tcp_maxrtx ≡ false)
    → n ≤ tcp_maxrtx
    → n < tcp_maxrtx
tries_left b n h k = ground (arith, h, k)

abbrev ticked : ℕ → ℕ
ticked rtime = if negative rtime then rtime else u16 (rtime + 1)

ticked-IsNext :
    (rtime : ℕ) → (rtime ≡ 2 ^ 16 - 1) ⊎ (rtime + 1 < 2 ^ 15) → IsNext rtime (ticked rtime)
ticked-IsNext rtime h = ground (arith, h)

geq-due :
    (rtime rto : ℕ)
    → rto < 2 ^ 15
    → (rtime ≡ 2 ^ 16 - 1) ⊎ (rtime + 1 < 2 ^ 15)
    → signed_geq (ticked rtime) rto ≡ true
    → (rtime < 2 ^ 15) × (rto ≤ rtime + 1)
geq-due rtime rto h k e = ground (arith, h, k, e)

less-due :
    (rtime rto : ℕ)
    → rto < 2 ^ 15
    → (rtime ≡ 2 ^ 16 - 1) ⊎ (rtime + 1 < 2 ^ 15)
    → signed_geq (ticked rtime) rto ≡ false
    → (rtime < 2 ^ 15) × (rto ≤ rtime + 1)
    → ⊥
less-due rtime rto h k e f = ground (arith, h, k, e, f)

both : (b c : Bool) → (not b && c ≡ true) → (b ≡ false) × (c ≡ true)
both b c h = ground (arith, h)

one_not : (b c : Bool) → (not b && c ≡ false) → (b ≡ true) ⊎ (c ≡ false)
one_not b c h = ground (arith, h)

still_waits :
    (rtime : ℕ) (t : Tcb)
    → HasClock rtime t
    → (not (null_queue t.snd.unacked) && signed_geq (ticked rtime) t.snd.rto ≡ false)
    → (t.snd.unacked ≡ []) ⊎ (IsDue rtime t → ⊥)
still_waits rtime t clock h =
    elim (one_not (null_queue t.snd.unacked) (signed_geq (ticked rtime) t.snd.rto) h) [
      | inl none_left ↦ inl (null_queue-nil t.snd.unacked none_left)
      | inr early ↦ inr (less-due rtime t.snd.rto clock.0 clock.1 early)
    ]

module _ (tcp_ticks : ℕ) (memory : Bool) where
  abbrev IsRexmitted : Tcb → Tcb → Type 0
  IsRexmitted t u =
      IsInOrder t u
      × (u.snd.nrtx ≡ t.snd.nrtx + 1)
      × ((v : Tcb) × (IsAgain t v × HasOutput memory false v u))

  tcp_rexmit_rto-IsAgain :
      (rto : ℕ) (t : Tcb)
      → listening t.rcv.state ≡ false
      → IsSending t.snd
      → AllNumbered t.snd.unacked
      → AllNumbered t.snd.unsent
      → t.snd.nrtx < tcp_maxrtx
      → t.snd.persist_backoff ≤ 7
      → null_queue t.snd.unacked ≡ false
      → Gives (IsRexmitted t) (tcp_rexmit_rto tcp_ticks false memory (backed_off rto t))
  unfolding tcp_rexmit_rto
  tcp_rexmit_rto-IsAgain rto t up sending old new few tries some_left =
      let v = requeued (backed_off rto t) in
      let next : u8 (t.snd.nrtx + 1) ≡ t.snd.nrtx + 1 = omega (arith, few) in
      let thr = fast_threshold-bounds t.snd sending in
      let same_len = queue_len-append t.snd.unacked t.snd.unsent in
      let (counted, going) = sending in
      let v_sending : IsSending v.snd = (
        (omega (arith, counted, same_len), counted.1),
        (going.0, going.1, going.0, omega (arith, going), thr.0, omega (arith, thr)),
      ) in
      let numbered = append-AllNumbered t.snd.unacked t.snd.unsent old new in
      if-Gives (IsRexmitted t) (null_queue t.snd.unacked) _ _
        (λ e. absurd (ground (arith, e, some_left)))
        λ _.
          Gives-mono _ (IsRexmitted t) _
            (tcp_output-IsSent tcp_ticks memory false v up v_sending numbered)
            λ u (now, same, out). (
              (
                now,
                (omega (arith, same, next, few), omega (arith, same, tries)),
                (same.2, same.4, same.3),
                HasOutput-AllNumbered memory false v u out numbered,
              ),
              same.0 ∙ next,
              (v, ((refl, refl, refl, refl, next, refl), out)),
            )

  -- A probe changes nothing of the sender.
  abbrev IsProbing : ℕ → Tcb → Tcb × List (ℕ × Bool) → Type 0
  IsProbing rtime t r =
      IsTicked memory rtime t (record { tcb = r.0; rtime = rtime; remove = false; probes = r.1 })

  tcp_zero_window_probe-IsProbing :
      (rtime : ℕ) (seg : Option Segment) (t u : Tcb)
      → ((p : List (ℕ × Bool)) → IsProbing rtime t (u, p))
      → ((p : List (ℕ × Bool)) (n : ℕ)
          → IsProbing rtime t (record u { rcv = record u.rcv { rcv_ann_right_edge = n } }, p))
      → IsProbing rtime t (tcp_zero_window_probe tcp_ticks false memory seg u)
  unfolding tcp_zero_window_probe
  tcp_zero_window_probe-IsProbing rtime none t u h k = h []
  tcp_zero_window_probe-IsProbing rtime (some seg) t u h k =
      either {A = Tcb × List (ℕ × Bool)} (IsProbing rtime t) memory _ _ (λ _. k _ _) λ _. h []

  persist-IsTicked :
      (rtime : ℕ) (t : Tcb)
      → IsInOrder t t
      → (GaveUp t → ⊥)
      → 0 < t.snd.persist_backoff
      → Gives (IsTicked memory rtime t) (persist tcp_ticks false memory rtime t)
  unfolding persist
  persist-IsTicked rtime t (sending, tries, same, numbered) left probing =
      >>=-Gives (λ b. Unit {0}) (IsTicked memory rtime t)
        (get_elem? tcp_persist_backoff (t.snd.persist_backoff - 1)) _
        (read_inside tcp_persist_backoff (t.snd.persist_backoff - 1)
          (omega (arith, tries, probing)))
        λ due m.
          let next =
            if ltb t.snd.persist_backoff 7
            then t.snd.persist_backoff + 1
            else t.snd.persist_backoff in
          let bound : next ≤ 7 = ground (arith, tries) in
          let u : Tcb = record t {
            snd = record t.snd { persist_cnt = 0; persist_backoff = next };
          } in
          either {A = Tcb × List (ℕ × Bool)} (IsProbing rtime t)
            (ltb (u8 (t.snd.persist_cnt + 1)) due) _ _
            (λ _. (
              (sending, tries, same, numbered),
              inr (refl, left, inl (refl, refl, refl, refl, inl (probing, refl))),
            ))
            λ _.
              tcp_zero_window_probe-IsProbing rtime (probed t.snd.unacked t.snd.unsent) t u
                (λ p. (
                  (sending, (tries.0, bound), same, numbered),
                  inr (refl, left, inl (refl, refl, refl, refl, inl (probing, refl))),
                ))
                λ p n. (
                  (sending, (tries.0, bound), same, numbered),
                  inr (refl, left, inl (refl, refl, refl, refl, inl (probing, refl))),
                )

  pub retransmission_timer-IsTicked :
      (rtime : ℕ) (t : Tcb)
      → listening t.rcv.state ≡ false
      → HasClock rtime t
      → IsSending t.snd
      → AllNumbered t.snd.unacked
      → AllNumbered t.snd.unsent
      → IsTrying t
      → Gives (IsTicked memory rtime t) (retransmission_timer tcp_ticks false memory rtime t)
  unfolding retransmission_timer
  retransmission_timer-IsTicked rtime t up clock sending old new tries =
      let P = IsTicked memory rtime t in
      let ordered : IsInOrder t t = (sending, tries, (refl, refl, refl), new) in
      if-Gives P
        ((is_syn_sent t.rcv.state && t.snd.nrtx == tcp_synmaxrtx) || t.snd.nrtx == tcp_maxrtx) _ _
        (λ e. (ordered, inl (refl, refl, GaveUp-used_up t e)))
        λ left.
          if-Gives P (ltb 0 t.snd.persist_backoff) _ _
            (λ probing.
              persist-IsTicked rtime t ordered (GaveUp-left t left) (ground (arith, probing)))
            λ idle.
              let stopped : t.snd.persist_backoff ≡ 0 = ground (arith, idle) in
              if-Gives P (not (null_queue t.snd.unacked) && signed_geq (ticked rtime) t.snd.rto) _ _
                (λ h.
                  let due =
                    both (null_queue t.snd.unacked) (signed_geq (ticked rtime) t.snd.rto) h in
                  >>=-Gives (λ b. Unit {0}) P (next_rto t) _
                    (next_rto-read t (omega (arith, tries)))
                    λ rto m.
                      >>=-Gives (IsRexmitted t) P
                        (tcp_rexmit_rto tcp_ticks false memory (backed_off rto t)) _
                        (tcp_rexmit_rto-IsAgain rto t up sending old new
                          (tries_left (is_syn_sent t.rcv.state) t.snd.nrtx left tries.0) tries.1
                          due.0)
                        λ u (good, more, again). (
                          good,
                          inr (
                            refl,
                            GaveUp-left t left,
                            inr (
                              stopped,
                              null_queue-some t.snd.unacked due.0,
                              geq-due rtime t.snd.rto clock.0 clock.1 due.1,
                              refl,
                              refl,
                              more,
                              again,
                            ),
                          ),
                        ))
                λ h. (
                  ordered,
                  inr (
                    refl,
                    GaveUp-left t left,
                    inl (
                      refl,
                      refl,
                      refl,
                      refl,
                      inr (stopped, still_waits rtime t clock h, ticked-IsNext rtime clock.1, refl),
                    ),
                  ),
                )
