-- ===== src/Tcp/Timer/Slow.antt =====
-- A tick of the slow timer as a whole.
use qladder.Prelude.{
  ℕ, ◌+◌, ◌≤◌, ◌<◌, ◌≡◌, ◌⊎◌, refl, [], Bool, true, false, arith, sub32, ◌-◌, ◌*◌, ◌^◌, ◌%◌, either,
}
use qladder.Tcp.{State, fin_wait_2, syn_rcvd, last_ack}
use qladder.Tcp.Ack.Congestion.{IsSending}
use qladder.Tcp.Connection.{Tcb, alive, tcp_pcb_purge}
use qladder.Tcp.Output.Sends.{HasOutput}
use qladder.Tcp.Timer.{Ticked}
use qladder.Tcp.Timer.Retry.{GaveUp, HasTicked, IsTrying}

-- Nothing is left in a queue, and the retransmission timer is stopped.
abbrev pub IsFreed : Tcb → Type 0
IsFreed u =
    (u.snd.unacked ≡ [])
    × (u.snd.unsent ≡ [])
    × (u.rcv.ooseq ≡ [])
    × (u.refused_data ≡ [])
    × (u.snd.running ≡ false)

-- It has idled too long in a state that ends.
abbrev Late : State → Bool → ℕ → Type 0
Late st rxclosed idle =
    ((st ≡ fin_wait_2) × (rxclosed ≡ true) × (40 < idle))
    ⊎ (((st ≡ syn_rcvd) × (40 < idle)) ⊎ ((st ≡ last_ack) × (240 < idle)))

abbrev pub Overdue : ℕ → Tcb → Type 0
Overdue tcp_ticks t = Late t.rcv.state t.rxclosed (sub32 tcp_ticks t.tmr)

-- Segments out of sequence are dropped after six time-outs.
abbrev IsDropped : ℕ → Tcb → Tcb → Type 0
IsDropped tcp_ticks t u =
    (((2 ^ 15 ≤ t.snd.rto) ⊎ (t.snd.rto * 6 ≤ sub32 tcp_ticks t.tmr))
      × (u ≡ record t { rcv = record t.rcv { ooseq = [] } }))
    ⊎ (((2 ^ 15 ≤ t.snd.rto) ⊎ (sub32 tcp_ticks t.tmr < t.snd.rto * 6)) × (u ≡ t))

-- When the application is due to be polled, there is output.
abbrev IsPolled : Bool → ℕ → ℕ → Tcb → ℕ × Tcb → Type 0
IsPolled memory pollinterval polltmr t polled =
    ((pollinterval ≤ (polltmr + 1) % 256) × (polled.0 ≡ 0) × HasOutput memory false t polled.1)
    ⊎ (((polltmr + 1) % 256 < pollinterval) × (polled.0 ≡ (polltmr + 1) % 256) × (polled.1 ≡ t))

abbrev IsRemoved : ℕ → Tcb → Ticked → Type 0
IsRemoved tcp_ticks t r =
    (r.remove ≡ true) × IsFreed r.tcb × (r.rtime ≡ 2 ^ 16 - 1) × (GaveUp t ⊎ Overdue tcp_ticks t)

abbrev IsKept : ℕ → Bool → ℕ → ℕ → ℕ → Tcb → Ticked × ℕ → Type 0
IsKept tcp_ticks memory pollinterval polltmr rtime t r =
    (r.0.remove ≡ false)
    × (GaveUp t → ⊥)
    × (Overdue tcp_ticks t → ⊥)
    × IsSending r.0.tcb.snd
    × IsTrying r.0.tcb
    × (r.0.tcb.rcv.state ≡ t.rcv.state)
    × ((q : Ticked) × ((w : Tcb) × ((q.remove ≡ false)
            × HasTicked memory rtime t q
            × IsDropped tcp_ticks q.tcb w
            × IsPolled memory pollinterval polltmr w (r.1, r.0.tcb)
            × (r.0.rtime ≡ q.rtime)
            × (r.0.probes ≡ q.probes))))

-- The connection is removed and freed; or it stays, with what the retransmission timer has done, but
-- that the segments out of sequence may be dropped, and that the polling may send.
abbrev pub IsSlowed : ℕ → Bool → ℕ → ℕ → ℕ → Tcb → Ticked × ℕ → Type 0
IsSlowed tcp_ticks memory pollinterval polltmr rtime t r =
    IsRemoved tcp_ticks t r.0 ⊎ IsKept tcp_ticks memory pollinterval polltmr rtime t r

pub tcp_pcb_purge-IsFreed : (t : Tcb) → alive t.rcv.state ≡ true → IsFreed (tcp_pcb_purge t)
tcp_pcb_purge-IsFreed t up =
    either IsFreed (alive t.rcv.state) _ _ (λ _. (refl, refl, refl, refl, refl))
      λ down. absurd (ground (arith, up, down))
