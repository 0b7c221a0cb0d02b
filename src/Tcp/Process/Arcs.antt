-- ===== src/Tcp/Process/Arcs.antt =====
-- The states of a connection and the arcs between them, and the settling of a segment.
use qladder.Prelude.{
  ◌≡◌, ◌⊎◌, inl, inr, refl, sym, subst, Bool, true, false, ◌&&◌, ◌==◌, Bool-cases, arith,
}
use qladder.Tcp.{
  State, closed, listen, syn_sent, syn_rcvd, established, fin_wait_1, fin_wait_2, close_wait,
  closing, last_ack, time_wait,
}
use qladder.Tcp.Connection.{Tcb, ack_now, alive, enter_time_wait}
use qladder.Tcp.Process.{Arrival, Processed, settle}

-- In the state a segment that is taken in changes nothing: no FIN and no acknowledgement that it waits
-- for has come.
abbrev pub Waits : Bool → Bool → State → Type 0
Waits fin all established = fin ≡ false
Waits fin all fin_wait_1 = (fin ≡ false) × (all ≡ false)
Waits fin all fin_wait_2 = fin ≡ false
Waits fin all closing = all ≡ false
Waits fin all s = Unit {0}

-- From one state to another for a segment: `fin` says that the peer's FIN is in sequence, and `all` that
-- all that was sent is acknowledged. Those from SYN_RCVD are by the acknowledgement of the SYN.
pub data Moves (a : Arrival) (fin all : Bool) : State → State → Type 0 where
  stays :
      (s : State) → (a.rst ≡ true) ⊎ ((a.inseg.syn ≡ true) ⊎ Waits fin all s) → Moves a fin all s s
  connects : a.ack ≡ true → a.inseg.syn ≡ true → Moves a fin all syn_sent established
  accepts : a.ack ≡ true → Moves a fin all syn_rcvd established
  accepts_last : a.ack ≡ true → fin ≡ true → Moves a fin all syn_rcvd close_wait
  closes : fin ≡ true → Moves a fin all established close_wait
  is_acked : all ≡ true → fin ≡ false → Moves a fin all fin_wait_1 fin_wait_2
  crosses : fin ≡ true → all ≡ false → Moves a fin all fin_wait_1 closing
  ends_both : fin ≡ true → all ≡ true → Moves a fin all fin_wait_1 time_wait
  ends_peer : fin ≡ true → Moves a fin all fin_wait_2 time_wait
  ends_own : all ≡ true → Moves a fin all closing time_wait

-- What the segment acknowledges is read off the connection as it is left.
abbrev pub HasMoved : Arrival → State → Processed → Type 0
HasMoved a st r = Moves a r.got_fin (a.ack && a.ackno == r.tcb.snd.snd_nxt) st r.tcb.rcv.state

-- `tcp_receive` has left it in the state it had, or taken it on with a FIN out of the queue.
abbrev pub IsReceivedIn : State → Bool → Tcb → Type 0
IsReceivedIn st fin t =
    (t.rcv.state ≡ st) ⊎ ((st ≡ established) × (t.rcv.state ≡ close_wait) × (fin ≡ true))

pub unmoved : (st : State) (t : Tcb) → IsReceivedIn st false t → t.rcv.state ≡ st
unmoved st t h = elim h [ inl e ↦ e | inr k ↦ absurd (ground (arith, k.2)) ]

pub elsewhere :
    (st : State) (fin : Bool) (t : Tcb)
    → (st ≡ established → ⊥)
    → IsReceivedIn st fin t
    → t.rcv.state ≡ st
elsewhere st fin t other h = elim h [ inl e ↦ e | inr k ↦ absurd (other k.0) ]

pub stays_at :
    (a : Arrival) (fin all : Bool) (st s : State) → s ≡ st → Waits fin all st → Moves a fin all st s
stays_at a fin all st s e h = subst (Moves a fin all st) (sym e) (stays st (inr (inr h)))

-- The move that `settle` makes.
pub settle-Moves :
    (a : Arrival) (st : State) (all fin : Bool) (t : Tcb)
    → IsReceivedIn st fin t
    → Moves a fin all st (settle st all fin t).rcv.state
settle-Moves a established all true t h = closes refl
settle-Moves a established all false t h =
    stays_at a false all established t.rcv.state (unmoved established t h) refl
settle-Moves a close_wait all true t h = stays close_wait (inr (inr tt))
settle-Moves a close_wait all false t h =
    stays_at a false all close_wait t.rcv.state (unmoved close_wait t h) tt
settle-Moves a fin_wait_1 true true t h = ends_both refl refl
settle-Moves a fin_wait_1 false true t h = crosses refl refl
settle-Moves a fin_wait_1 true false t h = is_acked refl refl
settle-Moves a fin_wait_1 false false t h =
    stays_at a false false fin_wait_1 t.rcv.state (unmoved fin_wait_1 t h) (refl, refl)
settle-Moves a fin_wait_2 all true t h = ends_peer refl
settle-Moves a fin_wait_2 all false t h =
    stays_at a false all fin_wait_2 t.rcv.state (unmoved fin_wait_2 t h) refl
settle-Moves a closing true fin t h = ends_own refl
settle-Moves a closing false fin t h =
    stays_at a fin false closing t.rcv.state (elsewhere closing fin t (λ e. ground arith) h) refl
settle-Moves a closed all fin t h =
    stays_at a fin all closed t.rcv.state (elsewhere closed fin t (λ e. ground arith) h) tt
settle-Moves a listen all fin t h =
    stays_at a fin all listen t.rcv.state (elsewhere listen fin t (λ e. ground arith) h) tt
settle-Moves a syn_sent all fin t h =
    stays_at a fin all syn_sent t.rcv.state (elsewhere syn_sent fin t (λ e. ground arith) h) tt
settle-Moves a syn_rcvd all fin t h =
    stays_at a fin all syn_rcvd t.rcv.state (elsewhere syn_rcvd fin t (λ e. ground arith) h) tt
settle-Moves a last_ack all fin t h =
    stays_at a fin all last_ack t.rcv.state (elsewhere last_ack fin t (λ e. ground arith) h) tt
settle-Moves a time_wait all fin t h =
    stays_at a fin all time_wait t.rcv.state (elsewhere time_wait fin t (λ e. ground arith) h) tt

enter_time_wait-snd_nxt : (t : Tcb) → (enter_time_wait t).snd.snd_nxt ≡ t.snd.snd_nxt
enter_time_wait-snd_nxt t = elim (Bool-cases (alive t.rcv.state)) [
  | inl e ↦ rw e refl
  | inr e ↦ rw e refl
]

pub settle-snd_nxt :
    (st : State) (all fin : Bool) (t : Tcb) → (settle st all fin t).snd.snd_nxt ≡ t.snd.snd_nxt
settle-snd_nxt established all true t = refl
settle-snd_nxt established all false t = refl
settle-snd_nxt close_wait all true t = refl
settle-snd_nxt close_wait all false t = refl
settle-snd_nxt fin_wait_1 true true t = enter_time_wait-snd_nxt (ack_now t)
settle-snd_nxt fin_wait_1 false true t = refl
settle-snd_nxt fin_wait_1 true false t = refl
settle-snd_nxt fin_wait_1 false false t = refl
settle-snd_nxt fin_wait_2 all true t = enter_time_wait-snd_nxt (ack_now t)
settle-snd_nxt fin_wait_2 all false t = refl
settle-snd_nxt closing true fin t = enter_time_wait-snd_nxt t
settle-snd_nxt closing false fin t = refl
settle-snd_nxt closed all fin t = refl
settle-snd_nxt listen all fin t = refl
settle-snd_nxt syn_sent all fin t = refl
settle-snd_nxt syn_rcvd all fin t = refl
settle-snd_nxt last_ack all fin t = refl
settle-snd_nxt time_wait all fin t = refl
