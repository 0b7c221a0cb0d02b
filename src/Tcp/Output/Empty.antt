-- ===== src/Tcp/Output/Empty.antt =====
-- With nothing to send, `tcp_output` is what the receiving half of a connection takes it for.
use qladder.Prelude.{ℕ, ◌≡◌, inl, inr, refl, [], Option, some, ◌>>=◌, Bool, true, false, Bool-cases}
use qladder.Tcp.{Segment, Pcb, asserting, listening, tcp_send_empty_ack}
use qladder.Tcp.Connection.{Tcb}
use qladder.Tcp.Output.{output_loop, tcp_output}
use qladder.Tcp

-- The receiving half of the result.
abbrev received : Option Tcb → Option Pcb
received x = x >>= λ u. some u.rcv

-- `tcp_output` of a connection with no unsent segment does to its receiving half what `tcp_output` of that
-- half alone does, whichever acknowledgements are due.
tcp_output-unsent :
    (tcp_ticks : ℕ) (no_route memory processing : Bool) (t : Tcb)
    → t.snd.unsent ≡ []
    → received (tcp_output tcp_ticks no_route memory processing t)
      ≡ Tcp.tcp_output memory processing t.rcv
unfolding tcp_output output_loop Tcp.tcp_output
tcp_output-unsent tcp_ticks no_route memory true t e = elim (Bool-cases (listening t.rcv.state)) [
  | inl l ↦ rw l refl
  | inr l ↦ rw l refl
]
tcp_output-unsent tcp_ticks no_route memory false t e = elim (Bool-cases (listening t.rcv.state)) [
  | inl l ↦ rw l refl
  | inr l ↦ elim (Bool-cases t.rcv.ack_now) [
    | inl now ↦ rw (l, e, now) refl
    | inr later ↦ rw (l, e, later) refl
  ]
]
