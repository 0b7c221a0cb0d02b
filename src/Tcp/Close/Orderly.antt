-- ===== src/Tcp/Close/Orderly.antt =====
-- What `tcp_close` does to a connection that is not closed from this side yet.
use qladder.Prelude.{◌≡◌, ◌⊎◌, [], ◌∷◌, Bool, true, false}
use qladder.Tcp.{tcp_wnd, State, syn_rcvd, established, fin_wait_1, close_wait, last_ack, time_wait}
use qladder.Tcp.Ack.Congestion.{IsSending}
use qladder.Tcp.Connection.{Tcb, err_ok, err_other}
use qladder.Pbuf.{Pbuf}
use qladder.Tcp.Output.Sends.{HasOutput}
use qladder.Tcp.Close.{Closed}
use qladder.Tcp.Close.Fin.{NoRoom, EndsInFin}

-- The arcs of RFC 793's diagram for a CLOSE with a FIN.
pub data Closes : State → State → Type 0 where
  early : Closes syn_rcvd fin_wait_1
  active : Closes established fin_wait_1
  passive : Closes close_wait last_ack

-- The application has taken all data.
abbrev pub Taken : Tcb → Type 0
Taken t = (t.refused_data ≡ []) × (t.rcv.rcv_wnd ≡ tcp_wnd)

-- In SYN_RCVD no data is left behind.
abbrev NothingLeft : Tcb → Type 0
NothingLeft t = (t.rcv.state ≡ syn_rcvd) ⊎ Taken t

-- No memory, or no room: nothing has happened.
abbrev pub IsRefused : Bool → Tcb → Closed → Type 0
IsRefused memory t r =
    NothingLeft t
    × NoRoom memory t
    × (r.err ≡ err_other)
    × (r.freed ≡ false)
    × (r.resets ≡ [])
    × (r.tcb.snd ≡ t.snd)
    × (r.tcb.rcv ≡ t.rcv)
    × (r.tcb.sent ≡ t.sent)

-- A FIN is queued behind all that was to be sent, and what may go is sent.
abbrev pub IsOrderly : Bool → Bool → State → Tcb → Closed → Type 0
IsOrderly room processing next t r =
    NothingLeft t
    × (r.err ≡ err_ok)
    × (r.freed ≡ false)
    × (r.resets ≡ [])
    × (r.tcb.rcv.state ≡ next)
    × IsSending r.tcb.snd
    × ((v : Tcb) × (EndsInFin t v.snd.unsent
          × (v.snd.unacked ≡ t.snd.unacked)
          × (v.sent ≡ t.sent)
          × HasOutput room processing v r.tcb))

-- Data has not been taken: a reset goes to the peer, and nothing is left in the queues.
abbrev pub IsReset : Tcb → Closed → Type 0
IsReset t r =
    (Taken t → ⊥)
    × (r.err ≡ err_ok)
    × (r.resets ≡ (t.snd.snd_nxt, t.rcv.rcv_nxt) ∷ [])
    × (r.tcb.snd.unacked ≡ [])
    × (r.tcb.snd.unsent ≡ [])
    × (((t.rcv.state ≡ established) × (r.freed ≡ false) × (r.tcb.rcv.state ≡ time_wait))
        ⊎ ((t.rcv.state ≡ close_wait) × (r.freed ≡ true)))

-- `memory` is for a FIN, `room` for an acknowledgement alone.
abbrev pub IsClosing : Bool → Bool → Bool → State → Tcb → Closed → Type 0
IsClosing memory room processing next t r =
    IsRefused memory t r ⊎ (IsOrderly room processing next t r ⊎ IsReset t r)
