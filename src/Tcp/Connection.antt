-- ===== src/Tcp/Connection.antt =====
-- A connection as a whole, and what is done to it in several places: parts of tcp.c and tcp_in.c.
use qladder.Prelude.{
  ℕ, min, List, [], Option, none, some, Bool, true, false, ◌==◌, if◌then◌else◌, sub16,
}
use qladder.Pbuf.{Pbuf}
use qladder.Tcp.{State, closed, listen, syn_sent, syn_rcvd, last_ack, time_wait, Segment, Pcb}
use qladder.Tcp.Ack.{Sender}

-- `struct tcp_pcb` as a whole. `mss` and `snd_nxt` stand in both halves. `on_time_wait` says that it is
-- on the list of connections in TIME_WAIT and not on that of active ones; `rxclosed` and the others are
-- the bits of `flags` named so, `fin_queued` TF_FIN. `sent` is what has been handed to `ip_output` as
-- segments, the latest first, with the acknowledgement number and the window.
pub record Tcb : Type 0 where
  pub rcv : Pcb
  pub snd : Sender
  pub tmr : ℕ
  pub keep_cnt_sent : ℕ
  pub rxclosed : Bool
  pub refused_data : List Pbuf
  pub on_time_wait : Bool
  pub nodelay : Bool
  pub nagle_memerr : Bool
  pub fin_queued : Bool
  pub snd_lbb : ℕ
  pub sent : List (Segment × ℕ × ℕ)

-- `err_t`, as far as it is told apart; `err_other` stands for the rest.
pub data ErrT : Type 0 where
  err_ok err_abrt err_rst err_other : ErrT

abbrev pub set_state : State → Tcb → Tcb
set_state st t = record t { rcv = record t.rcv { state = st } }

abbrev pub ack_now : Tcb → Tcb
ack_now t = record t { rcv = record t.rcv { ack_now = true } }

abbrev pub set_mss : ℕ → Tcb → Tcb
set_mss mss t = record t { rcv = record t.rcv { mss = mss }; snd = record t.snd { mss = mss } }

abbrev pub alive : State → Bool
alive closed = false
alive listen = false
alive time_wait = false
alive s = true

-- The queues and what the application has refused are freed, and the timer stops: that `running` is
-- false stands for an `rtime` of -1.
abbrev pub tcp_pcb_purge : Tcb → Tcb
tcp_pcb_purge t =
    if alive t.rcv.state
    then record t {
      rcv = record t.rcv { ooseq = [] };
      snd = record t.snd { running = false; unsent = []; unacked = []; unsent_oversize = 0 };
      refused_data = [];
    }
    else t

abbrev pub enter_time_wait : Tcb → Tcb
enter_time_wait t = record (set_state time_wait (tcp_pcb_purge t)) { on_time_wait = true }

-- From ESTABLISHED on.
abbrev pub synchronized : State → Bool
synchronized closed = false
synchronized listen = false
synchronized syn_sent = false
synchronized syn_rcvd = false
synchronized s = true

abbrev pub is_syn_sent : State → Bool
is_syn_sent syn_sent = true
is_syn_sent s = false

abbrev pub handshaking : State → Bool
handshaking syn_sent = true
handshaking syn_rcvd = true
handshaking s = false

abbrev pub is_closed : State → Bool
is_closed closed = true
is_closed s = false

abbrev pub is_last_ack : State → Bool
is_last_ack last_ack = true
is_last_ack s = false

abbrev pub is_ok : ErrT → Bool
is_ok err_ok = true
is_ok e = false

abbrev pub is_abrt : ErrT → Bool
is_abrt err_abrt = true
is_abrt e = false

-- `tcp_eff_send_mss`: `mtu` is that of the interface that `ip_route` finds, 0 if none is set.
abbrev pub tcp_eff_send_mss : Option ℕ → ℕ → ℕ
tcp_eff_send_mss none mss = mss
tcp_eff_send_mss (some mtu) mss = if mtu == 0 then mss else min mss (sub16 mtu 40)
