-- ===== src/Tcp.antt =====
-- TCP connections: Carthage/Checkouts/tun2socks/lwip/src/core/tcp_in.c and the parts of tcp.c and tcp_out.c
-- that it calls. A failed LWIP_ASSERT calls abort (lwip/arch/cc.h): such a run is `none`.
pub mod Stream
pub mod Window
pub mod Queue
pub mod Receive
pub mod Run
pub mod Ack
pub mod Options
pub mod Connection
pub mod Process
pub mod Output
pub mod Timer
pub mod Close
use qladder.Prelude.{
  ℕ, ◌+◌, ◌-◌, ◌*◌, ◌/◌, ◌^◌, min, List, [], ◌∷◌, Option, none, some, ◌>>=◌, Bool, true, false,
  ◌&&◌, ◌||◌, not, ltb, leb, ◌==◌, if◌then◌else◌, u16, u32, sub16, sub32,
}
use qladder.Pbuf.{Pbuf}

-- enum tcp_state
pub data State : Type 0 where
  closed listen syn_sent syn_rcvd established fin_wait_1 fin_wait_2 close_wait closing last_ack
        time_wait :
      State

-- A segment: `struct tcp_seg` with the fields of its header that are read here. `len` counts the
-- bytes of `p` without the header.
pub record Segment : Type 0 where
  pub seqno : ℕ
  pub len : ℕ
  pub fin : Bool
  pub syn : Bool
  pub p : List Pbuf

-- TCP_TCPLEN, before it is cut to a width.
abbrev pub tcplen_of : Segment → ℕ
tcplen_of s = s.len + (if s.fin || s.syn then 1 else 0)

-- `struct tcp_pcb`. The bits of `flags` are Booleans; `rtime` is `none` for -1. `answers` is what
-- has been handed to `ip_output` without data: the sequence and acknowledgement numbers and the window.
pub record Pcb : Type 0 where
  pub state : State
  pub ack_delay : Bool
  pub ack_now : Bool
  pub mss : ℕ
  pub rcv_nxt : ℕ
  pub rcv_wnd : ℕ
  pub rcv_ann_wnd : ℕ
  pub rcv_ann_right_edge : ℕ
  pub snd_nxt : ℕ
  pub ooseq : List Segment
  pub answers : List (ℕ × ℕ × ℕ)

-- TCP_WND
abbrev pub tcp_wnd : ℕ
tcp_wnd = 0xffff

-- TCP_SEQ_LT and the others, on `u32_t`: the sign of the difference.
abbrev pub seq_lt : ℕ → ℕ → Bool
seq_lt a b = leb (2 ^ 31) (sub32 a b)

abbrev pub seq_geq : ℕ → ℕ → Bool
seq_geq a b = ltb (sub32 a b) (2 ^ 31)

abbrev pub seq_leq : ℕ → ℕ → Bool
seq_leq a b = sub32 a b == 0 || leb (2 ^ 31) (sub32 a b)

abbrev pub seq_gt : ℕ → ℕ → Bool
seq_gt a b = ltb 0 (sub32 a b) && ltb (sub32 a b) (2 ^ 31)

abbrev pub seq_between : ℕ → ℕ → ℕ → Bool
seq_between a b c = seq_geq a b && seq_leq a c

-- LWIP_ASSERT
abbrev pub asserting {ℓ} : {A : Type ℓ} → Bool → Option A → Option A
asserting true x = x
asserting false x = none

unfoldable pub tcp_ack_now : Pcb → Pcb
tcp_ack_now pcb = record pcb { ack_now = true }

unfoldable pub tcp_ack : Pcb → Pcb
tcp_ack pcb =
    if pcb.ack_delay
    then record pcb { ack_delay = false; ack_now = true }
    else record pcb { ack_delay = true }

-- The new window to announce, and how much the announced right edge can move.
unfoldable pub tcp_update_rcv_ann_wnd : Pcb → Option (Pcb × ℕ)
tcp_update_rcv_ann_wnd pcb =
    let new_right_edge = u32 (pcb.rcv_nxt + pcb.rcv_wnd) in
    let new_rcv_ann_wnd = sub32 pcb.rcv_ann_right_edge pcb.rcv_nxt in
    if seq_geq new_right_edge (u32 (pcb.rcv_ann_right_edge + min (tcp_wnd / 2) pcb.mss))
    then some
        (record pcb { rcv_ann_wnd = pcb.rcv_wnd }, sub32 new_right_edge pcb.rcv_ann_right_edge)
    else if seq_gt pcb.rcv_nxt pcb.rcv_ann_right_edge
    then some (record pcb { rcv_ann_wnd = 0 }, 0)
    else asserting (leb new_rcv_ann_wnd 0xffff)
        (some (record pcb { rcv_ann_wnd = u16 new_rcv_ann_wnd }, 0))

-- TCP_WND_UPDATE_THRESHOLD
abbrev pub tcp_wnd_update_threshold : ℕ
tcp_wnd_update_threshold = tcp_wnd / 4

-- `tcp_send_empty_ack`, with `tcp_output_alloc_header`; `memory` says whether there is a buffer.
unfoldable pub tcp_send_empty_ack : Bool → Pcb → Pcb
tcp_send_empty_ack memory pcb =
    if memory
    then record pcb {
      ack_delay = false;
      ack_now = false;
      rcv_ann_right_edge = u32 (pcb.rcv_nxt + pcb.rcv_ann_wnd);
      answers = (pcb.snd_nxt, pcb.rcv_nxt, pcb.rcv_ann_wnd) ∷ pcb.answers;
    }
    else pcb

abbrev pub listening : State → Bool
listening listen = true
listening s = false

-- `tcp_output` of a connection with no segment to send. `processing` says whether it is the one
-- whose input is being processed.
unfoldable pub tcp_output : Bool → Bool → Pcb → Option Pcb
tcp_output memory processing pcb =
    asserting (not (listening pcb.state))
      (some (if not processing && pcb.ack_now then tcp_send_empty_ack memory pcb else pcb))

-- The application has taken `len` bytes. The edge's move is compared as an `int`.
unfoldable pub tcp_recved : Bool → Bool → Pcb → ℕ → Option Pcb
tcp_recved memory processing pcb len =
    let rcv_wnd = u16 (pcb.rcv_wnd + len) in
    asserting (not (listening pcb.state)) (
      asserting (leb len (0xffff - pcb.rcv_wnd)) (
        tcp_update_rcv_ann_wnd
          (record pcb { rcv_wnd = if ltb tcp_wnd rcv_wnd then tcp_wnd else rcv_wnd })
        >>= λ r.
            if leb tcp_wnd_update_threshold r.1 && ltb r.1 (2 ^ 31)
            then tcp_output memory processing (tcp_ack_now r.0)
            else some r.0))
