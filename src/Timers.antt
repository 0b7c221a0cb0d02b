-- ===== src/Timers.antt =====
-- The timeout list of lwIP: Carthage/Checkouts/tun2socks/lwip/src/core/timers.c as the tunnel builds
-- it (NO_SYS 1, LWIP_TCP 1, every other cyclic timer switched off in lwipopts.h).
-- `next_timeout` is a singly linked list that no other code holds a pointer into, so it is a list
-- of its nodes. A node's `time` is relative to the node before it, as in the source.
pub mod Deadlines
pub mod Insert
pub mod Remove
pub mod Check
pub mod TcpTimer
use qladder.Prelude.{
  ℕ, zero, suc, ◌+◌, Bool, true, false, ◌&&◌, ◌||◌, not, List, [], ◌∷◌, Option, none, some, ltb,
  leb, ◌==◌, if◌then◌else◌, u32, sub32,
}

-- `struct sys_timeo`; a handler and its argument are known by their addresses, 0 for NULL.
pub record SysTimeo : Type 0 where
  pub time : ℕ
  pub h : ℕ
  pub arg : ℕ

abbrev pub node : ℕ → ℕ → ℕ → SysTimeo
node msecs handler a = record { time = msecs; h = handler; arg = a }

-- The `for` loop of `sys_timeout`, at the node `t`; `time` is `timeout->time` on entry.
unfoldable pub insert_loop : ℕ → ℕ → ℕ → List SysTimeo → List SysTimeo
insert_loop time handler a [] = []
insert_loop time handler a (t ∷ []) = t ∷ node (sub32 time t.time) handler a ∷ []
insert_loop time handler a (t ∷ u ∷ r) =
    let time' = sub32 time t.time in
    let rest = insert_loop time' handler a (u ∷ r) in
    if ltb time' u.time
    then t ∷ node time' handler a ∷ record u { time = sub32 u.time time' } ∷ r
    else t ∷ rest

-- `sys_timeout`, when `memp_malloc` returns memory; when it does not, the assertion of the function
-- aborts.
unfoldable pub sys_timeout : ℕ → ℕ → ℕ → List SysTimeo → List SysTimeo
unfolding insert_loop
sys_timeout msecs handler a [] = node msecs handler a ∷ []
sys_timeout msecs handler a (t ∷ r) =
    if ltb msecs t.time
    then node msecs handler a ∷ record t { time = sub32 t.time msecs } ∷ r
    else insert_loop msecs handler a (t ∷ r)

-- "If not the last one, add time of this one back to next".
unfoldable pub add_time : ℕ → List SysTimeo → List SysTimeo
add_time time [] = []
add_time time (u ∷ r) = record u { time = u32 (u.time + time) } ∷ r

unfoldable pub sys_untimeout : ℕ → ℕ → List SysTimeo → List SysTimeo
unfolding add_time
sys_untimeout handler a [] = []
sys_untimeout handler a (t ∷ r) =
    if (t.h == handler) && (t.arg == a) then add_time t.time r else t ∷ sys_untimeout handler a r

-- The variables of the file, and the rest of the stack's memory as `world`.
pub record State (W : Type 0) : Type 0 where
  pub next_timeout : List SysTimeo
  pub timeouts_last_time : ℕ
  pub tcpip_tcp_timer_active : Bool
  pub world : W

module _ {W : Type 0} (call : ℕ → ℕ → State W → State W) where
  -- The `do … while (had_one)` of `sys_check_timeouts`, without PBUF_CHECK_FREE_OOSEQ, which drops queued
  -- segments when the pool of buffers has run dry and touches no timeout. `none`: the fuel ran out.
  pub check_loop : ℕ → ℕ → ℕ → State W → Option (State W)
  check_loop zero now diff s = none
  check_loop (suc fuel) now diff s = elim s.next_timeout [
    | [] ↦ some s
    | t ∷ r ↦ elim (leb t.time diff) [
      | true ↦
          let popped = record s { next_timeout = r; timeouts_last_time = now } in
          check_loop fuel now (sub32 diff t.time)
            (if t.h == 0 then popped else call t.h t.arg popped)
      | false ↦ some s
    ]
  ]

  -- `now` is what `sys_now` returned.
  pub sys_check_timeouts : ℕ → ℕ → State W → Option (State W)
  sys_check_timeouts fuel now s = elim s.next_timeout [
    | [] ↦ some s
    | t ∷ r ↦ check_loop fuel now (sub32 now s.timeouts_last_time) s
  ]

pub sys_restart_timeouts : {W : Type 0} → ℕ → State W → State W
sys_restart_timeouts now s = record s { timeouts_last_time = now }
