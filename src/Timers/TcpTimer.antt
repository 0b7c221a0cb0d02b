-- ===== src/Timers/TcpTimer.antt =====
-- `tcpip_tcp_timer` and `tcp_timer_needed`: the one cyclic timer of the tunnel's build. `tcp_tmr` and
-- the test of the two pcb lists are code of tcp.c, taken as parameters.
pub mod Ends
use qladder.Prelude.{
  ℕ, zero, suc, ◌+◌, ◌-◌, ◌^◌, ◌≤◌, ◌<◌, ◌≡◌, refl, ap, subst, ◌∙◌, Bool, true, false, ◌&&◌, ◌||◌,
  not, List, [], ◌∷◌, some, ltb, leb, ◌==◌, if◌then◌else◌, sub32, arith, Bool-cases, inl, inr,
  leb→le,
}
use qladder.Timers.{SysTimeo, State, insert_loop, sys_timeout, check_loop, sys_check_timeouts}
use qladder.Timers.Insert.{sys_timeout-deadlines}
use qladder.Timers.Remove.{sys_timeout-Fits}
use qladder.Timers.Deadlines.{Deadline, entry, deadlines, schedule, Fits}

-- TCP_TMR_INTERVAL of lwip/tcp_impl.h, in milliseconds.
abbrev pub tcp_tmr_interval : ℕ
tcp_tmr_interval = 250

-- The address of `tcpip_tcp_timer`.
abbrev pub tcp_handler : ℕ
tcp_handler = 1

module _ {W : Type 0} (tcp_tmr : W → W) (has_pcbs : W → Bool) where
  pub tcpip_tcp_timer : State W → State W
  tcpip_tcp_timer s =
      let w = tcp_tmr s.world in
      if has_pcbs w
      then record s {
        next_timeout = sys_timeout tcp_tmr_interval tcp_handler 0 s.next_timeout;
        world = w;
      }
      else record s { tcpip_tcp_timer_active = false; world = w }

  pub tcp_timer_needed : State W → State W
  tcp_timer_needed s =
      if not s.tcpip_tcp_timer_active && has_pcbs s.world
      then record s {
        next_timeout = sys_timeout tcp_tmr_interval tcp_handler 0 s.next_timeout;
        tcpip_tcp_timer_active = true;
      }
      else s

  -- Calling through the pointer; any other handler is code outside this file.
  pub dispatch : (ℕ → ℕ → State W → State W) → ℕ → ℕ → State W → State W
  dispatch other h a s = if h == tcp_handler then tcpip_tcp_timer s else other h a s

-- How many timeouts of the TCP timer are in the list.
abbrev pub scheduled : List SysTimeo → ℕ
scheduled [] = 0
scheduled (t ∷ r) = if t.h == tcp_handler then suc (scheduled r) else scheduled r

-- The flag says exactly whether the timer is in the list, and it is there once at most.
abbrev pub Armed : {W : Type 0} → State W → Type 0
Armed s = scheduled s.next_timeout ≡ (if s.tcpip_tcp_timer_active then 1 else 0)

scheduled-insert :
    (time : ℕ) (t : SysTimeo) (r : List SysTimeo)
    → scheduled (insert_loop time tcp_handler 0 (t ∷ r)) ≡ suc (scheduled (t ∷ r))
unfolding insert_loop
scheduled-insert time t [] = ground arith
scheduled-insert time t (u ∷ r) = ground (arith, scheduled-insert (sub32 time t.time) u r)

scheduled-sys_timeout :
    (msecs : ℕ) (l : List SysTimeo)
    → scheduled (sys_timeout msecs tcp_handler 0 l) ≡ suc (scheduled l)
unfolding sys_timeout
scheduled-sys_timeout msecs [] = refl
scheduled-sys_timeout msecs (t ∷ r) = elim (Bool-cases (ltb msecs t.time)) [
  | inl e ↦ rw e (ground arith)
  | inr e ↦ rw e (scheduled-insert msecs t r)
]

-- How far the clock may still run past the deadlines: a bound on the rounds of one check.
abbrev pub weight : ℕ → List Deadline → ℕ
weight n [] = 0
weight n (d ∷ r) = suc n - d.due + weight n r

weight-schedule :
    (n : ℕ) (e : Deadline) (l : List Deadline)
    → weight n (schedule e l) ≡ suc n - e.due + weight n l
weight-schedule n e [] = refl
weight-schedule n e (d ∷ r) = ground (arith, weight-schedule n e r)

pub weight-rebase :
    (n m base b c : ℕ) (l : List SysTimeo)
    → m ≡ n + c
    → b ≡ base + c
    → weight m (deadlines b l) ≡ weight n (deadlines base l)
weight-rebase n m base b c [] e f = refl
weight-rebase n m base b c (t ∷ r) e f =
    omega (arith, weight-rebase n m (base + t.time) (b + t.time) c r e (omega arith))

pub Fits-mono : (b base : ℕ) (l : List SysTimeo) → b ≤ base → Fits base l → Fits b l
Fits-mono b base [] h f = omega arith
Fits-mono b base (t ∷ r) h f = Fits-mono (b + t.time) (base + t.time) r (omega arith) f

pub record IsSafe {W : Type 0} (s : State W) : Type 0 where
  pub armed : Armed s
  pub fits : Fits 0 s.next_timeout

-- What is asked of the other handlers: they keep the timer's flag right and the deadlines within
-- `u32_t`, and one call schedules at most one timeout, not at once.
pub record IsModest {W : Type 0} (other : ℕ → ℕ → State W → State W) : Type 0 where
  pub armed : (h a : ℕ) (s : State W) → Armed s → Armed (other h a s)
  pub fits : (h a : ℕ) (s : State W) → Fits 0 s.next_timeout → Fits 0 (other h a s).next_timeout
  pub light :
      (h a n : ℕ) (s : State W)
      → weight n (deadlines 0 (other h a s).next_timeout)
        ≤ weight n (deadlines 0 s.next_timeout) + n

module _ {W : Type 0} (tcp_tmr : W → W) (has_pcbs : W → Bool) where
  -- With memory at hand `tcp_timer_needed` keeps the flag equal to whether the timer is in the list,
  -- and afterwards the timer is active if it was or a pcb is registered.
  pub tcp_timer_needed-Armed :
      (s : State W)
      → Armed s
      → Armed (tcp_timer_needed tcp_tmr has_pcbs s)
        × ((tcp_timer_needed tcp_tmr has_pcbs s).tcpip_tcp_timer_active
            ≡ (s.tcpip_tcp_timer_active || has_pcbs s.world))
  unfolding tcp_timer_needed
  tcp_timer_needed-Armed s h = ground (arith, scheduled-sys_timeout tcp_tmr_interval s.next_timeout)

  pub timer-Armed :
      (s : State W)
      → scheduled s.next_timeout ≡ 0
      → s.tcpip_tcp_timer_active ≡ true
      → Armed (tcpip_tcp_timer tcp_tmr has_pcbs s)
  unfolding tcpip_tcp_timer
  timer-Armed s h a = ground (arith, scheduled-sys_timeout tcp_tmr_interval s.next_timeout)

  pub timer-weight :
      (n : ℕ) (s : State W)
      → Fits 0 s.next_timeout
      → weight n (deadlines 0 (tcpip_tcp_timer tcp_tmr has_pcbs s).next_timeout)
        ≤ weight n (deadlines 0 s.next_timeout) + n
  unfolding tcpip_tcp_timer
  timer-weight n s f = elim (Bool-cases (has_pcbs (tcp_tmr s.world))) [
    | inl e ↦ rw e (
        rw (sys_timeout-deadlines tcp_tmr_interval tcp_handler 0 s.next_timeout (omega arith) f) (
          omega (
            arith,
            weight-schedule n (entry tcp_tmr_interval tcp_handler 0) (deadlines 0 s.next_timeout),
          )))
    | inr e ↦ rw e (omega arith)
  ]

  pub timer-Fits :
      (s : State W)
      → Fits 0 s.next_timeout
      → Fits 0 (tcpip_tcp_timer tcp_tmr has_pcbs s).next_timeout
  unfolding tcpip_tcp_timer
  timer-Fits s f = elim (Bool-cases (has_pcbs (tcp_tmr s.world))) [
    | inl e ↦ rw e (sys_timeout-Fits tcp_tmr_interval tcp_handler 0 s.next_timeout (omega arith) f)
    | inr e ↦ rw e f
  ]
