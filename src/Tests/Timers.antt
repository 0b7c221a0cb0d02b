-- ===== src/Tests/Timers.antt =====
-- A list with two timeouts, 10 and 25 milliseconds after the last check.
use qladder.Prelude.{ℕ, ◌≡◌, refl, List, [], ◌∷◌, Bool, true, false, some, arith}
use qladder.Timers.{
  SysTimeo, State, node, sys_timeout, sys_untimeout, insert_loop, add_time, sys_check_timeouts,
}
use qladder.Timers.Deadlines.{deadlines, entry, schedule, cancel}
use qladder.Timers.Insert.{sys_timeout-deadlines}
use qladder.Timers.Remove.{sys_untimeout-deadlines}
use qladder.Timers.Check.{record_call, sys_check_timeouts_fires, sys_check_timeouts_drift}
use qladder.Timers.TcpTimer.{
  Armed, IsSafe, IsModest, tcp_timer_needed, dispatch, tcp_timer_needed-Armed,
}
use qladder.Timers.TcpTimer.Ends.{sys_check_timeouts_ends}

abbrev two : List SysTimeo
two = node 10 7 1 ∷ node 15 8 2 ∷ []

abbrev idle : State (List (ℕ × ℕ))
idle = record {
  next_timeout = two;
  timeouts_last_time = 100;
  tcpip_tcp_timer_active = false;
  world = [];
}

insert_between : sys_timeout 12 9 3 two ≡ node 10 7 1 ∷ node 2 9 3 ∷ node 13 8 2 ∷ []
unfolding sys_timeout insert_loop
insert_between = refl

remove_first : sys_untimeout 7 1 two ≡ node 25 8 2 ∷ []
unfolding sys_untimeout add_time
remove_first = refl

sys_timeout-deadlines_example :
    deadlines 0 (sys_timeout 12 9 3 two) ≡ schedule (entry 12 9 3) (deadlines 0 two)
sys_timeout-deadlines_example = sys_timeout-deadlines 12 9 3 two (omega arith) (omega arith)

sys_untimeout-deadlines_example : deadlines 0 (sys_untimeout 7 1 two) ≡ cancel 7 1 (deadlines 0 two)
sys_untimeout-deadlines_example = sys_untimeout-deadlines 0 7 1 two (omega arith)

sys_check_timeouts_fires_example :
    (s' : State (List (ℕ × ℕ))) × (sys_check_timeouts record_call 3 112 idle ≡ some s')
    × (s'.world ≡ (7, 1) ∷ [])
    × (s'.next_timeout ≡ node 15 8 2 ∷ [])
sys_check_timeouts_fires_example = sys_check_timeouts_fires 112 3 idle (omega arith)

sys_check_timeouts_drift_example :
    (s' : State (List (ℕ × ℕ))) × (sys_check_timeouts record_call 3 112 idle ≡ some s')
    × (s'.timeouts_last_time ≡ 112)
    × (s'.next_timeout ≡ node 15 8 2 ∷ [])
    × (deadlines 12 s'.next_timeout ≡ entry 27 8 2 ∷ [])
sys_check_timeouts_drift_example =
    sys_check_timeouts_drift 112 3 idle (node 10 7 1) (node 15 8 2) [] refl (omega arith)
      (omega arith) (omega arith)

abbrev same_world : List (ℕ × ℕ) → List (ℕ × ℕ)
same_world w = w

abbrev some_pcb : List (ℕ × ℕ) → Bool
some_pcb w = true

abbrev do_nothing : ℕ → ℕ → State (List (ℕ × ℕ)) → State (List (ℕ × ℕ))
do_nothing h a s = s

do_nothing-IsModest : IsModest do_nothing
do_nothing-IsModest = record {
  armed = λ h a s e. e;
  fits = λ h a s e. e;
  light = λ h a n s. omega arith;
}

idle-IsSafe : IsSafe idle
idle-IsSafe = record { armed = refl; fits = omega arith }

tcp_timer_needed-Armed_example :
    Armed (tcp_timer_needed same_world some_pcb idle)
    × ((tcp_timer_needed same_world some_pcb idle).tcpip_tcp_timer_active ≡ true)
tcp_timer_needed-Armed_example = tcp_timer_needed-Armed same_world some_pcb idle refl

sys_check_timeouts_ends_example :
    (s' : State (List (ℕ × ℕ))) × (sys_check_timeouts
        (dispatch same_world some_pcb do_nothing)
        9
        112
        idle
      ≡ some s')
    × IsSafe s'
sys_check_timeouts_ends_example =
    sys_check_timeouts_ends same_world some_pcb do_nothing do_nothing-IsModest 9 112 idle
      idle-IsSafe (omega arith)
