-- ===== src/Timers/Insert.antt =====
-- `sys_timeout` refines the insertion into the sorted list of deadlines.
use qladder.Prelude.{
  ℕ, ◌+◌, ◌-◌, ◌^◌, ◌≤◌, ◌<◌, ◌≡◌, false, List, [], ◌∷◌, ltb, sub32, arith, Bool-cases, inl, inr,
  ltb→lt,
}
use qladder.Timers.{SysTimeo, insert_loop, sys_timeout}
use qladder.Timers.Deadlines.{entry, deadlines, schedule, Fits, Fits-base}

sub32_exact : (a b : ℕ) → a < 2 ^ 32 → b ≤ a → sub32 a b ≡ a - b
sub32_exact a b h k = omega arith

ltb-false : (a b : ℕ) → ltb a b ≡ false → b ≤ a
ltb-false a b h = ground arith

insert_loop-deadlines :
    (base time handler a : ℕ) (t : SysTimeo) (r : List SysTimeo)
    → time < 2 ^ 32
    → t.time ≤ time
    → Fits base (t ∷ r)
    → deadlines base (insert_loop time handler a (t ∷ r))
      ≡ schedule (entry (base + time) handler a) (deadlines base (t ∷ r))
unfolding insert_loop
insert_loop-deadlines base time handler a t [] h k f = ground (arith, sub32_exact time t.time h k)
insert_loop-deadlines base time handler a t (u ∷ r) h k f =
    let left = sub32 time t.time in
    let exact : left ≡ time - t.time = sub32_exact time t.time h k in
    elim (Bool-cases (ltb left u.time)) [
      | inl e ↦
          let within : left < u.time = ltb→lt left u.time e in
          let bound : base + t.time + u.time < 2 ^ 32 = Fits-base _ r f in
          rw e (ground (arith, exact, sub32_exact u.time left (omega arith) (omega arith)))
      | inr e ↦
          let beyond : u.time ≤ left = ltb-false left u.time e in
          rw e (
            ground (
              arith,
              exact,
              insert_loop-deadlines (base + t.time) left handler a u r (omega arith) beyond f,
            ))
    ]

-- The refinement: with memory at hand, and all deadlines in `u32_t`, `sys_timeout` inserts at the deadline `msecs` from
-- `timeouts_last_time`, behind the entries due no later, and every other entry keeps its deadline.
pub sys_timeout-deadlines :
    (msecs handler a : ℕ) (l : List SysTimeo)
    → msecs < 2 ^ 32
    → Fits 0 l
    → deadlines 0 (sys_timeout msecs handler a l) ≡ schedule (entry msecs handler a) (deadlines 0 l)
unfolding sys_timeout
sys_timeout-deadlines msecs handler a [] h f = ground arith
sys_timeout-deadlines msecs handler a (t ∷ r) h f = elim (Bool-cases (ltb msecs t.time)) [
  | inl e ↦
      let within : msecs < t.time = ltb→lt msecs t.time e in
      let bound : 0 + t.time < 2 ^ 32 = Fits-base _ r f in
      rw e (ground (arith, sub32_exact t.time msecs (omega arith) (omega arith)))
  | inr e ↦
      rw e
        (ground (arith, insert_loop-deadlines 0 msecs handler a t r h (ltb-false msecs t.time e) f))
]
