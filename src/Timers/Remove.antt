-- ===== src/Timers/Remove.antt =====
-- `sys_untimeout` removes one entry and leaves the deadlines of the others; both operations keep
-- the deadlines within `u32_t`.
use qladder.Prelude.{ℕ, ◌+◌, ◌^◌, ◌<◌, ◌≡◌, refl, sym, subst, List, [], ◌∷◌, arith}
use qladder.Timers.{SysTimeo, sys_timeout, sys_untimeout}
use qladder.Timers.Deadlines.{Deadline, deadlines, schedule, cancel, Fits, Fits-base}
use qladder.Timers.Insert.{sys_timeout-deadlines}

-- On a list whose deadlines fit in `u32_t`, cancelling takes out the first entry with this handler
-- and argument and moves no other deadline.
pub sys_untimeout-deadlines :
    (base handler a : ℕ) (l : List SysTimeo)
    → Fits base l
    → deadlines base (sys_untimeout handler a l) ≡ cancel handler a (deadlines base l)
unfolding sys_untimeout
sys_untimeout-deadlines base handler a [] f = refl
sys_untimeout-deadlines base handler a (t ∷ []) f = ground arith
sys_untimeout-deadlines base handler a (t ∷ u ∷ r) f =
    ground (arith, Fits-base _ r f, sys_untimeout-deadlines (base + t.time) handler a (u ∷ r) f)

-- Every deadline is a `u32_t`.
abbrev pub Due : List Deadline → Type 0
Due [] = Unit {0}
Due (d ∷ r) = (d.due < 2 ^ 32) × Due r

Fits-Due : (base : ℕ) (l : List SysTimeo) → Fits base l → Due (deadlines base l)
Fits-Due base [] f = tt
Fits-Due base (t ∷ r) f = (Fits-base (base + t.time) r f, Fits-Due (base + t.time) r f)

Due-Fits : (base : ℕ) (l : List SysTimeo) → base < 2 ^ 32 → Due (deadlines base l) → Fits base l
Due-Fits base [] b d = b
Due-Fits base (t ∷ r) b d = Due-Fits (base + t.time) r d.0 d.1

schedule-Due : (e : Deadline) (l : List Deadline) → e.due < 2 ^ 32 → Due l → Due (schedule e l)
schedule-Due e [] b d = (b, tt)
schedule-Due e (x ∷ r) b d = ground (arith, schedule-Due e r b d.1)

cancel-Due : (handler a : ℕ) (l : List Deadline) → Due l → Due (cancel handler a l)
cancel-Due handler a [] d = tt
cancel-Due handler a (x ∷ r) d = ground (arith, cancel-Due handler a r d.1)

-- With memory at hand a new timeout, its delay a `u32_t`, keeps every deadline within `u32_t`.
pub sys_timeout-Fits :
    (msecs handler a : ℕ) (l : List SysTimeo)
    → msecs < 2 ^ 32
    → Fits 0 l
    → Fits 0 (sys_timeout msecs handler a l)
sys_timeout-Fits msecs handler a l h f = Due-Fits 0 _ (omega arith) (
    subst Due (sym (sys_timeout-deadlines msecs handler a l h f))
      (schedule-Due _ _ h (Fits-Due 0 l f)))

-- Cancelling keeps every deadline within `u32_t`.
pub sys_untimeout-Fits :
    (handler a : ℕ) (l : List SysTimeo) → Fits 0 l → Fits 0 (sys_untimeout handler a l)
sys_untimeout-Fits handler a l f = Due-Fits 0 _ (omega arith) (
    subst Due (sym (sys_untimeout-deadlines 0 handler a l f))
      (cancel-Due handler a _ (Fits-Due 0 l f)))
