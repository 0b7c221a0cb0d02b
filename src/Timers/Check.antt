-- ===== src/Timers/Check.antt =====
-- `sys_check_timeouts`: which handlers it calls, and that it ends.
use qladder.Prelude.{
  ℕ, zero, suc, ◌+◌, ◌-◌, ◌^◌, ◌≤◌, ◌<◌, ◌≡◌, refl, sym, ap, ap₂, ◌∙◌, true, false, List, [], ◌∷◌,
  ◌++◌, map, some, leb, ◌==◌, if◌then◌else◌, sub32, arith, Bool-cases, inl, inr, leb→le, length,
  append_assoc, append-nil,
}
use qladder.Timers.{SysTimeo, State, check_loop, sys_check_timeouts}
use qladder.Timers.Deadlines.{Deadline, deadlines}

-- The entries due within `n` milliseconds.
abbrev pub due_by : ℕ → List Deadline → List Deadline
due_by n [] = []
due_by n (d ∷ r) = if leb d.due n then d ∷ due_by n r else due_by n r

-- The nodes that stay in the list, as they are.
abbrev pub pending : ℕ → List SysTimeo → List SysTimeo
pending diff [] = []
pending diff (t ∷ r) = if leb t.time diff then pending (diff - t.time) r else t ∷ r

-- The handlers called, in order; a NULL handler is not called.
abbrev pub calls : List Deadline → List (ℕ × ℕ)
calls [] = []
calls (d ∷ r) = if d.h == 0 then calls r else (d.h, d.arg) ∷ calls r

-- Handlers that only record their call.
abbrev pub record_call : ℕ → ℕ → State (List (ℕ × ℕ)) → State (List (ℕ × ℕ))
record_call h a s = record s { world = s.world ++ (h, a) ∷ [] }

due_by-past : (n base : ℕ) (l : List SysTimeo) → n < base → due_by n (deadlines base l) ≡ []
due_by-past n base [] h = refl
due_by-past n base (t ∷ r) h = ground (arith, due_by-past n (base + t.time) r)

leb-false : (a b : ℕ) → leb a b ≡ false → b < a
leb-false a b h = ground arith

abbrev Log : Type 0
Log = State (List (ℕ × ℕ))

-- One round of the loop, for a node that has expired.
abbrev fire : ℕ → SysTimeo → List SysTimeo → Log → Log
fire now t r s =
    let popped = record s { next_timeout = r; timeouts_last_time = now } in
    if t.h == 0 then popped else record_call t.h t.arg popped

abbrev drain : ℕ → ℕ → List SysTimeo → Log → Log
drain now diff [] s = s
drain now diff (t ∷ r) s =
    if leb t.time diff then drain now (diff - t.time) r (fire now t r s) else s

abbrev pub delay : ℕ → Deadline → Deadline
delay c d = record d { due = d.due + c }

deadlines-delay :
    (b base c : ℕ) (l : List SysTimeo)
    → b ≡ base + c
    → deadlines b l ≡ map (delay c) (deadlines base l)
deadlines-delay b base c [] e = refl
deadlines-delay b base c (t ∷ r) e =
    ap₂ ◌∷◌ (ground arith) (deadlines-delay (b + t.time) (base + t.time) c r (omega arith))

module _ (now : ℕ) where
  fire-next : (t : SysTimeo) (r : List SysTimeo) (s : Log) → (fire now t r s).next_timeout ≡ r
  fire-next t r s = ground arith

  loop-drain :
      (fuel diff : ℕ) (l : List SysTimeo) (s : Log)
      → s.next_timeout ≡ l
      → length l < fuel
      → diff < 2 ^ 32
      → check_loop record_call fuel now diff s ≡ some (drain now diff l s)
  unfolding check_loop
  loop-drain zero diff l s e h b = absurd (omega arith)
  loop-drain (suc fuel) diff [] s e h b = ground arith
  loop-drain (suc fuel) diff (t ∷ r) s e h b = elim (Bool-cases (leb t.time diff)) [
    | inl due ↦
        let exact : sub32 diff t.time ≡ diff - t.time =
          let p : t.time ≤ diff = leb→le t.time diff due in omega arith in
        let ih =
          loop-drain fuel (diff - t.time) r (fire now t r s) (fire-next t r s) (omega arith)
            (omega arith) in
        rw (e, check_loop) (rw (due, exact) ih)
    | inr later ↦ ground arith
  ]

  drain-next :
      (diff : ℕ) (l : List SysTimeo) (s : Log)
      → s.next_timeout ≡ l
      → (drain now diff l s).next_timeout ≡ pending diff l
  drain-next diff [] s e = e
  drain-next diff (t ∷ r) s e =
      ground (arith, drain-next (diff - t.time) r (fire now t r s) (fire-next t r s))

  fire-world :
      (t : SysTimeo) (r : List SysTimeo) (s : Log) (x : List Deadline)
      → (fire now t r s).world ++ calls x
        ≡ s.world ++ (if t.h == 0 then calls x else (t.h, t.arg) ∷ calls x)
  fire-world t r s x = elim (Bool-cases (t.h == 0)) [
    | inl null ↦ rw null refl
    | inr live ↦ rw live (append_assoc s.world ((t.h, t.arg) ∷ []) (calls x))
  ]

  drain-world :
      (n base diff : ℕ) (l : List SysTimeo) (s : Log)
      → n ≡ base + diff
      → (drain now diff l s).world ≡ s.world ++ calls (due_by n (deadlines base l))
  drain-world n base diff [] s e = sym (append-nil s.world)
  drain-world n base diff (t ∷ r) s e = elim (Bool-cases (leb t.time diff)) [
    | inl due ↦
        let p : t.time ≤ diff = leb→le t.time diff due in
        let now_due : leb (base + t.time) n ≡ true = ground arith in
        let ih = drain-world n (base + t.time) (diff - t.time) r (fire now t r s) (omega arith) in
        rw (due, now_due) (ih ∙ fire-world t r s (due_by n (deadlines (base + t.time) r)))
    | inr later ↦
        let p : diff < t.time = leb-false t.time diff later in
        let not_due : leb (base + t.time) n ≡ false = ground arith in
        rw (later, not_due, due_by-past n (base + t.time) r (omega arith))
          (sym (append-nil s.world))
  ]

  check-drain :
      (fuel : ℕ) (l : List SysTimeo) (s : Log)
      → s.next_timeout ≡ l
      → length l < fuel
      → sys_check_timeouts record_call fuel now s
        ≡ some (drain now (sub32 now s.timeouts_last_time) l s)
  unfolding sys_check_timeouts
  check-drain fuel [] s e h = ground arith
  check-drain fuel (t ∷ r) s e h =
      ground (arith, loop-drain fuel (sub32 now s.timeouts_last_time) (t ∷ r) s e h (omega arith))

  -- With handlers that only record their call, one check calls exactly the handlers whose deadlines have passed, none twice, in the order of
  -- the deadlines, and leaves the other nodes; fuel for every node is enough for it to end.
  pub sys_check_timeouts_fires :
      (fuel : ℕ) (s : Log)
      → length s.next_timeout < fuel
      → let elapsed = sub32 now s.timeouts_last_time in
        (s' : Log) × (sys_check_timeouts record_call fuel now s ≡ some s')
        × (s'.world ≡ s.world ++ calls (due_by elapsed (deadlines 0 s.next_timeout)))
        × (s'.next_timeout ≡ pending elapsed s.next_timeout)
  sys_check_timeouts_fires fuel s h =
      let elapsed : ℕ = sub32 now s.timeouts_last_time in
      (
        drain now elapsed s.next_timeout s,
        check-drain fuel s.next_timeout s refl h,
        drain-world elapsed 0 elapsed s.next_timeout s (omega arith),
        drain-next elapsed s.next_timeout s refl,
      )

  -- The next timer is late: with `t` the one node that has expired and handlers that only record
  -- their call, each later deadline moves back
  -- by the time that had passed since `t` was due. (`elapsed` is what the check read off the clock,
  -- and the new deadlines are counted from where the old ones were.)
  pub sys_check_timeouts_drift :
      (fuel : ℕ) (s : Log) (t u : SysTimeo) (r : List SysTimeo)
      → let elapsed = sub32 now s.timeouts_last_time in
        s.next_timeout ≡ t ∷ u ∷ r
        → 2 + length r < fuel
        → t.time ≤ elapsed
        → elapsed < t.time + u.time
        → (s' : Log) × (sys_check_timeouts record_call fuel now s ≡ some s')
          × (s'.timeouts_last_time ≡ now)
          × (s'.next_timeout ≡ u ∷ r)
          × (deadlines elapsed s'.next_timeout
              ≡ map (delay (elapsed - t.time)) (deadlines t.time (u ∷ r)))
  sys_check_timeouts_drift fuel s t u r e h due wait =
      let elapsed : ℕ = sub32 now s.timeouts_last_time in
      let first : leb t.time elapsed ≡ true = ground arith in
      let second : leb u.time (elapsed - t.time) ≡ false = ground arith in
      let keep : drain now elapsed (t ∷ u ∷ r) s ≡ fire now t (u ∷ r) s =
        rw first (rw second refl) in
      (
        fire now t (u ∷ r) s,
        check-drain fuel (t ∷ u ∷ r) s e (omega arith) ∙ ap some keep,
        ground arith,
        fire-next t (u ∷ r) s,
        ap (deadlines elapsed) (fire-next t (u ∷ r) s)
            ∙ deadlines-delay elapsed t.time (elapsed - t.time) (u ∷ r) (omega arith),
      )
