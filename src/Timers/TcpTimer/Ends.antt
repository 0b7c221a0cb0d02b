-- ===== src/Timers/TcpTimer/Ends.antt =====
-- `sys_check_timeouts` with handlers that schedule timeouts again: it ends.
use qladder.Prelude.{
  ℕ, zero, suc, ◌+◌, ◌-◌, ◌^◌, ◌≤◌, ◌<◌, ◌≡◌, refl, ap, subst, ◌∙◌, Bool, true, List, [], ◌∷◌, some,
  leb, ◌==◌, if◌then◌else◌, sub32, arith, Bool-cases, inl, inr, leb→le,
}
use qladder.Timers.{SysTimeo, State, check_loop, sys_check_timeouts}
use qladder.Timers.Deadlines.{deadlines, Fits}
use qladder.Timers.TcpTimer.{
  tcp_handler, dispatch, scheduled, Armed, weight, IsSafe, IsModest, Fits-mono, weight-rebase,
  timer-Armed, timer-Fits, timer-weight,
}

module _ {W : Type 0} (tcp_tmr : W → W) (has_pcbs : W → Bool) (other : ℕ → ℕ → State W → State W)
    (modest : IsModest other) where
  abbrev called : ℕ → SysTimeo → List SysTimeo → State W → State W
  called now t r s =
      let popped = record s { next_timeout = r; timeouts_last_time = now } in
      if t.h == 0 then popped else dispatch tcp_tmr has_pcbs other t.h t.arg popped

  called-Armed :
      (now : ℕ) (t : SysTimeo) (r : List SysTimeo) (s : State W)
      → scheduled (t ∷ r) ≡ (if s.tcpip_tcp_timer_active then 1 else 0)
      → Armed (called now t r s)
  unfolding dispatch
  called-Armed now t r s e =
      let p = record s { next_timeout = r; timeouts_last_time = now } in
      elim (Bool-cases (t.h == 0)) [
        | inl null ↦ rw null (ground arith)
        | inr live ↦ elim (Bool-cases (t.h == tcp_handler)) [
          | inl tcp ↦ rw (live, tcp) (timer-Armed tcp_tmr has_pcbs p (ground arith) (ground arith))
          | inr no_tcp ↦ rw (live, no_tcp) (modest.armed t.h t.arg p (ground arith))
        ]
      ]

  called-Fits :
      (now : ℕ) (t : SysTimeo) (r : List SysTimeo) (s : State W)
      → Fits 0 r
      → Fits 0 (called now t r s).next_timeout
  unfolding dispatch
  called-Fits now t r s f =
      let p = record s { next_timeout = r; timeouts_last_time = now } in
      elim (Bool-cases (t.h == 0)) [
        | inl null ↦ rw null f
        | inr live ↦ elim (Bool-cases (t.h == tcp_handler)) [
          | inl tcp ↦ rw (live, tcp) (timer-Fits tcp_tmr has_pcbs p f)
          | inr no_tcp ↦ rw (live, no_tcp) (modest.fits t.h t.arg p f)
        ]
      ]

  called-weight :
      (now n : ℕ) (t : SysTimeo) (r : List SysTimeo) (s : State W)
      → Fits 0 r
      → weight n (deadlines 0 (called now t r s).next_timeout) ≤ weight n (deadlines 0 r) + n
  unfolding dispatch
  called-weight now n t r s f =
      let p = record s { next_timeout = r; timeouts_last_time = now } in
      elim (Bool-cases (t.h == 0)) [
        | inl null ↦ rw null (omega arith)
        | inr live ↦ elim (Bool-cases (t.h == tcp_handler)) [
          | inl tcp ↦ rw (live, tcp) (timer-weight tcp_tmr has_pcbs n p f)
          | inr no_tcp ↦ rw (live, no_tcp) (modest.light t.h t.arg n p)
        ]
      ]

  abbrev Ends : ℕ → ℕ → ℕ → State W → Type 0
  Ends fuel now diff s =
      (s' : State W) × (check_loop (dispatch tcp_tmr has_pcbs other) fuel now diff s ≡ some s')
      × IsSafe s'

  loop-suc :
      (fuel now diff : ℕ) (t : SysTimeo) (r : List SysTimeo) (s : State W)
      → s.next_timeout ≡ t ∷ r
      → leb t.time diff ≡ true
      → check_loop (dispatch tcp_tmr has_pcbs other) (suc fuel) now diff s
        ≡ check_loop
            (dispatch tcp_tmr has_pcbs other)
            fuel
            now
            (sub32 diff t.time)
            (called now t r s)
  unfolding check_loop
  loop-suc fuel now diff t r s e due = rw (e, check_loop) (rw due refl)

  rounds_end :
      (fuel now diff : ℕ) (l : List SysTimeo) (s : State W)
      → s.next_timeout ≡ l
      → IsSafe s
      → diff < 2 ^ 32
      → weight diff (deadlines 0 l) < fuel
      → Ends fuel now diff s
  rounds_end zero now diff l s e h b w = absurd (omega arith)
  rounds_end (suc fuel) now diff [] s e h b w = (s, unfold check_loop in ground arith, h)
  rounds_end (suc fuel) now diff (t ∷ r) s e h b w = elim (Bool-cases (leb t.time diff)) [
    | inl due ↦
        let p : t.time ≤ diff = leb→le t.time diff due in
        let exact : sub32 diff t.time ≡ diff - t.time = omega arith in
        let f : Fits (0 + t.time) r = subst (Fits 0) e h.fits in
        let f0 : Fits 0 r = Fits-mono 0 (0 + t.time) r (omega arith) f in
        let safe : IsSafe (called now t r s) = record {
          armed =
              called-Armed now t r s
                (subst (λ x. scheduled x ≡ (if s.tcpip_tcp_timer_active then 1 else 0)) e h.armed);
          fits = called-Fits now t r s f0;
        } in
        let less = called-weight now (diff - t.time) t r s f0 in
        let same =
          weight-rebase (diff - t.time) diff 0 (0 + t.time) t.time r (omega arith) (omega arith) in
        let ih =
          rounds_end fuel now (diff - t.time) (called now t r s).next_timeout (called now t r s)
            refl safe (omega arith) (omega (arith, less, same)) in
        (
          ih.0,
          loop-suc fuel now diff t r s e due
              ∙ ap (λ d. check_loop (dispatch tcp_tmr has_pcbs other) fuel now d (called now t r s))
                  exact
              ∙ ih.1,
          ih.2,
        )
    | inr later ↦ (s, unfold check_loop in ground arith, h)
  ]

  -- With memory at hand, a check of a list whose deadlines are within `u32_t` and which has the TCP
  -- timer scheduled exactly if its flag says so ends, however long the pause before it, within a
  -- number of rounds that the list and the pause bound; and these hold of the list that it leaves. The
  -- other handlers are such that each keeps the TCP timer and its flag in step and the deadlines
  -- within `u32_t`, and adds to this bound no more than one timeout that is not for at once does.
  pub sys_check_timeouts_ends :
      (fuel now : ℕ) (s : State W)
      → IsSafe s
      → weight (sub32 now s.timeouts_last_time) (deadlines 0 s.next_timeout) < fuel
      → (s' : State W) × (sys_check_timeouts (dispatch tcp_tmr has_pcbs other) fuel now s ≡ some s')
        × IsSafe s'
  sys_check_timeouts_ends fuel now s h w = check_list s.next_timeout refl
    where
      elapsed : ℕ
      elapsed = sub32 now s.timeouts_last_time

      check_list :
          (l : List SysTimeo)
          → s.next_timeout ≡ l
          → (s' : State W) × (sys_check_timeouts (dispatch tcp_tmr has_pcbs other) fuel now s
              ≡ some s')
            × IsSafe s'
      check_list [] e = (s, unfold sys_check_timeouts in ground arith, h)
      check_list (t ∷ r) e =
          let ends = rounds_end fuel now elapsed s.next_timeout s refl h (omega arith) w in
          (ends.0, unfold sys_check_timeouts in ground (arith, ends.1), ends.2)
