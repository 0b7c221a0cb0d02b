-- ===== src/Timers/Deadlines.antt =====
-- The list of Timers read as absolute deadlines: what its operations promise.
use qladder.Prelude.{ℕ, ◌+◌, ◌^◌, ◌<◌, ◌&&◌, List, [], ◌∷◌, ltb, ◌==◌, if◌then◌else◌, arith}
use qladder.Timers.{SysTimeo}

-- An entry with its deadline, counted from `timeouts_last_time`.
pub record Deadline : Type 0 where
  pub due : ℕ
  pub h : ℕ
  pub arg : ℕ

abbrev pub entry : ℕ → ℕ → ℕ → Deadline
entry d handler a = record { due = d; h = handler; arg = a }

abbrev pub deadlines : ℕ → List SysTimeo → List Deadline
deadlines base [] = []
deadlines base (t ∷ r) = entry (base + t.time) t.h t.arg ∷ deadlines (base + t.time) r

-- The last deadline fits in `u32_t`, so no sum of times wraps.
abbrev pub Fits : ℕ → List SysTimeo → Type 0
Fits base [] = base < 2 ^ 32
Fits base (t ∷ r) = Fits (base + t.time) r

-- A new entry goes behind all that are due no later than it.
abbrev pub schedule : Deadline → List Deadline → List Deadline
schedule e [] = e ∷ []
schedule e (d ∷ r) = if ltb e.due d.due then e ∷ d ∷ r else d ∷ schedule e r

abbrev pub cancel : ℕ → ℕ → List Deadline → List Deadline
cancel handler a [] = []
cancel handler a (d ∷ r) = if (d.h == handler) && (d.arg == a) then r else d ∷ cancel handler a r

pub Fits-base : (base : ℕ) (l : List SysTimeo) → Fits base l → base < 2 ^ 32
Fits-base base [] h = h
Fits-base base (t ∷ r) h = omega (arith, Fits-base (base + t.time) r h)
