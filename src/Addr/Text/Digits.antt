-- ===== src/Addr/Text/Digits.antt =====
-- The digits of a byte are read back as the byte.
use qladder.Prelude.{
  ℕ, zero, suc, ◌+◌, ◌*◌, ◌/◌, ◌%◌, ◌≤◌, ◌<◌, ◌≡◌, ◌⊎◌, inl, inr, refl, ap, ◌∙◌, List, [], ◌∷◌, ltb,
  if◌then◌else◌, ◌++◌, some, true, false, ◌==◌, length, arith, Bool-cases,
}
use qladder.Addr.Text.{char_at, isdigit, number_start, digit_step, number_loop, number, inv_loop}

-- A decimal digit in base 10.
digit_step_lem : (val d : ℕ) → d < 10 → val < 256 → digit_step 10 val (48 + d) ≡ some (val * 10 + d)
unfolding digit_step
digit_step_lem val d h k =
    let yes : isdigit (48 + d) ≡ true = ground arith in rw yes (ap some (omega arith))

-- A text that no number goes on into: it is over, or begins with a dot.
abbrev pub IsStop : List ℕ → Type 0
IsStop s = (s ≡ []) ⊎ ((r : List ℕ) × (s ≡ 46 ∷ r))

stop_loop : (val : ℕ) (s : List ℕ) → IsStop s → number_loop 10 val s ≡ (val, s)
unfolding number_loop digit_step
stop_loop val s (inl e) = rw e refl
stop_loop val s (inr (r, e)) = rw e refl

go :
    (val d : ℕ) (s : List ℕ)
    → d < 10
    → val < 256
    → number_loop 10 val ((48 + d) ∷ s) ≡ number_loop 10 (val * 10 + d) s
unfolding number_loop
go val d s h k = rw (digit_step_lem val d h k, number_loop) refl

-- A first digit that is not 0 announces base 10.
ten : (d : ℕ) (s : List ℕ) → 0 < d → number_start ((48 + d) ∷ s) ≡ (10, (48 + d) ∷ s)
unfolding number_start
ten d s h = let no : (48 + d == 48) ≡ false = ground arith in rw no refl

abbrev Reads : ℕ → Type 0
Reads b = (s : List ℕ) → IsStop s → number (inv_loop 3 b [] ++ s) ≡ (b, s)

Reads-zero : Reads 0
unfolding number number_start inv_loop number_loop digit_step
Reads-zero s (inl e) = rw e refl
Reads-zero s (inr (r, e)) = rw e refl

Reads-one : (b : ℕ) → 0 < b → b < 10 → Reads b
unfolding number inv_loop
Reads-one b h k s stop =
    let a : (b / 10 == 0) ≡ true = ground arith in
    let m : b % 10 ≡ b = omega arith in
    rw (a, m)
      (rw (ten b s h)
        (go 0 b s k (omega arith) ∙ stop_loop (0 * 10 + b) s stop ∙ ap (λ x. (x, s)) (omega arith)))

Reads-two : (b : ℕ) → 10 ≤ b → b < 100 → Reads b
unfolding number inv_loop
Reads-two b h k s stop =
    let a : (b / 10 == 0) ≡ false = ground arith in
    let a' : (b / 10 / 10 == 0) ≡ true = ground arith in
    let m : b / 10 % 10 ≡ b / 10 = omega arith in
    rw (a, a', m)
      (rw (ten (b / 10) ((48 + b % 10) ∷ s) (omega arith)) (
        go 0 (b / 10) ((48 + b % 10) ∷ s) (omega arith) (omega arith)
        ∙ go (0 * 10 + b / 10) (b % 10) s (omega arith) (omega arith)
        ∙ stop_loop _ s stop
        ∙ ap (λ x. (x, s)) (omega arith)))

Reads-three : (b : ℕ) → 100 ≤ b → b < 256 → Reads b
unfolding number inv_loop
Reads-three b h k s stop =
    let a : (b / 10 == 0) ≡ false = ground arith in
    let a' : (b / 10 / 10 == 0) ≡ false = ground arith in
    let a'' : (b / 10 / 10 / 10 == 0) ≡ true = ground arith in
    let m : b / 10 / 10 % 10 ≡ b / 10 / 10 = omega arith in
    rw (a, a', a'', m)
      (rw (ten (b / 10 / 10) ((48 + b / 10 % 10) ∷ (48 + b % 10) ∷ s) (omega arith)) (
        go 0 (b / 10 / 10) ((48 + b / 10 % 10) ∷ (48 + b % 10) ∷ s) (omega arith) (omega arith)
        ∙ go (0 * 10 + b / 10 / 10) (b / 10 % 10) ((48 + b % 10) ∷ s) (omega arith) (omega arith)
        ∙ go ((0 * 10 + b / 10 / 10) * 10 + b / 10 % 10) (b % 10) s (omega arith) (omega arith)
        ∙ stop_loop _ s stop
        ∙ ap (λ x. (x, s)) (omega arith)))

pub number-inv_loop :
    (b : ℕ) → b < 256 → (s : List ℕ) → IsStop s → number (inv_loop 3 b [] ++ s) ≡ (b, s)
number-inv_loop zero h s stop = Reads-zero s stop
number-inv_loop (suc b) h s stop = elim (size (suc b)) [
  | inl one ↦ Reads-one (suc b) (omega arith) one s stop
  | inr (inl two) ↦ Reads-two (suc b) two.0 two.1 s stop
  | inr (inr three) ↦ Reads-three (suc b) three h s stop
]
  where
    size : (n : ℕ) → (n < 10) ⊎ ((10 ≤ n) × (n < 100)) ⊎ (100 ≤ n)
    size n = ground arith

-- The digits begin with one.
pub inv_loop-isdigit :
    (b : ℕ) (s : List ℕ) → b < 256 → isdigit (char_at (inv_loop 3 b [] ++ s)) ≡ true
unfolding inv_loop
inv_loop-isdigit b s h = elim (Bool-cases (b / 10 == 0)) [
  | inl one ↦ rw one (ground arith)
  | inr more ↦ elim (Bool-cases (b / 10 / 10 == 0)) [
    | inl two ↦ rw (more, two) (ground arith)
    | inr three ↦
        let last : (b / 10 / 10 / 10 == 0) ≡ true = ground arith in
        rw (more, three, last) (ground arith)
  ]
]

-- A byte has at most three digits.
pub inv_loop-length : (b : ℕ) → b < 256 → length (inv_loop 3 b []) ≤ 3
unfolding inv_loop
inv_loop-length b h = elim (Bool-cases (b / 10 == 0)) [
  | inl one ↦ rw one (omega arith)
  | inr more ↦ elim (Bool-cases (b / 10 / 10 == 0)) [
    | inl two ↦ rw (more, two) (omega arith)
    | inr three ↦
        let last : (b / 10 / 10 / 10 == 0) ≡ true = ground arith in
        rw (more, three, last) (omega arith)
  ]
]

-- The decimal number of a byte, in the characters of its digits.
abbrev pub decimal : ℕ → List ℕ
decimal b =
    if ltb b 10
    then (48 + b) ∷ []
    else if ltb b 100
    then (48 + b / 10) ∷ (48 + b % 10) ∷ []
    else (48 + b / 100) ∷ (48 + b / 10 % 10) ∷ (48 + b % 10) ∷ []

pub inv_loop-decimal : (b : ℕ) → b < 256 → inv_loop 3 b [] ≡ decimal b
unfolding inv_loop
inv_loop-decimal b h = elim (Bool-cases (b / 10 == 0)) [
  | inl one ↦
      let small : ltb b 10 ≡ true = ground arith in
      let digit : b % 10 ≡ b = omega (arith, ground_small b one) in rw (one, small, digit) refl
  | inr more ↦
      let large : ltb b 10 ≡ false = ground arith in
      elim (Bool-cases (b / 10 / 10 == 0)) [
        | inl two ↦
            let small : ltb b 100 ≡ true = ground arith in
            let below : b / 10 < 10 = ground arith in
            let digit : b / 10 % 10 ≡ b / 10 = omega arith in
            rw (more, two, large, small, digit) refl
        | inr three ↦
            let huge : ltb b 100 ≡ false = ground arith in
            let last : (b / 10 / 10 / 10 == 0) ≡ true = ground arith in
            let digit : b / 10 / 10 % 10 ≡ b / 100 = omega arith in
            rw (more, three, last, large, huge, digit) refl
      ]
]
  where
    ground_small : (n : ℕ) → (n / 10 == 0) ≡ true → n < 10
    ground_small n h = ground arith
