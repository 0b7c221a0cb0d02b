-- ===== src/Addr/Mask.antt =====
-- The byte order is turned back by turning it again, and the test for netmasks finds those of ones
-- and then zeros.
use qladder.Prelude.{
  ℕ, zero, suc, ◌+◌, ◌*◌, ◌/◌, ◌%◌, ◌^◌, ◌≤◌, ◌<◌, ◌≡◌, ◌↔◌, refl, ap, ◌∙◌, true, false, ◌==◌,
  Bool-cases, ◌⊎◌, inl, inr, arith,
}
use native.Mathlib.Nat.{add-mul-mod_self_left, mod-eq_of_lt, mod-add-div, mod-lt}
use qladder.Addr.{lwip_htonl, bit, zeros_loop, ones_loop, ip4_addr_netmask_valid}

-- Turning the byte order of a number of 32 bits twice gives the number.
pub lwip_htonl-lwip_htonl : (n : ℕ) → n < 2 ^ 32 → lwip_htonl (lwip_htonl n) ≡ n
unfolding lwip_htonl
lwip_htonl-lwip_htonl n h = omega arith

pub lwip_htonl_lt : (n : ℕ) → lwip_htonl n < 2 ^ 32
unfolding lwip_htonl
lwip_htonl_lt n = omega arith

pow_pos : (i : ℕ) → 0 < 2 ^ i
pow_pos zero = omega arith
pow_pos (suc i) = omega (arith, pow_pos i)

-- A remainder by `2 * p` from the quotient and the remainder by `p`.
doubled : (n p b : ℕ) → 0 < p → n / p % 2 ≡ b → n % (2 * p) ≡ b * p + n % p
doubled n p b pos e =
    let q : ℕ = n / p / 2 in
    let half : n / p ≡ 2 * q + b = omega arith in
    let parts : n ≡ b * p + n % p + 2 * p * q =
      omega (arith, mod-add-div n p, ap (λ x. p * x) half, expand p q b) in
    let r : n % p < p = mod-lt n pos in
    let bound : b * p + n % p < 2 * p = elim (two (n / p) b e) [
      | inl z ↦ rw z (omega (arith, r))
      | inr o ↦ rw o (omega (arith, r))
    ] in
    ap (λ x. x % (2 * p)) parts
    ∙ add-mul-mod_self_left (b * p + n % p) (2 * p) q
    ∙ mod-eq_of_lt bound
  where
    expand : (p q b : ℕ) → p * (2 * q + b) ≡ b * p + 2 * p * q
    expand p q b = grind arith

    two : (m c : ℕ) → m % 2 ≡ c → (c ≡ 0) ⊎ (c ≡ 1)
    two m c h = ground arith

off_bit : (nm i : ℕ) → (bit nm i == 0) ≡ true → nm % 2 ^ suc i ≡ nm % 2 ^ i
off_bit nm i h =
    let d = doubled nm (2 ^ i) 0 (pow_pos i) (ground arith) in
    let e : 2 ^ suc i ≡ 2 * 2 ^ i = omega arith in rw e (omega (arith, d))

on_bit : (nm i : ℕ) → (bit nm i == 0) ≡ false → nm % 2 ^ suc i ≡ 2 ^ i + nm % 2 ^ i
on_bit nm i h =
    let d = doubled nm (2 ^ i) 1 (pow_pos i) (ground arith) in
    let e : 2 ^ suc i ≡ 2 * 2 ^ i = omega arith in rw e (omega (arith, d))

zeros_loop_lem : (nm i : ℕ) → zeros_loop nm i ≡ true ↔ nm % 2 ^ i ≡ 0
unfolding zeros_loop
zeros_loop_lem nm zero = (λ h. omega arith, λ h. refl)
zeros_loop_lem nm (suc i) = elim (Bool-cases (bit nm i == 0)) [
  | inl off ↦ rw off (rw (off_bit nm i off) (zeros_loop_lem nm i))
  | inr on ↦
      rw on (λ h. absurd (ground arith), λ h. absurd (omega (arith, on_bit nm i on, pow_pos i)))
]

-- The lowest `i` bits are ones down to bit `k`, and then zeros.
abbrev OnesThenZeros : ℕ → ℕ → Type 0
OnesThenZeros nm i = (k : ℕ) × (k ≤ i) × (nm % 2 ^ i + 2 ^ k ≡ 2 ^ i)

power_le : (k i : ℕ) → k ≤ i → 2 ^ k ≤ 2 ^ i
power_le k zero h = ground arith
power_le k (suc i) h = elim (le_cases k i h) [
  | inl less ↦ omega (arith, power_le k i less)
  | inr same ↦ rw same (omega arith)
]
  where
    le_cases : (k i : ℕ) → k ≤ suc i → (k ≤ i) ⊎ (k ≡ suc i)
    le_cases k i h = ground arith

-- Below `2 ^ i`, only 0 can be such a number of one bit more.
only_top : (n i : ℕ) → ((k : ℕ) × (k ≤ suc i) × (n + 2 ^ k ≡ 2 ^ suc i)) → n < 2 ^ i → n ≡ 0
only_top n i (k, le, e) h = elim (Bool-cases (k == suc i)) [
  | inl top ↦ let t : k ≡ suc i = ground arith in omega (arith, rw t at e)
  | inr low ↦ absurd (omega (arith, e, h, power_le k i (ground arith)))
]

below :
    (n m i : ℕ)
    → ((k : ℕ) × (k ≤ suc i) × (n + 2 ^ k ≡ 2 ^ suc i))
    → n ≡ 2 ^ i + m
    → m < 2 ^ i
    → (k : ℕ) × (k ≤ i) × (m + 2 ^ k ≡ 2 ^ i)
below n m i (k, le, e) split h = elim (Bool-cases (k == suc i)) [
  | inl top ↦
      let t : k ≡ suc i = ground arith in absurd (omega (arith, rw t at e, split, pow_pos i))
  | inr low ↦ (k, ground arith, omega (arith, e, split))
]

ones_loop_lem : (nm i : ℕ) → ones_loop nm i ≡ true ↔ OnesThenZeros nm i
unfolding ones_loop
ones_loop_lem nm zero = (λ h. (0, omega arith, omega arith), λ h. refl)
ones_loop_lem nm (suc i) = elim (Bool-cases (bit nm i == 0)) [
  | inl off ↦ rw off (
    λ h. (suc i, omega arith, omega (arith, (zeros_loop_lem nm (suc i)).0 h)),
    λ h.
        (zeros_loop_lem nm (suc i)).1
          (only_top (nm % 2 ^ suc i) i h (rw (off_bit nm i off) (mod-lt nm (pow_pos i)))),
  )
  | inr on ↦ rw on (
    (λ h.
        let (k, le, e) = (ones_loop_lem nm i).0 h in
        (k, omega arith, omega (arith, e, on_bit nm i on))),
    λ h.
        (ones_loop_lem nm i).1
          (below (nm % 2 ^ suc i) (nm % 2 ^ i) i h (on_bit nm i on) (mod-lt nm (pow_pos i))),
  )
]

-- A netmask of 32 bits is valid just if, in host byte order, it is some ones and then only zeros:
-- 2 ^ 32 less a power of two up to 2 ^ 32.
pub ip4_addr_netmask_valid_lem :
    (netmask : ℕ)
    → ip4_addr_netmask_valid netmask ≡ true
      ↔ ((k : ℕ) × (k ≤ 32) × (lwip_htonl netmask + 2 ^ k ≡ 2 ^ 32))
unfolding ip4_addr_netmask_valid
ip4_addr_netmask_valid_lem netmask =
    let small : lwip_htonl netmask % 2 ^ 32 ≡ lwip_htonl netmask =
      omega (arith, lwip_htonl_lt netmask) in
    rw small at (ones_loop_lem (lwip_htonl netmask) 32)
