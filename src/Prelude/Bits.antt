-- ===== src/Prelude/Bits.antt =====
-- Joining a high and a low field with `|`.
use Prim.Native.Nat.{
  ℕ, zero, suc, ◌+◌, ◌*◌, ◌/◌, ◌%◌, ◌^◌, ◌≤◌, ◌<◌, max, digits, bit_or, bit_or-bitwise,
}
use mathlib.Core.Path.{◌≡◌, refl}
use native.Mathlib.Omega.{arith}

abbrev or_digits : ℕ → ℕ → ℕ → ℕ
or_digits n a b = digits (λ b. b) max n a b

enough_digits : (n m a : ℕ) → a ≤ n → a ≤ m → (b : ℕ) → or_digits n a b ≡ or_digits m a b
enough_digits zero zero a h k b = refl
enough_digits zero (suc m) zero h k b = refl
enough_digits zero (suc m) (suc a) h k b = absurd (omega arith)
enough_digits (suc n) zero zero h k b = refl
enough_digits (suc n) zero (suc a) h k b = absurd (omega arith)
enough_digits (suc n) (suc m) zero h k b = refl
enough_digits (suc n) (suc m) (suc a) h k b =
    omega (arith, enough_digits n m (suc a / 2) (omega arith) (omega arith) (b / 2))

-- The lowest digit of a disjunction.
or_lowest : (a b : ℕ) → bit_or a b ≡ bit_or (a / 2) (b / 2) * 2 + max (a % 2) (b % 2)
or_lowest zero b = omega (arith, bit_or-bitwise 0 b, bit_or-bitwise 0 (b / 2))
or_lowest (suc a) b = omega (
  arith,
  bit_or-bitwise (suc a) b,
  bit_or-bitwise (suc a / 2) (b / 2),
  enough_digits a (suc a / 2) (suc a / 2) (omega arith) (omega arith) (b / 2),
)

or_nothing : (n a : ℕ) → a ≤ n → bit_or a 0 ≡ a
or_nothing n zero h = omega (arith, bit_or-bitwise 0 0)
or_nothing zero (suc a) h = absurd (omega arith)
or_nothing (suc n) (suc a) h =
    omega (arith, or_lowest (suc a) 0, or_nothing n (suc a / 2) (omega arith))

pub bit_or_low : (k a x : ℕ) → x < 2 ^ k → bit_or (a * 2 ^ k) x ≡ a * 2 ^ k + x
bit_or_low zero a x h = ground (arith, or_nothing a a (omega arith))
bit_or_low (suc k) a x h =
    ground
      (arith, or_lowest (a * 2 ^ suc k) x, halved a (2 ^ k), bit_or_low k a (x / 2) (omega arith))
  where
    halved : (a p : ℕ) → (a * (2 * p) / 2 ≡ a * p) × (a * (2 * p) % 2 ≡ 0)
    halved a p = (grind arith, grind arith)
