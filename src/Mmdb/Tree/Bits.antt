-- ===== src/Mmdb/Tree/Bits.antt =====
-- The bits of an address that the lookup tests, as the digits of its bytes in base two.
use Prim.Native.Nat.{digits, bit_and-bitwise}
use qladder.Prelude.{
  ℕ, zero, suc, ◌+◌, ◌-◌, ◌*◌, ◌/◌, ◌%◌, ◌^◌, ◌≤◌, ◌<◌, ◌≡◌, ◌⊎◌, inl, inr, refl, sym, ap, ◌∙◌,
  List, [], ◌∷◌, not, ◌==◌, min, bit_and, get_or, length, arith,
}
use qladder.Mmdb.{ok, fault, at}
use qladder.Mmdb.Tree.{address_bit}

abbrev with_fuel : ℕ → ℕ → ℕ → ℕ
with_fuel n a b = digits (λ x. 0) min n a b

with_fuel-suc : (n a b : ℕ) → a ≤ n → with_fuel (suc n) a b ≡ with_fuel n a b
with_fuel-suc zero zero b h = refl
with_fuel-suc zero (suc a) b h = absurd (omega arith)
with_fuel-suc (suc n) zero b h = refl
with_fuel-suc (suc n) (suc a) b h = omega (arith, with_fuel-suc n (suc a / 2) (b / 2) (omega arith))

with_fuel_more : (d n a b : ℕ) → n ≡ d + a → with_fuel n a b ≡ with_fuel a a b
with_fuel_more zero n a b e = ap (λ m. with_fuel m a b) (omega (arith, e))
with_fuel_more (suc d) n a b e =
    let next : n ≡ suc (d + a) = omega (arith, e) in
    ap (λ m. with_fuel m a b) next
    ∙ with_fuel-suc (d + a) a b (omega arith)
    ∙ with_fuel_more d (d + a) a b refl

-- The lowest digit apart.
halved : (a b : ℕ) → bit_and a b ≡ bit_and (a / 2) (b / 2) * 2 + min (a % 2) (b % 2)
halved zero b = omega (arith, bit_and-bitwise 0 b, bit_and-bitwise 0 (b / 2))
halved (suc a) b =
    let enough : a ≡ a - suc a / 2 + suc a / 2 = omega arith in
    let same : with_fuel a (suc a / 2) (b / 2) ≡ with_fuel (suc a / 2) (suc a / 2) (b / 2) =
      with_fuel_more (a - suc a / 2) a (suc a / 2) (b / 2) enough in
    omega (arith, bit_and-bitwise (suc a) b, bit_and-bitwise (suc a / 2) (b / 2), same)

none_within : (n a : ℕ) → a ≤ n → bit_and a 0 ≡ 0
none_within n zero h = refl
none_within zero (suc a) h = absurd (omega arith)
none_within (suc n) (suc a) h =
    omega (arith, halved (suc a) 0, none_within n (suc a / 2) (omega arith))

bit_1 : (a : ℕ) → bit_and a 1 ≡ a % 2
bit_1 a = omega (arith, halved a 1, none_within (a / 2) (a / 2) (omega arith))

bit_2 : (a : ℕ) → bit_and a 2 ≡ a / 2 % 2 * 2
bit_2 a = omega (arith, halved a 2, bit_1 (a / 2))

bit_4 : (a : ℕ) → bit_and a 4 ≡ a / 4 % 2 * 4
bit_4 a = omega (arith, halved a 4, bit_2 (a / 2))

bit_8 : (a : ℕ) → bit_and a 8 ≡ a / 8 % 2 * 8
bit_8 a = omega (arith, halved a 8, bit_4 (a / 2))

bit_16 : (a : ℕ) → bit_and a 16 ≡ a / 16 % 2 * 16
bit_16 a = omega (arith, halved a 16, bit_8 (a / 2))

bit_32 : (a : ℕ) → bit_and a 32 ≡ a / 32 % 2 * 32
bit_32 a = omega (arith, halved a 32, bit_16 (a / 2))

bit_64 : (a : ℕ) → bit_and a 64 ≡ a / 64 % 2 * 64
bit_64 a = omega (arith, halved a 64, bit_32 (a / 2))

bit_128 : (a : ℕ) → bit_and a 128 ≡ a / 128 % 2 * 128
bit_128 a = omega (arith, halved a 128, bit_64 (a / 2))

abbrev Tests : ℕ → ℕ → Type 0
Tests a k = not (bit_and a (2 ^ k) == 0) ≡ (a / 2 ^ k % 2 == 1)

-- A power of two tests a digit.
tested : (a k : ℕ) → k < 8 → Tests a k
tested a zero h = ground (arith, bit_1 a)
tested a (suc zero) h = ground (arith, bit_2 a)
tested a (suc (suc zero)) h = ground (arith, bit_4 a)
tested a (suc (suc (suc zero))) h = ground (arith, bit_8 a)
tested a (suc (suc (suc (suc zero)))) h = ground (arith, bit_16 a)
tested a (suc (suc (suc (suc (suc zero))))) h = ground (arith, bit_32 a)
tested a (suc (suc (suc (suc (suc (suc zero)))))) h = ground (arith, bit_64 a)
tested a (suc (suc (suc (suc (suc (suc (suc zero))))))) h = ground (arith, bit_128 a)
tested a (suc (suc (suc (suc (suc (suc (suc (suc k)))))))) h = absurd (omega arith)

element :
    (a : List ℕ) (k : ℕ)
    → ((at a k ≡ fault) × (length a ≤ k)) ⊎ ((at a k ≡ ok (get_or a k 0)) × (k < length a))
unfolding at
element [] k = inl (refl, omega arith)
element (x ∷ r) zero = inr (refl, omega arith)
element (x ∷ r) (suc k) = elim (element r k) [
  | inl (e, h) ↦ inl (e, omega arith)
  | inr (e, h) ↦ inr (e, omega arith)
]

-- Bit `i` of an address, the first being the highest of the first byte.
abbrev pub digit : List ℕ → ℕ → ℕ
digit a i = get_or a (i / 8) 0 / 2 ^ (7 - i % 8) % 2

-- Of the same length, and with the first `n` bits in common.
abbrev pub Agree : ℕ → List ℕ → List ℕ → Type 0
Agree n a b = (length a ≡ length b) × ((i : ℕ) → i < n → digit a i ≡ digit b i)

address_bit-digit :
    (a : List ℕ) (i : ℕ)
    → ((address_bit a i ≡ fault) × (length a ≤ i / 8))
      ⊎ ((address_bit a i ≡ ok (digit a i == 1)) × (i / 8 < length a))
unfolding address_bit
address_bit-digit a i = elim (element a (i / 8)) [
  | inl (e, h) ↦ inl (rw e refl, h)
  | inr (e, h) ↦ inr (rw e (ap ok (tested (get_or a (i / 8) 0) (7 - i % 8) (omega arith))), h)
]

pub Agree-address_bit :
    (n : ℕ) (a b : List ℕ) → Agree n a b → (i : ℕ) → i < n → address_bit a i ≡ address_bit b i
Agree-address_bit n a b (len, same) i h = elim (address_bit-digit a i) [
  | inl (e, over) ↦ elim (address_bit-digit b i) [
    | inl (f, also) ↦ e ∙ sym f
    | inr (f, within) ↦ absurd (omega (arith, len, over, within))
  ]
  | inr (e, within) ↦ elim (address_bit-digit b i) [
    | inl (f, over) ↦ absurd (omega (arith, len, over, within))
    | inr (f, also) ↦ e ∙ ap (λ d. ok (d == 1)) (same i h) ∙ sym f
  ]
]
