-- ===== src/Common/Bits.antt =====
-- `&` and `|` of a number and a mask of one bit, by arithmetic.
use Prim.Native.Nat.{
  ℕ, zero, suc, ◌+◌, ◌-◌, ◌*◌, ◌/◌, ◌%◌, ◌≤◌, min, max, bit_and, bit_or, digits, bit_and-bitwise,
  bit_or-bitwise,
}
use mathlib.Core.Path.{◌≡◌, refl, ◌∙◌}
use native.Mathlib.Omega.{arith}

-- Induction on a count of digits that is enough for a number.
counted :
    (P : ℕ → ℕ → Type 0)
    → ((n : ℕ) → P n zero)
    → ((n : ℕ) → ((a : ℕ) → a ≤ n → P n a) → (a : ℕ) → a ≤ n → P (suc n) (suc a))
    → (n a : ℕ) → a ≤ n
    → P n a
counted P start more n zero h = start n
counted P start more zero (suc a) h = absurd (omega arith)
counted P start more (suc n) (suc a) h = more n (counted P start more n) a (omega arith)

digits-zero : (z : ℕ → ℕ) (f : ℕ → ℕ → ℕ) (mask n : ℕ) → digits z f n zero mask ≡ z mask
digits-zero z f mask zero = refl
digits-zero z f mask (suc n) = refl

-- The digits of `a & mask` and of `a | mask`, for a count that is enough for `a`.
abbrev Both : ℕ → (ℕ → ℕ) → Type 0
Both mask r = (n a : ℕ) → a ≤ n → digits (λ _. 0) min n a mask ≡ r a

abbrev Either : ℕ → (ℕ → ℕ) → Type 0
Either mask r = (n a : ℕ) → a ≤ n → digits (λ b. b) max n a mask ≡ r a

Both-none : Both 0 (λ _. 0)
Both-none =
    counted _ (digits-zero (λ _. 0) min 0)
      (λ n ih a h. omega (arith, ih (suc a / 2) (omega (arith, h))))

Both-one : Both 1 (λ a. a % 2)
Both-one =
    counted _ (digits-zero (λ _. 0) min 1)
      (λ n ih a h. omega (arith, Both-none n (suc a / 2) (omega (arith, h))))

Both-two : Both 2 (λ a. a / 2 % 2 * 2)
Both-two =
    counted _ (digits-zero (λ _. 0) min 2)
      (λ n ih a h. omega (arith, Both-one n (suc a / 2) (omega (arith, h))))

Both-four : Both 4 (λ a. a / 4 % 2 * 4)
Both-four =
    counted _ (digits-zero (λ _. 0) min 4)
      (λ n ih a h. omega (arith, Both-two n (suc a / 2) (omega (arith, h))))

Both-eight : Both 8 (λ a. a / 8 % 2 * 8)
Both-eight =
    counted _ (digits-zero (λ _. 0) min 8)
      (λ n ih a h. omega (arith, Both-four n (suc a / 2) (omega (arith, h))))

Either-none : Either 0 (λ a. a)
Either-none =
    counted _ (digits-zero (λ b. b) max 0)
      (λ n ih a h. omega (arith, ih (suc a / 2) (omega (arith, h))))

Either-one : Either 1 (λ a. a + (1 - a % 2))
Either-one =
    counted _ (digits-zero (λ b. b) max 1)
      (λ n ih a h. omega (arith, Either-none n (suc a / 2) (omega (arith, h))))

Either-two : Either 2 (λ a. a + (1 - a / 2 % 2) * 2)
Either-two =
    counted _ (digits-zero (λ b. b) max 2)
      (λ n ih a h. omega (arith, Either-one n (suc a / 2) (omega (arith, h))))

Either-four : Either 4 (λ a. a + (1 - a / 4 % 2) * 4)
Either-four =
    counted _ (digits-zero (λ b. b) max 4)
      (λ n ih a h. omega (arith, Either-two n (suc a / 2) (omega (arith, h))))

Either-eight : Either 8 (λ a. a + (1 - a / 8 % 2) * 8)
Either-eight =
    counted _ (digits-zero (λ b. b) max 8)
      (λ n ih a h. omega (arith, Either-four n (suc a / 2) (omega (arith, h))))

-- A mask of one bit reads that bit, and `|` with it sets the bit.
pub bit_and-one : (a : ℕ) → bit_and a 1 ≡ a % 2
bit_and-one a = bit_and-bitwise a 1 ∙ Both-one a a (omega arith)

pub bit_and_two : (a : ℕ) → bit_and a 2 ≡ a / 2 % 2 * 2
bit_and_two a = bit_and-bitwise a 2 ∙ Both-two a a (omega arith)

pub bit_and_four : (a : ℕ) → bit_and a 4 ≡ a / 4 % 2 * 4
bit_and_four a = bit_and-bitwise a 4 ∙ Both-four a a (omega arith)

pub bit_and_eight : (a : ℕ) → bit_and a 8 ≡ a / 8 % 2 * 8
bit_and_eight a = bit_and-bitwise a 8 ∙ Both-eight a a (omega arith)

pub bit_or-one : (a : ℕ) → bit_or a 1 ≡ a + (1 - a % 2)
bit_or-one a = bit_or-bitwise a 1 ∙ Either-one a a (omega arith)

pub bit_or_two : (a : ℕ) → bit_or a 2 ≡ a + (1 - a / 2 % 2) * 2
bit_or_two a = bit_or-bitwise a 2 ∙ Either-two a a (omega arith)

pub bit_or_four : (a : ℕ) → bit_or a 4 ≡ a + (1 - a / 4 % 2) * 4
bit_or_four a = bit_or-bitwise a 4 ∙ Either-four a a (omega arith)

pub bit_or_eight : (a : ℕ) → bit_or a 8 ≡ a + (1 - a / 8 % 2) * 8
bit_or_eight a = bit_or-bitwise a 8 ∙ Either-eight a a (omega arith)
