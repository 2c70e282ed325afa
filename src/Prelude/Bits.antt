-- ===== src/Prelude/Bits.antt =====
-- `|` on numbers that share no binary digit.
use Prim.Native.Nat.{
  ℕ, zero, suc, ◌+◌, ◌*◌, ◌/◌, ◌%◌, ◌≤◌, ◌<◌, max, bit_or, digits, bit_or-bitwise,
}
use mathlib.Core.Path.{◌≡◌, refl}
use native.Mathlib.Omega.{arith}

-- The digit recursion behind `bit_or`, with any two amounts of fuel that suffice.
or_fuel : (n m a b : ℕ) → a ≤ n → a ≤ m → digits (λ b. b) max n a b ≡ digits (λ b. b) max m a b
or_fuel zero zero a b p q = refl
or_fuel zero (suc m) zero b p q = refl
or_fuel zero (suc m) (suc a) b p q = absurd (omega arith)
or_fuel (suc n) zero zero b p q = refl
or_fuel (suc n) zero (suc a) b p q = absurd (omega arith)
or_fuel (suc n) (suc m) zero b p q = refl
or_fuel (suc n) (suc m) (suc a) b p q =
    omega (arith, or_fuel n m (suc a / 2) (b / 2) (omega arith) (omega arith))

bit_or_digit : (a b : ℕ) → bit_or a b ≡ bit_or (a / 2) (b / 2) * 2 + max (a % 2) (b % 2)
bit_or_digit zero b = omega (arith, bit_or-bitwise 0 b, bit_or-bitwise 0 (b / 2))
bit_or_digit (suc a) b = omega (
  arith,
  bit_or-bitwise (suc a) b,
  bit_or-bitwise (suc a / 2) (b / 2),
  or_fuel a (suc a / 2) (suc a / 2) (b / 2) (omega arith) (omega arith),
)

bit_or-none : (n a : ℕ) → a ≤ n → bit_or a 0 ≡ a
bit_or-none zero a le = let e : a ≡ 0 = omega arith in rw e (omega (arith, bit_or-bitwise 0 0))
bit_or-none (suc n) a le = omega (arith, bit_or_digit a 0, bit_or-none n (a / 2) (omega arith))

-- Three digits below a multiple of 8.
pub bit_or-low : (a b : ℕ) → a % 8 ≡ 0 → b < 8 → bit_or a b ≡ a + b
bit_or-low a b e lt =
    let rest : bit_or (a / 2 / 2 / 2) (b / 2 / 2 / 2) ≡ a / 2 / 2 / 2 =
      let zero' : b / 2 / 2 / 2 ≡ 0 = omega arith in
      rw zero' (bit_or-none (a / 2 / 2 / 2) (a / 2 / 2 / 2) (omega arith)) in
    omega (
      arith,
      bit_or_digit a b,
      bit_or_digit (a / 2) (b / 2),
      bit_or_digit (a / 2 / 2) (b / 2 / 2),
      rest,
    )
