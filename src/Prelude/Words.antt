-- ===== src/Prelude/Words.antt =====
-- size_t and uintptr_t: 64-bit words as native numbers, and the mask `& ~(a - 1)` as arithmetic.
use Prim.Native.Nat.{
  ℕ, zero, suc, ◌+◌, ◌-◌, ◌*◌, ◌/◌, ◌%◌, ◌^◌, ◌≤◌, ◌<◌, min, bit_and, digits, bit_and-bitwise,
}
use mathlib.Core.Path.{◌≡◌, refl, ap, ◌∙◌}
use native.Mathlib.Nat.{
  pow-suc, pow-succ', div-div-eq-div-mul, one-le-pow, mul-mod_left, div-add-mod', mod-lt,
}
use native.Mathlib.Omega.{arith}

-- SIZE_MAX + 1.
abbrev pub word : ℕ
word = 2 ^ 64

-- `~x` on 64 bits.
abbrev pub complement : ℕ → ℕ
complement x = word - 1 - x

-- (value + alignment - 1) & ~(alignment - 1), with the wrap-around of the sum.
unfoldable pub align_up : ℕ → ℕ → ℕ
align_up value alignment =
    bit_and ((value + alignment + (word - 1)) % word) (complement ((alignment + (word - 1)) % word))

-- The digit recursion behind `bit_and`, with any two amounts of fuel that suffice.
and_fuel :
    (n m a b : ℕ) → a ≤ n → a ≤ m → digits (λ b. zero) min n a b ≡ digits (λ b. zero) min m a b
and_fuel zero zero a b p q = refl
and_fuel zero (suc m) zero b p q = refl
and_fuel zero (suc m) (suc a) b p q = absurd (omega arith)
and_fuel (suc n) zero zero b p q = refl
and_fuel (suc n) zero (suc a) b p q = absurd (omega arith)
and_fuel (suc n) (suc m) zero b p q = refl
and_fuel (suc n) (suc m) (suc a) b p q =
    omega (arith, and_fuel n m (suc a / 2) (b / 2) (omega arith) (omega arith))

bit_and_digit : (a b : ℕ) → bit_and a b ≡ bit_and (a / 2) (b / 2) * 2 + min (a % 2) (b % 2)
bit_and_digit zero b = omega (arith, bit_and-bitwise 0 b, bit_and-bitwise 0 (b / 2))
bit_and_digit (suc a) b = omega (
  arith,
  bit_and-bitwise (suc a) b,
  bit_and-bitwise (suc a / 2) (b / 2),
  and_fuel a (suc a / 2) (suc a / 2) (b / 2) (omega arith) (omega arith),
)

zero-bit_and : (b : ℕ) → bit_and 0 b ≡ 0
zero-bit_and b = omega (arith, bit_and-bitwise 0 b)

-- A mask of `m` ones keeps a number that fits `m` bits.
bit_and-ones : (m mask x : ℕ) → mask + 1 ≡ 2 ^ m → x ≤ mask → bit_and x mask ≡ x
bit_and-ones zero mask x e h = let e' : x ≡ 0 = omega arith in rw e' (zero-bit_and mask)
bit_and-ones (suc m) mask x e h = omega (
  arith,
  pow-suc 2 m,
  one-le-pow m 2,
  bit_and_digit x mask,
  bit_and-ones m (mask / 2) (x / 2) (omega (arith, pow-suc 2 m)) (omega arith),
)

-- A mask of `m` ones above `k` zeros rounds down to a multiple of `2 ^ k`.
bit_and-high :
    (k m mask x : ℕ)
    → mask + 2 ^ k ≡ 2 ^ m * 2 ^ k
    → x < 2 ^ m * 2 ^ k
    → bit_and x mask ≡ x / 2 ^ k * 2 ^ k
bit_and-high zero m mask x e h = bit_and-ones m mask x (omega arith) (omega arith) ∙ omega arith
bit_and-high (suc k) m mask x e h = omega (
  arith,
  twice,
  halves,
  bit_and_digit x mask,
  bit_and-high k m (mask / 2) (x / 2) (omega (arith, twice, pow-suc 2 k)) (omega (arith, twice)),
)
  where
    twice : 2 ^ m * 2 ^ suc k ≡ 2 * (2 ^ m * 2 ^ k)
    twice = omega (arith, ap (λ (t : ℕ). 2 ^ m * t) (pow-suc 2 k))

    halves : x / 2 ^ suc k * 2 ^ suc k ≡ 2 * (x / 2 / 2 ^ k * 2 ^ k)
    halves = rw (pow-succ' 2 k, ← div-div-eq-div-mul x 2 (2 ^ k)) (omega arith)

two-pow-mul : (m k n : ℕ) → m + k ≡ n → 2 ^ m * 2 ^ k ≡ 2 ^ n
two-pow-mul zero k n e = let e' : k ≡ n = omega arith in rw e' (omega arith)
two-pow-mul (suc m) k zero e = absurd (omega arith)
two-pow-mul (suc m) k (suc n) e =
    omega
      (arith, ap (λ (t : ℕ). t * 2 ^ k) (pow-suc 2 m), pow-suc 2 n, two-pow-mul m k n (omega arith))

-- For a power of two the mask rounds up to the next multiple, if the sum does not wrap.
pub align_up_lem :
    (k value : ℕ)
    → k < 64
    → value + 2 ^ k ≤ word
    → align_up value (2 ^ k) ≡ (value + 2 ^ k - 1) / 2 ^ k * 2 ^ k
unfolding align_up
align_up_lem k value hk h =
    rw (sum, mask)
      (bit_and-high k (64 - k) (word - 2 ^ k) (value + 2 ^ k - 1) (omega (arith, split))
        (omega (arith, split, one-le-pow k 2)))
  where
    split : 2 ^ (64 - k) * 2 ^ k ≡ word
    split = two-pow-mul (64 - k) k 64 (omega arith)

    sum : (value + 2 ^ k + (word - 1)) % word ≡ value + 2 ^ k - 1
    sum = omega (arith, one-le-pow k 2)

    mask : complement ((2 ^ k + (word - 1)) % word) ≡ word - 2 ^ k
    mask = omega (arith, one-le-pow k 2)

-- The rounded value is a multiple, at least the value, and less than one step above it.
pub align_up_bounds :
    (k value : ℕ)
    → k < 64
    → value + 2 ^ k ≤ word
    → (align_up value (2 ^ k) % 2 ^ k ≡ 0)
      × (value ≤ align_up value (2 ^ k))
      × (align_up value (2 ^ k) < value + 2 ^ k)
align_up_bounds k value hk h =
    let y = value + 2 ^ k - 1 in
    let whole = div-add-mod' y (2 ^ k) in
    let part : y % 2 ^ k < 2 ^ k = mod-lt y (one-le-pow k 2 (omega arith)) in
    let step : 1 ≤ 2 ^ k = one-le-pow k 2 (omega arith) in
    rw (align_up_lem k value hk h) (mul-mod_left (y / 2 ^ k) (2 ^ k), omega arith, omega arith)
