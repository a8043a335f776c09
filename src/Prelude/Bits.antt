-- ===== src/Prelude/Bits.antt =====
-- Laws of the bit operations at variables, from their digit recursion: what a mask keeps.
use Prim.Native.Nat.{
  ℕ, zero, suc, ◌+◌, ◌*◌, ◌/◌, ◌%◌, ◌^◌, ◌≤◌, ◌<◌, min, max, bit_and, bit_or, digits,
  bit_and-bitwise, bit_or-bitwise,
}
use mathlib.Core.Path.{◌≡◌, refl, sym, ap, ◌∙◌}
use native.Mathlib.Omega.{arith}
use native.Mathlib.Nat.{pow-suc, mul-one, div-one, div-div-eq-div-mul, mul_comm}

-- an operation that takes its first operand apart bit by bit
module _ (base : ℕ → ℕ) (op : ℕ → ℕ → ℕ) where
  digits-zero : (fuel y : ℕ) → digits base op fuel 0 y ≡ base y
  digits-zero zero y = refl
  digits-zero (suc fuel) y = refl

  -- the fuel does not matter once it is enough
  digits_fuel : (x y f g : ℕ) → x ≤ f → x ≤ g → digits base op f x y ≡ digits base op g x y
  digits_fuel zero y f g _ _ = digits-zero f y ∙ sym (digits-zero g y)
  digits_fuel (suc x) y zero g l _ = absurd (omega arith)
  digits_fuel (suc x) y (suc f) zero _ l = absurd (omega arith)
  digits_fuel (suc x) y (suc f) (suc g) l k =
      let lower = digits_fuel (suc x / 2) (y / 2) f g (omega arith) (omega arith) in
      ap (λ rest. rest * 2 + op (suc x % 2) (y % 2)) lower

  module _ (f : ℕ → ℕ → ℕ) (law : (x y : ℕ) → f x y ≡ digits base op x x y)
      (lowest : (y : ℕ) → base y ≡ base (y / 2) * 2 + op 0 (y % 2)) where
    -- the law for the lowest bit
    last_bit : (x y : ℕ) → f x y ≡ f (x / 2) (y / 2) * 2 + op (x % 2) (y % 2)
    last_bit zero y = omega (arith, law 0 y, law 0 (y / 2), lowest y)
    last_bit (suc x) y =
        let lower = digits_fuel (suc x / 2) (y / 2) x (suc x / 2) (omega arith) (omega arith) in
        omega (arith, law (suc x) y, law (suc x / 2) (y / 2), lower)

pub zero-bit_and : (y : ℕ) → bit_and 0 y ≡ 0
zero-bit_and = bit_and-bitwise 0

pub bit_and_step : (x y : ℕ) → bit_and x y ≡ bit_and (x / 2) (y / 2) * 2 + min (x % 2) (y % 2)
bit_and_step = last_bit (λ y. 0) min bit_and bit_and-bitwise (λ y. omega arith)

-- an operation that each halving brings closer to its value at a right operand of 0
right_zero :
    (f : ℕ → ℕ → ℕ) (value : ℕ → ℕ)
    → (f 0 0 ≡ value 0)
    → ((x : ℕ) → f (x / 2) 0 ≡ value (x / 2) → f x 0 ≡ value x)
    → (fuel x : ℕ) → x ≤ fuel
    → f x 0 ≡ value x
right_zero f value start step fuel zero _ = start
right_zero f value start step zero (suc x) l = absurd (omega arith)
right_zero f value start step (suc fuel) (suc x) l =
    step (suc x) (right_zero f value start step fuel (suc x / 2) (omega arith))

pub bit_and-zero : (x : ℕ) → bit_and x 0 ≡ 0
bit_and-zero x =
    right_zero bit_and (λ x. 0) (zero-bit_and 0) (λ x h. omega (arith, bit_and_step x 0, h)) x x
      (omega arith)

-- `2 ^ n - 1`
abbrev pub ones : ℕ → ℕ
ones zero = 0
ones (suc n) = ones n * 2 + 1

-- The last digit of a remainder by an even number.
mod-twice : (p a : ℕ) → 0 < p → a % (p * 2) ≡ (a / 2) % p * 2 + a % 2
mod-twice p a h = grind arith

div-twice : (p a : ℕ) → 0 < p → a / (p * 2) ≡ (a / 2) / p
div-twice p a h = rw (mul_comm p 2, div-div-eq-div-mul)

pub two_pow_pos : (n : ℕ) → 0 < 2 ^ n
two_pow_pos zero = omega arith
two_pow_pos (suc n) = omega (arith, pow-suc 2 n, two_pow_pos n)

-- A mask of low ones keeps the low bits.
pub bit_and-ones : (n a : ℕ) → bit_and a (ones n) ≡ a % 2 ^ n
bit_and-ones zero a = omega (arith, bit_and-zero a)
bit_and-ones (suc n) a = rw (pow-suc 2 n) (
    rw (mod-twice (2 ^ n) a (two_pow_pos n)) (
      rw (bit_and_step a (ones (suc n)))
        (rw (ones-half n, ones-odd n, bit_and-ones n (a / 2)) (omega arith))))
  where
    ones-half : (n : ℕ) → (ones n * 2 + 1) / 2 ≡ ones n
    ones-half n = omega arith

    ones-odd : (n : ℕ) → (ones n * 2 + 1) % 2 ≡ 1
    ones-odd n = omega arith

-- A mask of ones above `k` zeros keeps the bits above.
pub bit_and-shifted : (k a m : ℕ) → bit_and a (m * 2 ^ k) ≡ bit_and (a / 2 ^ k) m * 2 ^ k
bit_and-shifted zero a m = rw (mul-one, mul-one, div-one)
bit_and-shifted (suc k) a m = rw (pow-suc 2 k) (
    rw (bit_and_step a (m * (2 ^ k * 2))) (
      rw
        (
          half m (2 ^ k),
          even m (2 ^ k),
          bit_and-shifted k (a / 2) m,
          div-twice (2 ^ k) a (two_pow_pos k),
        )
        (omega arith)))
  where
    half : (m p : ℕ) → m * (p * 2) / 2 ≡ m * p
    half m p = omega arith

    even : (m p : ℕ) → m * (p * 2) % 2 ≡ 0
    even m p = omega arith

zero-bit_or : (y : ℕ) → bit_or 0 y ≡ y
zero-bit_or = bit_or-bitwise 0

bit_or_step : (x y : ℕ) → bit_or x y ≡ bit_or (x / 2) (y / 2) * 2 + max (x % 2) (y % 2)
bit_or_step = last_bit (λ y. y) max bit_or bit_or-bitwise (λ y. omega arith)

bit_or-zero : (x : ℕ) → bit_or x 0 ≡ x
bit_or-zero x =
    right_zero bit_or (λ x. x) (zero-bit_or 0) (λ x h. omega (arith, bit_or_step x 0, h)) x x
      (omega arith)

-- Fields that do not overlap are put together by a sum.
pub bit_or-disjoint : (k m v : ℕ) → v < 2 ^ k → bit_or (m * 2 ^ k) v ≡ m * 2 ^ k + v
bit_or-disjoint zero m zero h = rw bit_or-zero (omega arith)
bit_or-disjoint zero m (suc v) h = absurd (omega arith)
bit_or-disjoint (suc k) m v h = rw (pow-suc 2 k) (
    rw (bit_or_step (m * (2 ^ k * 2)) v) (
      rw
        (
          half m (2 ^ k),
          even m (2 ^ k),
          bit_or-disjoint k m (v / 2) (lower v (2 ^ k) (rw (pow-suc 2 k) at h)),
        )
        (omega arith)))
  where
    half : (m p : ℕ) → m * (p * 2) / 2 ≡ m * p
    half m p = omega arith

    even : (m p : ℕ) → m * (p * 2) % 2 ≡ 0
    even m p = omega arith

    lower : (v p : ℕ) → v < p * 2 → v / 2 < p
    lower v p h = omega arith

bit_or_comm_fuel : (fuel x y : ℕ) → x ≤ fuel → bit_or x y ≡ bit_or y x
bit_or_comm_fuel fuel zero y _ = zero-bit_or y ∙ sym (bit_or-zero y)
bit_or_comm_fuel zero (suc x) y l = absurd (omega arith)
bit_or_comm_fuel (suc fuel) (suc x) y l = omega (
  arith,
  bit_or_step (suc x) y,
  bit_or_step y (suc x),
  bit_or_comm_fuel fuel (suc x / 2) (y / 2) (omega arith),
)

pub bit_or_comm : (x y : ℕ) → bit_or x y ≡ bit_or y x
bit_or_comm x y = bit_or_comm_fuel x x y (omega arith)
