-- ===== src/Prelude/Bits.antt =====
-- Masking by a row of ones is a remainder, for every width.
use Prim.Native.Nat.{
  ℕ, zero, suc, ◌+◌, ◌-◌, ◌*◌, ◌/◌, ◌%◌, ◌^◌, ◌≤◌, ◌<◌, min, bit_and, digits, bit_and-bitwise,
}
use mathlib.Core.Path.{◌≡◌, refl, ap, ◌∙◌}
use native.Mathlib.Nat.{
  pow-suc, pow-succ', mod-lt, mod-eq_of_lt, add-mul-mod_self_left, div-add-mod,
}
use native.Mathlib.Omega.{arith}

-- The digit recursion that the native operation stands for gives one result on any fuel that
-- covers the first number.
and_digits-fuel :
    (n m a b : ℕ) → a ≤ n → a ≤ m → digits (λ _. zero) min n a b ≡ digits (λ _. zero) min m a b
and_digits-fuel zero zero zero b p q = refl
and_digits-fuel zero zero (suc a) b p q = absurd (omega arith)
and_digits-fuel zero (suc m) zero b p q = refl
and_digits-fuel zero (suc m) (suc a) b p q = absurd (omega arith)
and_digits-fuel (suc n) zero zero b p q = refl
and_digits-fuel (suc n) zero (suc a) b p q = absurd (omega arith)
and_digits-fuel (suc n) (suc m) zero b p q = refl
and_digits-fuel (suc n) (suc m) (suc a) b p q =
    omega (arith, and_digits-fuel n m (suc a / 2) (b / 2) (omega arith) (omega arith))

bit_and-halves : (a b : ℕ) → bit_and a b ≡ 2 * bit_and (a / 2) (b / 2) + min (a % 2) (b % 2)
bit_and-halves zero b = omega (arith, bit_and-bitwise 0 b, bit_and-bitwise 0 (b / 2))
bit_and-halves (suc a) b = omega (
  arith,
  bit_and-bitwise (suc a) b,
  bit_and-bitwise (suc a / 2) (b / 2),
  and_digits-fuel a (suc a / 2) (suc a / 2) (b / 2) (omega arith) (omega arith),
)

bit_and-zero_below : (n a : ℕ) → a ≤ n → bit_and a 0 ≡ 0
bit_and-zero_below n zero h = refl
bit_and-zero_below zero (suc a) h = absurd (omega arith)
bit_and-zero_below (suc n) (suc a) h =
    omega (arith, bit_and-halves (suc a) 0, bit_and-zero_below n (suc a / 2) (omega arith))

pub pow-pos : (k : ℕ) → 0 < 2 ^ k
pow-pos zero = omega arith
pow-pos (suc k) = omega (arith, pow-suc 2 k, pow-pos k)

-- The remainder by `2 * m` from the remainder of the half by `m`.
mod-double : (a m : ℕ) → 0 < m → a % (2 * m) ≡ 2 * (a / 2 % m) + a % 2
mod-double a m h =
    ap (λ t. t % (2 * m)) split
    ∙ add-mul-mod_self_left (2 * (a / 2 % m) + a % 2) (2 * m) (a / 2 / m)
    ∙ mod-eq_of_lt (omega (arith, mod-lt (a / 2) h))
  where
    split : a ≡ 2 * (a / 2 % m) + a % 2 + 2 * m * (a / 2 / m)
    split = omega (arith, div-add-mod (a / 2) m)

-- `a & (2 ^ k - 1)` is `a mod 2 ^ k`.
pub bit_and-ones : (k a : ℕ) → bit_and a (2 ^ k - 1) ≡ a % 2 ^ k
bit_and-ones zero a = omega (arith, bit_and-zero_below a a (omega arith))
bit_and-ones (suc k) a =
    let double : 2 ^ suc k ≡ 2 * 2 ^ k = pow-succ' 2 k in
    let halves : (2 * 2 ^ k - 1) / 2 ≡ 2 ^ k - 1 = omega (arith, pow-pos k) in
    rw
      (
        double,
        mod-double a (2 ^ k) (pow-pos k),
        bit_and-halves a (2 * 2 ^ k - 1),
        halves,
        bit_and-ones k (a / 2),
      )
      (omega (arith, pow-pos k))
