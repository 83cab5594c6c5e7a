-- ===== src/Prelude/Fields.antt =====
-- Bit fields at variable places, as quotients and remainders by powers of two.
use native.Mathlib.Nat.{
  pow-suc, add-mul-mod_self_right, mod-eq_of_lt, pow-le-pow_right, add_comm, div-eq_of_lt-le,
}
use mathlib.Core.Path.{◌≡◌, ap, ◌∙◌}
use Prim.Native.Nat.{ℕ, zero, suc, ◌+◌, ◌-◌, ◌*◌, ◌/◌, ◌%◌, ◌^◌, ◌≤◌, ◌<◌}
use native.Mathlib.Omega.{arith}

pub pow-add : (a b : ℕ) → 2 ^ (a + b) ≡ 2 ^ a * 2 ^ b
pow-add a zero = let e : a + zero ≡ a = omega arith in rw e (omega arith)
pow-add a (suc b) =
    let e : a + suc b ≡ suc (a + b) = omega arith in
    rw (e, pow-suc 2 (a + b), pow-suc 2 b, pow-add a b) (omega arith)

pub pow_mono : (a b : ℕ) → a ≤ b → 2 ^ a ≤ 2 ^ b
pow_mono a b h = pow-le-pow_right (omega arith) h

pub high_part : (q m r : ℕ) → r < m → (q * m + r) / m ≡ q
high_part q m r h = div-eq_of_lt-le {k = q} m (grind arith) (grind arith)

pub low_part : (q m r : ℕ) → r < m → (q * m + r) % m ≡ r
low_part q m r h =
    ap (λ t. t % m) (add_comm (q * m) r) ∙ add-mul-mod_self_right r q m ∙ mod-eq_of_lt h

-- The numbers of two fields side by side stay below the product of their ranges.
pub pair_bound : (q m r n : ℕ) → q < n → r < m → q * m + r < n * m
pair_bound q m r n h k = grind arith

pub ones-div : (p q : ℕ) → 0 < p → 0 < q → (p * q - 1) / q ≡ p - 1
ones-div zero q h k = absurd (omega arith)
ones-div (suc p) q h k =
    let split : suc p * q - 1 ≡ p * q + (q - 1) = omega arith in
    rw split (high_part p q (q - 1) (omega arith) ∙ omega arith)
