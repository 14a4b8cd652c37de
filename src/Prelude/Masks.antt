-- ===== src/Prelude/Masks.antt =====
-- `n & (2 ^ k - 1)`.
use Prim.Native.Nat.{
  ℕ, zero, suc, ◌+◌, ◌-◌, ◌*◌, ◌/◌, ◌%◌, ◌^◌, ◌≤◌, ◌<◌, min, bit_and, digits, bit_and-bitwise,
}
use mathlib.Core.Path.{◌≡◌, sym, ap, ◌∙◌}
use native.Mathlib.Omega.{arith}
use native.Mathlib.Nat.{div-add-mod', mod-lt, mod-eq_of_lt, mul-add-mod_self_right, zero-mod}

two_pos : (k : ℕ) → 1 ≤ 2 ^ k
two_pos zero = omega arith
two_pos (suc k) = omega (arith, two_pos k)

half_mod : (x p : ℕ) → 1 ≤ p → x / 2 % p * 2 + x % 2 ≡ x % (p * 2)
half_mod x p h =
    let rest = x / 2 % p * 2 + x % 2 in
    let c = x / 2 / p in
    let small : rest < p * 2 = omega (arith, mod-lt (x / 2) h) in
    let whole : x ≡ c * (p * 2) + rest = omega (arith, div-add-mod' (x / 2) p) in
    sym (mod-eq_of_lt small)
    ∙ sym (mul-add-mod_self_right c (p * 2) rest)
    ∙ ap (λ y. y % (p * 2)) (sym whole)

-- The digits that a mask of `k` ones leaves, with enough of the others to go through.
mask : (fuel a k : ℕ) → a ≤ fuel → digits (λ b. zero) min fuel a (2 ^ k - 1) ≡ a % 2 ^ k
mask zero zero k h = sym (zero-mod (2 ^ k))
mask zero (suc a) k h = absurd (omega arith)
mask (suc fuel) zero k h = sym (zero-mod (2 ^ k))
mask (suc fuel) (suc a) zero h = omega (arith, mask fuel (suc a / 2) zero (omega arith))
mask (suc fuel) (suc a) (suc k) h =
    let p = two_pos k in
    let half : (2 ^ suc k - 1) / 2 ≡ 2 ^ k - 1 = omega (arith, p) in
    let odd : (2 ^ suc k - 1) % 2 ≡ 1 = omega (arith, p) in
    let twice : 2 ^ suc k ≡ 2 ^ k * 2 = omega arith in
    let bit : min (suc a % 2) 1 ≡ suc a % 2 = omega arith in
    ap (λ b. digits (λ b. zero) min fuel (suc a / 2) b * 2 + min (suc a % 2) ((2 ^ suc k - 1) % 2))
      half
    ∙ ap (λ b. digits (λ b. zero) min fuel (suc a / 2) (2 ^ k - 1) * 2 + min (suc a % 2) b) odd
    ∙ ap (λ b. digits (λ b. zero) min fuel (suc a / 2) (2 ^ k - 1) * 2 + b) bit
    ∙ ap (λ r. r * 2 + suc a % 2) (mask fuel (suc a / 2) k (omega arith))
    ∙ half_mod (suc a) (2 ^ k) p
    ∙ ap (λ m. suc a % m) (sym twice)

pub bit_and-mask : (a k : ℕ) → bit_and a (2 ^ k - 1) ≡ a % 2 ^ k
bit_and-mask a k = bit_and-bitwise a (2 ^ k - 1) ∙ mask a a k (omega arith)
