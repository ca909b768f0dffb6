-- ===== src/Common/Bits.antt =====
-- The mask of a power of two: `x & (2^k - 1)` is the remainder `x % 2^k`.
use Prim.Native.Nat.{
  ℕ, zero, suc, ◌+◌, ◌-◌, ◌*◌, ◌/◌, ◌%◌, ◌^◌, ◌≤◌, ◌<◌, min, bit_and, digits, bit_and-bitwise,
}
use mathlib.Core.Path.{◌≡◌, sym, ap, ◌∙◌}
use native.Mathlib.Omega.{arith}
use native.Mathlib.Nat.{zero-mod, pow-suc, mul-add-mod_self_left, mod-eq_of_lt, div-add-mod, mod-lt}

pub one-le-two_pow : (k : ℕ) → 1 ≤ 2 ^ k
one-le-two_pow zero = omega arith
one-le-two_pow (suc k) = omega (arith, one-le-two_pow k, pow-suc 2 k)

-- The lowest digit of a number in front of the remainder of the others.
mod-double : (p x : ℕ) → 0 < p → x / 2 % p * 2 + x % 2 ≡ x % (2 * p)
mod-double p x h =
    let q = x / 2 / p in
    let r = x / 2 % p * 2 + x % 2 in
    let e : x ≡ 2 * p * q + r = omega (arith, div-add-mod (x / 2) p) in
    let small : r < 2 * p = omega (arith, mod-lt (x / 2) h) in
    sym (ap (λ (y : ℕ). y % (2 * p)) e ∙ mul-add-mod_self_left (2 * p) q r ∙ mod-eq_of_lt small)

mask_digits : (fuel k x : ℕ) → x ≤ fuel → digits (λ y. zero) min fuel x (2 ^ k - 1) ≡ x % 2 ^ k
mask_digits zero k zero h = sym (zero-mod (2 ^ k))
mask_digits zero k (suc x) h = absurd (omega arith)
mask_digits (suc f) k zero h = sym (zero-mod (2 ^ k))
mask_digits (suc f) zero (suc x) h = omega (arith, mask_digits f zero (suc x / 2) (omega arith))
mask_digits (suc f) (suc k) (suc x) h =
    let n = suc x in
    let p = 2 ^ k in
    let pos : 0 < p = one-le-two_pow k in
    let double : 2 ^ suc k ≡ 2 * p = omega (arith, pow-suc 2 k) in
    let half : (2 ^ suc k - 1) / 2 ≡ p - 1 = omega (arith, double) in
    let odd : (2 ^ suc k - 1) % 2 ≡ 1 = omega (arith, double) in
    rw (half, odd, mask_digits f k (n / 2) (omega arith), double)
      (omega (arith, mod-double p n pos))

pub bit_and_mask : (k x : ℕ) → bit_and x (2 ^ k - 1) ≡ x % 2 ^ k
bit_and_mask k x = bit_and-bitwise x (2 ^ k - 1) ∙ mask_digits x k x (omega arith)

pub two_pow-add : (k d : ℕ) → 2 ^ (k + d) ≡ 2 ^ k * 2 ^ d
two_pow-add k zero = let e : k + 0 ≡ k = omega arith in rw e (omega arith)
two_pow-add k (suc d) =
    let e : k + suc d ≡ suc (k + d) = omega arith in
    rw (e, pow-suc 2 (k + d), pow-suc 2 d, two_pow-add k d) (omega arith)
