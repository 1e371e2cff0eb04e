-- ===== src/Std/Queue/Mask.antt =====
-- packages/std/queue: a mask of ones takes the remainder by a power of two.
use Prim.Native.Nat.{digits, bit_and, bit_and-bitwise, min}
use native.Mathlib.Nat.{div-add-mod, add-mul-mod_self_left, zero-mod, pow-succ', one-le-pow}
use inet_lisp.Base.{
  ℕ, zero, suc, ◌+◌, ◌-◌, ◌*◌, ◌/◌, ◌%◌, ◌^◌, ◌≤◌, ◌<◌, ◌≡◌, sym, ap, subst, ◌∙◌, arith,
}

-- The remainder by twice a number, from that of the half.
double_mod : (c m : ℕ) → 0 < m → c % (2 * m) ≡ (c / 2 % m) * 2 + c % 2
double_mod c m h = grind arith

pub mod_wrap : (c d m : ℕ) → c % (m * d) % m ≡ c % m
mod_wrap c d m =
    let q = c / (m * d) in
    let parts : c ≡ c % (m * d) + m * (d * q) = grind (arith, div-add-mod c (m * d)) in
    sym (ap (λ x. x % m) parts ∙ add-mul-mod_self_left (c % (m * d)) m (d * q))

ones_half : (m : ℕ) → 0 < m → ((2 * m - 1) / 2 ≡ m - 1) × ((2 * m - 1) % 2 ≡ 1)
ones_half m h = (omega arith, omega arith)

mask_step :
    (n c m : ℕ)
    → 0 < m
    → digits (λ b. zero) min n (suc c / 2) (m - 1) ≡ suc c / 2 % m
    → digits (λ b. zero) min (suc n) (suc c) (2 * m - 1) ≡ suc c % (2 * m)
mask_step n c m h e =
    rw ((ones_half m h).0, (ones_half m h).1, e, double_mod (suc c) m h) (omega arith)

-- The digits of a number under a mask of ones, on enough fuel.
mask_digits : (n c k : ℕ) → c ≤ n → digits (λ b. zero) min n c (2 ^ k - 1) ≡ c % 2 ^ k
mask_digits zero zero k h = sym (zero-mod (2 ^ k))
mask_digits zero (suc c) k h = absurd (omega arith)
mask_digits (suc n) zero k h = sym (zero-mod (2 ^ k))
mask_digits (suc n) (suc c) zero h = omega (arith, mask_digits n (suc c / 2) 0 (omega arith))
mask_digits (suc n) (suc c) (suc k) h =
    subst (λ m. digits (λ b. zero) min (suc n) (suc c) (m - 1) ≡ suc c % m) (sym (pow-succ' 2 k))
      (mask_step n c (2 ^ k) (one-le-pow k 2 (omega arith))
        (mask_digits n (suc c / 2) k (omega arith)))

-- A cursor masked by one less than a power of two is its remainder by that power.
pub bit_and-mask : (c k : ℕ) → bit_and c (2 ^ k - 1) ≡ c % 2 ^ k
bit_and-mask c k = bit_and-bitwise c (2 ^ k - 1) ∙ mask_digits c c k (omega arith)

pow_add : (k d : ℕ) → 2 ^ (k + d) ≡ 2 ^ k * 2 ^ d
pow_add zero d = ap (λ n. 2 ^ n) zero-add ∙ sym one-mul
  where
    zero-add : 0 + d ≡ d
    zero-add = omega arith

    one-mul : 1 * 2 ^ d ≡ 2 ^ d
    one-mul = omega arith
pow_add (suc k) d =
    let e : suc k + d ≡ suc (k + d) = omega arith in
    ap (λ n. 2 ^ n) e ∙ (pow-succ' 2 (k + d) ∙ grind (arith, pow_add k d, pow-succ' 2 k))

-- A cursor that wraps at 2 ^ 64 keeps its remainder by a smaller power of two.
pub bit_and-wrapped : (c k d : ℕ) → k + d ≡ 64 → bit_and (c % 2 ^ 64) (2 ^ k - 1) ≡ c % 2 ^ k
bit_and-wrapped c k d e =
    bit_and-mask (c % 2 ^ 64) k
    ∙ (subst (λ m. c % m % 2 ^ k ≡ c % 2 ^ k) (sym (pow_add k d) ∙ ap (λ j. 2 ^ j) e)
        (mod_wrap c (2 ^ d) (2 ^ k)))
