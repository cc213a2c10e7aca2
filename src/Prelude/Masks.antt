-- ===== src/Prelude/Masks.antt =====
-- Exclusive or and masks, compared above a given digit.
use Prim.Native.Nat.{
  ℕ, zero, suc, ◌+◌, ◌-◌, ◌*◌, ◌/◌, ◌%◌, ◌^◌, ◌≤◌, min, bit_and, bit_xor, digits, differ,
  bit_and-bitwise, bit_xor-bitwise,
}
use mathlib.Core.Path.{◌≡◌, sym, ap, ◌∙◌}
use mathlib.Core.Logic.{◌↔◌}
use native.Mathlib.Omega.{arith}
use native.Mathlib.Nat.{zero-div, zero-mod, div-one, div-div-eq-div-mul, two-pow-succ}
use librustyaxe.Prelude.Bits.{masked_digits}

differ_bits : (x y : ℕ) → x ≤ 1 → y ≤ 1 → (differ x y ≤ 1) × ((differ x y ≡ 0) ↔ (x ≡ y))
differ_bits zero y p q = ground arith
differ_bits (suc zero) zero p q = ground arith
differ_bits (suc zero) (suc zero) p q = ground arith
differ_bits x (suc (suc y)) p q = absurd (omega arith)
differ_bits (suc (suc x)) y p q = absurd (omega arith)

-- Halving twice over.
pub div-two-pow : (a t : ℕ) → a / 2 ^ suc t ≡ a / 2 / 2 ^ t
div-two-pow a t =
    let twice = two-pow-succ t in
    let double : 2 ^ suc t ≡ 2 * 2 ^ t = omega arith in
    ap (λ x. a / x) double ∙ sym (div-div-eq-div-mul a 2 (2 ^ t))

xor_low : (n a b : ℕ) → a ≤ n → (digits (λ b. b) differ n a b ≡ 0) ↔ (a ≡ b)
xor_low zero zero b h = ground arith
xor_low zero (suc a) b h = absurd (omega arith)
xor_low (suc n) zero b h = ground arith
xor_low (suc n) (suc a) b h =
    let low = differ_bits (suc a % 2) (b % 2) (omega arith) (omega arith) in
    let high = xor_low n (suc a / 2) (b / 2) (omega arith) in grind arith

xor_high :
    (t n a b : ℕ) → a ≤ n → (digits (λ b. b) differ n a b / 2 ^ t ≡ 0) ↔ (a / 2 ^ t ≡ b / 2 ^ t)
xor_high zero n a b h = rw (div-one, div-one, div-one) (xor_low n a b h)
xor_high (suc t) zero zero b h = rw zero-div (ground arith)
xor_high (suc t) zero (suc a) b h = absurd (omega arith)
xor_high (suc t) (suc n) zero b h = rw zero-div (ground arith)
xor_high (suc t) (suc n) (suc a) b h =
    let low = differ_bits (suc a % 2) (b % 2) (omega arith) (omega arith) in
    let high = xor_high t n (suc a / 2) (b / 2) (omega arith) in
    let half : (digits (λ b'. b') differ n (suc a / 2) (b / 2) * 2 + differ (suc a % 2) (b % 2)) / 2
        ≡ digits (λ b'. b') differ n (suc a / 2) (b / 2) =
      omega arith in
    rw (div-two-pow, div-two-pow (suc a), div-two-pow b, half) high

-- Two numbers have the same digits from the digit `t` on just if their exclusive or has none there.
pub bit_xor-div : (t a b : ℕ) → (bit_xor a b / 2 ^ t ≡ 0) ↔ (a / 2 ^ t ≡ b / 2 ^ t)
bit_xor-div t a b = rw (bit_xor-bitwise a b) (xor_high t a a b (omega arith))

-- The digits under a mask of `k` ones that starts at the digit `t`.
mask_high :
    (t k n a : ℕ)
    → a ≤ n
    → digits (λ b. zero) min n a ((2 ^ k - 1) * 2 ^ t) ≡ a / 2 ^ t % 2 ^ k * 2 ^ t
mask_high zero k n a h =
    let same : (2 ^ k - 1) * 2 ^ 0 ≡ 2 ^ k - 1 = omega arith in
    rw (same, div-one, masked_digits n k a h) (omega arith)
mask_high (suc t) k zero zero h = rw (zero-div, zero-mod) (omega arith)
mask_high (suc t) k zero (suc a) h = absurd (omega arith)
mask_high (suc t) k (suc n) zero h = rw (zero-div, zero-mod) (omega arith)
mask_high (suc t) k (suc n) (suc a) h =
    let high = mask_high t k n (suc a / 2) (omega arith) in
    let double : (2 ^ k - 1) * 2 ^ suc t ≡ 2 * ((2 ^ k - 1) * 2 ^ t) =
      rw two-pow-succ (grind arith) in
    let even : (2 ^ k - 1) * 2 ^ suc t / 2 ≡ (2 ^ k - 1) * 2 ^ t = omega arith in
    let last : (2 ^ k - 1) * 2 ^ suc t % 2 ≡ 0 = omega arith in
    rw (even, last, high, div-two-pow, two-pow-succ t) (grind arith)

pub bit_and-high : (t k a : ℕ) → bit_and a ((2 ^ k - 1) * 2 ^ t) ≡ a / 2 ^ t % 2 ^ k * 2 ^ t
bit_and-high t k a = rw (bit_and-bitwise a ((2 ^ k - 1) * 2 ^ t)) (mask_high t k a a (omega arith))
