-- ===== src/Prelude/Bits.antt =====
-- Facts about the bit operations at variables, from the digit recursion that they stand for.
use Prim.Native.Nat.{
  ℕ, zero, suc, ◌+◌, ◌-◌, ◌*◌, ◌/◌, ◌%◌, ◌^◌, ◌≤◌, ◌<◌, ◌∣◌, min, bit_and, bit_xor, digits, differ,
  bit_and-bitwise, bit_xor-bitwise,
}
use mathlib.Core.Path.{◌≡◌, sym, ap, ◌∙◌}
use native.Mathlib.Omega.{arith}
use native.Mathlib.Nat.{
  zero-mod, two-pow-succ, div-add-mod, mod-lt, mod-eq_of_lt, one-le-pow, add-mul-mod_self_left,
  dvd_refl, dvd-add,
}
use native.Mathlib.Decide.{ℕ_discrete}

-- A remainder by an even number, from the remainder of the half and the lowest bit.
mod_double : (a p : ℕ) → 0 < p → a % (p + p) ≡ a / 2 % p * 2 + a % 2
mod_double a p h =
    let low = mod-lt (a / 2) h in
    let split : a ≡ a / 2 % p * 2 + a % 2 + (p + p) * (a / 2 / p) =
      grind (arith, div-add-mod (a / 2) p) in
    let small : a / 2 % p * 2 + a % 2 < p + p = omega arith in
    ap (λ x. x % (p + p)) split
    ∙ add-mul-mod_self_left (a / 2 % p * 2 + a % 2) (p + p) (a / 2 / p)
    ∙ mod-eq_of_lt small

pub two-pow-pos : (k : ℕ) → 0 < 2 ^ k
two-pow-pos k = one-le-pow k 2 (omega arith)

-- The digits of a number under a mask of `k` ones are those of its remainder.
pub masked_digits : (n k a : ℕ) → a ≤ n → digits (λ b. zero) min n a (2 ^ k - 1) ≡ a % 2 ^ k
masked_digits zero k zero h = sym (zero-mod (2 ^ k))
masked_digits zero k (suc a) h = absurd (omega arith)
masked_digits (suc n) k zero h = sym (zero-mod (2 ^ k))
masked_digits (suc n) zero (suc a) h = omega (arith, masked_digits n zero (suc a / 2) (omega arith))
masked_digits (suc n) (suc k) (suc a) h =
    let pos = two-pow-pos k in
    let twice = two-pow-succ k in
    let half : (2 ^ suc k - 1) / 2 ≡ 2 ^ k - 1 = omega arith in
    rw (half, masked_digits n k (suc a / 2) (omega arith), twice, mod_double (suc a) (2 ^ k) pos)
      (omega arith)

-- A mask of `k` ones is a remainder.
pub bit_and_mask : (k a : ℕ) → bit_and a (2 ^ k - 1) ≡ a % 2 ^ k
bit_and_mask k a = rw (bit_and-bitwise a (2 ^ k - 1)) (masked_digits a k a (omega arith))

differ-le : (x y : ℕ) → x ≤ 1 → y ≤ 1 → differ x y ≤ 1
differ-le zero y p q = q
differ-le (suc x) zero p q = p
differ-le (suc x) (suc y) p q = differ-le x y (omega arith) (omega arith)

xor_digits-lt : (k n a b : ℕ) → a < 2 ^ k → b < 2 ^ k → digits (λ b. b) differ n a b < 2 ^ k
xor_digits-lt k zero a b p q = q
xor_digits-lt k (suc n) zero b p q = q
xor_digits-lt zero (suc n) (suc a) b p q = absurd (omega arith)
xor_digits-lt (suc k) (suc n) (suc a) b p q =
    let twice = two-pow-succ k in
    let low = differ-le (suc a % 2) (b % 2) (omega arith) (omega arith) in
    let high = xor_digits-lt k n (suc a / 2) (b / 2) (omega arith) (omega arith) in omega arith

-- An exclusive or needs no more bits than its arguments.
pub bit_xor-lt : (k a b : ℕ) → a < 2 ^ k → b < 2 ^ k → bit_xor a b < 2 ^ k
bit_xor-lt k a b p q = rw (bit_xor-bitwise a b) (xor_digits-lt k a a b p q)

pub two-pow-dvd : (k n : ℕ) → k ≤ n → 2 ^ k ∣ 2 ^ n
two-pow-dvd zero zero h = dvd_refl 1
two-pow-dvd (suc k) zero h = absurd (omega arith)
two-pow-dvd k (suc n) h = elim (ℕ_discrete k (suc n)) [
  | yes e ↦ rw e (dvd_refl (2 ^ suc n))
  | no ne ↦
      let below = two-pow-dvd k n (omega arith) in rw two-pow-succ (dvd-add (2 ^ k) below below)
]
