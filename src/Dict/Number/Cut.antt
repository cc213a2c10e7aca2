-- ===== src/Dict/Number/Cut.antt =====
-- The range of the floating-point values that the getters of dict.c cut to an integer.
use librustyaxe.Prelude.{
  ℕ, zero, suc, ◌*◌, ◌/◌, ◌^◌, ◌≤◌, ◌<◌, ◌≡◌, Bool, true, Option, none, some, arith, inl, inr,
  Bool-cases, ℤ, pos, negsuc,
}
use native.Mathlib.Nat.{div-le_of_le-mul, div-lt_iff_lt-mul, one-le-pow, mul_comm}
use librustyaxe.Dict.Number.Real.{Real, neg, truncate, within, within_open}
use librustyaxe.Dict.Number.Getters.{between, natural, real_int, real_nat}

-- A result in a signed range, and in an unsigned one.
abbrev pub Signed : ℕ → ℕ → Option ℤ → Type 0
Signed low high none = Unit
Signed low high (some z) = between low high z ≡ true

abbrev pub Unsigned : ℕ → Option ℕ → Type 0
Unsigned high none = Unit
Unsigned high (some n) = n ≤ high

quotient_le : (num low scale : ℕ) → num ≤ low * 2 ^ scale → num / 2 ^ scale ≤ low
quotient_le num low scale h = div-le_of_le-mul (2 ^ scale) (rw (mul_comm (2 ^ scale) low) h)

quotient_lt : (num high scale : ℕ) → num < high * 2 ^ scale → num / 2 ^ scale < high
quotient_lt num high scale h =
    (div-lt_iff_lt-mul {k = 2 ^ scale} {y = high} (one-le-pow scale 2 (omega arith))).1 h

pub between-neg : (low high n : ℕ) → n ≤ low → between low high (neg n) ≡ true
between-neg low high zero h = ground arith
between-neg low high (suc n) h = ground arith

pub truncate-within :
    (low high : ℕ) (x : Real) → within low high x ≡ true → between low high (truncate x) ≡ true
unfolding within truncate
truncate-within low high x h = elim (Bool-cases x.negative) [
  | inl e ↦
      let le : x.num ≤ low * 2 ^ x.scale = ground arith in
      rw (truncate, e) (between-neg low high _ (quotient_le x.num low x.scale le))
  | inr e ↦
      let le : x.num ≤ high * 2 ^ x.scale = ground arith in
      rw (truncate, e) (ground (arith, quotient_le x.num high x.scale le))
]

pub truncate-within_open :
    (low high : ℕ) (x : Real)
    → within_open low (suc high) x ≡ true
    → between low high (truncate x) ≡ true
unfolding within_open truncate
truncate-within_open low high x h = elim (Bool-cases x.negative) [
  | inl e ↦
      let le : x.num ≤ low * 2 ^ x.scale = ground arith in
      rw (truncate, e) (between-neg low high _ (quotient_le x.num low x.scale le))
  | inr e ↦
      let lt : x.num < suc high * 2 ^ x.scale = ground arith in
      rw (truncate, e) (ground (arith, quotient_lt x.num (suc high) x.scale lt))
]

pub real_int-Signed :
    (test : Real → Bool) (low high : ℕ) (o : Option Real)
    → ((x : Real) → test x ≡ true → between low high (truncate x) ≡ true)
    → Signed low high (real_int test o)
unfolding real_int
real_int-Signed test low high none h = tt
real_int-Signed test low high (some x) h = ground (arith, h x)

pub natural-Unsigned :
    (low high : ℕ) (z : ℤ) → between low high z ≡ true → Unsigned high (natural z)
natural-Unsigned low high (pos n) h = ground arith
natural-Unsigned low high (negsuc n) h = tt

pub real_nat-Unsigned :
    (test : Real → Bool) (high : ℕ) (o : Option Real)
    → ((x : Real) → test x ≡ true → between 0 high (truncate x) ≡ true)
    → Unsigned high (real_nat test o)
unfolding real_nat
real_nat-Unsigned test high none h = tt
real_nat-Unsigned test high (some x) h = elim (Bool-cases (test x)) [
  | inl e ↦ rw (real_nat, e) (natural-Unsigned 0 high (truncate x) (h x e))
  | inr e ↦ rw (real_nat, e) tt
]
