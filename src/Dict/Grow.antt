-- ===== src/Dict/Grow.antt =====
-- The loop of `dict_resize` that chooses the new size.
use native.Mathlib.Nat.{two-pow-succ, pow-le-pow_right}
use native.Mathlib.Decide.{dec_lt, ℕ_discrete}
use librustyaxe.Prelude.{
  ℕ, zero, suc, ◌+◌, ◌*◌, ◌^◌, ◌≤◌, ◌<◌, ◌≡◌, refl, ap, inl, inr, none, some, arith, wrap32,
  Bool-cases, leb,
}
use librustyaxe.Dict.Store.{grow_size}

grow_size-zero : (fuel bound : ℕ) → grow_size fuel bound 0 ≡ none
unfolding grow_size
grow_size-zero zero bound = refl
grow_size-zero (suc fuel) bound = ground (arith, grow_size-zero fuel bound)

double_word : (k : ℕ) → k < 31 → wrap32 (2 ^ k * 2) ≡ 2 ^ suc k
double_word k h =
    let small : 2 ^ k ≤ 2 ^ 30 =
      pow-le-pow_right {n = 2} (omega arith) {i = k} {j = 30} (omega arith) in
    omega (arith, two-pow-succ k)

-- The size that the loop ends with is a power of two above the bound, and at least the old size.
pub grow_size-pow :
    (fuel bound k : ℕ) {m : ℕ}
    → k < 32
    → grow_size fuel bound (2 ^ k) ≡ some m
    → (j : ℕ) × (j < 32) × (m ≡ 2 ^ j) × (bound < m) × (2 ^ k ≤ m)
unfolding grow_size
grow_size-pow zero bound k word run = absurd (ground arith)
grow_size-pow (suc fuel) bound k {m} word run = elim (Bool-cases (leb (2 ^ k) bound)) [
  | inr big ↦ (k, word, ground arith, ground arith, ground arith)
  | inl small ↦
      let next : grow_size fuel bound (wrap32 (2 ^ k * 2)) ≡ some m = ground arith in
      elim (dec_lt k 31) [
        | yes lt ↦
            let (j, w, e, above, more) =
              grow_size-pow fuel bound (suc k) (omega arith) (rw (double_word k lt) at next) in
            (j, w, e, above, omega (arith, two-pow-succ k))
        | no last ↦
            let e : k ≡ 31 = omega arith in absurd (cc (grow_size-zero fuel bound, rw e at next))
      ]
]

below-31 : (k : ℕ) → k ≤ 31 → 2 ^ k < 2 ^ 31 → k < 31
below-31 k word h = elim (ℕ_discrete k 31) [
  | yes e ↦ absurd (omega (arith, ap (λ (t : ℕ). 2 ^ t) e))
  | no ne ↦ omega arith
]

-- With enough fuel for the doublings, a bound below 2 ^ 31 is passed.
pub grow_size_total :
    (fuel bound k : ℕ)
    → k ≤ 31
    → 32 ≤ fuel + k
    → bound < 2 ^ 31
    → (m : ℕ) × (grow_size fuel bound (2 ^ k) ≡ some m)
unfolding grow_size
grow_size_total zero bound k word enough small = absurd (omega arith)
grow_size_total (suc fuel) bound k word enough small = elim (dec_lt bound (2 ^ k)) [
  | yes above ↦ (2 ^ k, ground arith)
  | no below ↦
      let lt = below-31 k word (omega arith) in
      let (m, run) = grow_size_total fuel bound (suc k) (omega arith) (omega arith) small in
      (m, ground (arith, double_word k lt))
]
