-- ===== src/Dict/Cycle.antt =====
-- Arithmetic behind the probe sequence of dict.c: once the perturbation is used up, the loop of
-- `dict_lookup` steps from slot `i` to `5 * i + 1` modulo the table's size, a power of two.
use native.Mathlib.Decide.{dec_lt}
use native.Mathlib.Nat.{zero-add, div-lt_iff_lt-mul, two-pow-succ, div-add-mod, mod-lt}
use librustyaxe.Prelude.{
  ℕ, zero, suc, ◌+◌, ◌-◌, ◌*◌, ◌/◌, ◌%◌, ◌^◌, ◌≤◌, ◌<◌, ◌≡◌, ap, ◌∙◌, ◌⊎◌, inl, inr, arith,
  two-pow-pos,
}

-- `n` steps of `i = 5 * i + 1`, without the reduction.
unfoldable pub orbit : ℕ → ℕ → ℕ
orbit zero x = x
orbit (suc n) x = orbit n (5 * x + 1)

pub orbit-add : (m n x : ℕ) → orbit (m + n) x ≡ orbit n (orbit m x)
unfolding orbit
orbit-add zero n x = rw zero-add
orbit-add (suc m) n x =
    let e : suc m + n ≡ suc (m + n) = omega arith in rw e (orbit-add m n (5 * x + 1))

-- The distance that 2 ^ k steps go, as a multiple of `4 * x + 1`.
jump : ℕ → ℕ
jump zero = 1
jump (suc k) = jump k * (2 + 4 * jump k)

orbit-pow : (k x : ℕ) → orbit (2 ^ k) x ≡ x + jump k * (4 * x + 1)
unfolding orbit jump
orbit-pow zero x = omega arith
orbit-pow (suc k) x =
    let y = x + jump k * (4 * x + 1) in
    let chain : orbit (2 ^ k + 2 ^ k) x ≡ y + jump k * (4 * y + 1) =
      orbit-add (2 ^ k) (2 ^ k) x ∙ rw (orbit-pow k x) (orbit-pow k y) in
    rw (two-pow-succ, chain) (omega arith)

-- 2 ^ k divides the distance exactly.
jump_odd : (k : ℕ) → (o : ℕ) × (jump k ≡ 2 ^ k * (2 * o + 1))
unfolding jump
jump_odd zero = (0, omega arith)
jump_odd (suc k) =
    let (o, e) = jump_odd k in
    let twice = two-pow-succ k in
    (o + 2 * (2 ^ k * (2 * o + 1)) * o + 2 ^ k * (2 * o + 1), rw (e, twice) (omega arith))

-- So 2 ^ k steps keep the residue modulo 2 ^ k and flip the next bit.
orbit_flip : (k x : ℕ) → (o : ℕ) × (orbit (2 ^ k) x ≡ x + 2 ^ k * (2 * o + 1))
orbit_flip k x =
    let (o, e) = jump_odd k in (o * (4 * x + 1) + 2 * x, rw (orbit-pow, e) (omega arith))

-- Below twice `p`, the quotient by `p` is a bit.
top_bit : (r p : ℕ) → 0 < p → r < p + p → r / p ≤ 1
top_bit r p pos h =
    let below = (div-lt_iff_lt-mul {x = r} {y = 2} pos).1 (omega arith) in omega arith

-- Either `q` has the parity of the bit `b`, or an odd number added to it does.
same_parity : (q b : ℕ) → b ≤ 1 → ((c : ℕ) × (q ≡ 2 * c + b)) ⊎ ((c : ℕ) × (q + 1 ≡ 2 * c + b))
same_parity q b h = elim (dec_lt ((q + b) % 2) 1) [
  | yes e ↦ inl ((q - b) / 2, omega arith)
  | no o ↦ inr ((q + 1 - b) / 2, omega arith)
]

push : (p low q o : ℕ) {x : ℕ} → x ≡ low + p * q → x + p * (2 * o + 1) ≡ low + p * (q + 2 * o + 1)
push p low q o e = omega arith

-- A residue modulo `p` with a quotient of the right parity is one modulo twice `p`.
settle :
    (p x low b r q c : ℕ) → p * b + low ≡ r → x ≡ low + p * q → q ≡ 2 * c + b → x ≡ r + (p + p) * c
settle p x low b r q c split e even = omega (arith, ap (λ (t : ℕ). p * t) even)

-- Every residue modulo 2 ^ k is met within 2 ^ k steps, from every start.
pub orbit_cover :
    (k x r : ℕ) → r < 2 ^ k → (n : ℕ) × (q : ℕ) × (n < 2 ^ k) × (orbit n x ≡ r + 2 ^ k * q)
unfolding orbit
orbit_cover zero x r h = (0, x, omega arith, omega arith)
orbit_cover (suc k) x r h =
    let p = 2 ^ k in
    let twice = two-pow-succ k in
    let split = div-add-mod r p in
    let low = mod-lt r (two-pow-pos k) in
    let (n, q, near, e) = orbit_cover k x (r % p) low in
    let (o, flip) = orbit_flip k (orbit n x) in
    let far : orbit (n + p) x ≡ r % p + p * (q + 2 * o + 1) =
      orbit-add n p x ∙ flip ∙ push p (r % p) q o e in
    let top = top_bit r p (two-pow-pos k) (omega arith) in
    elim (same_parity q (r / p) top) [
      | inl (c, even) ↦
          (n, c, omega arith, rw twice (settle p _ (r % p) (r / p) r q c split e even))
      | inr (c, odd) ↦ (
        n + p,
        c + o,
        omega arith,
        rw twice (settle p _ (r % p) (r / p) r (q + 2 * o + 1) (c + o) split far (omega arith)),
      )
    ]
