-- ===== src/Dict/Lookup/Visits.antt =====
-- The probe sequence visits every slot of a table whose size is a power of two.
use native.Mathlib.Nat.{
  add-mul-mod_self_left, div-add-mod, mod-lt, mod-eq_of_lt, mod-mod_of_dvd, mod-mod,
  pow-le-pow_right, zero-add,
}
use librustyaxe.Prelude.{
  ℕ, zero, suc, ◌+◌, ◌-◌, ◌*◌, ◌/◌, ◌%◌, ◌^◌, ◌≤◌, ◌<◌, ◌≡◌, sym, ap, ◌∙◌, arith, bit_and, dec32,
  bit_and_mask, two-pow-pos, two-pow-dvd,
}
use librustyaxe.Dict.Cycle.{orbit, orbit_cover}
use librustyaxe.Dict.Lookup.{next_index}
use librustyaxe.Dict.Lookup.Scan.{walk}

-- The mask `size - 1` takes the remainder by the size.
pub mask-mod : (k : ℕ) → k < 32 → (x : ℕ) → bit_and x (dec32 (2 ^ k)) ≡ x % 2 ^ k
mask-mod k h x =
    let pos = two-pow-pos k in
    let small : 2 ^ k ≤ 2 ^ 31 =
      pow-le-pow_right {n = 2} (omega arith) {i = k} {j = 31} (omega arith) in
    let mask : dec32 (2 ^ k) ≡ 2 ^ k - 1 = omega arith in rw (mask, bit_and_mask)

next_index-mod : (k : ℕ) → k < 32 → (i p : ℕ) → next_index (2 ^ k) i p ≡ (i * 4 + i + p + 1) % 2 ^ k
next_index-mod k h i p =
    mask-mod k h _ ∙ mod-mod_of_dvd (2 ^ k) (i * 4 + i + p + 1) (two-pow-dvd k 32 (omega arith))

affine_mod : (p x : ℕ) → (5 * (x % p) + 1) % p ≡ (5 * x + 1) % p
affine_mod p x =
    let split : 5 * x + 1 ≡ 5 * (x % p) + 1 + p * (5 * (x / p)) = grind (arith, div-add-mod x p) in
    sym (ap (λ t. t % p) split ∙ add-mul-mod_self_left (5 * (x % p) + 1) p (5 * (x / p)))

orbit_mod : (p n x : ℕ) → orbit n (x % p) % p ≡ orbit n x % p
unfolding orbit
orbit_mod p zero x = mod-mod x p
orbit_mod p (suc n) x =
    sym (orbit_mod p n (5 * (x % p) + 1))
    ∙ ap (λ t. orbit n t % p) (affine_mod p x)
    ∙ orbit_mod p n (5 * x + 1)

-- What is left of the perturbation after `m` steps.
drain : ℕ → ℕ → ℕ
drain zero p = p
drain (suc m) p = drain m (p / 2 ^ 5)

walk-add : (size i p m n : ℕ) → walk size i p (m + n) ≡ walk size (walk size i p m) (drain m p) n
unfolding walk drain
walk-add size i p zero n = ap (λ t. walk size i p t) (zero-add n)
walk-add size i p (suc m) n =
    let e : suc m + n ≡ suc (m + n) = omega arith in
    rw e (walk-add size (next_index size i p) (p / 2 ^ 5) m n)

drain_word : (p : ℕ) → p < 2 ^ 32 → drain 7 p ≡ 0
unfolding drain
drain_word p h = omega arith

module _ (k : ℕ) (word : k < 32) where
  pub walk-lt : (i p m : ℕ) → i < 2 ^ k → walk (2 ^ k) i p m < 2 ^ k
  unfolding walk
  walk-lt i p zero h = h
  walk-lt i p (suc m) h =
      walk-lt (next_index (2 ^ k) i p) (p / 2 ^ 5) m (rw next_index-mod (mod-lt _ (two-pow-pos k)))

  walk-orbit : (n i : ℕ) → i < 2 ^ k → walk (2 ^ k) i 0 n ≡ orbit n i % 2 ^ k
  unfolding walk orbit
  walk-orbit zero i h = sym (mod-eq_of_lt h)
  walk-orbit (suc n) i h =
      let j : next_index (2 ^ k) i 0 ≡ (5 * i + 1) % 2 ^ k =
        next_index-mod k word i 0 ∙ ap (λ t. t % 2 ^ k) (omega arith) in
      rw j (
        walk-orbit n ((5 * i + 1) % 2 ^ k) (mod-lt _ (two-pow-pos k))
        ∙ orbit_mod (2 ^ k) n (5 * i + 1))

  -- Within as many steps as the table has entries, and seven more that use up the perturbation.
  pub walk_visits :
      (i p s : ℕ)
      → i < 2 ^ k
      → p < 2 ^ 32
      → s < 2 ^ k
      → (m : ℕ) × (m < 7 + 2 ^ k) × (walk (2 ^ k) i p m ≡ s)
  walk_visits i p s hi hp hs =
      let start = walk (2 ^ k) i p 7 in
      let (n, q, near, e) = orbit_cover k start s hs in
      (
        7 + n,
        omega arith,
        walk-add (2 ^ k) i p 7 n
            ∙ rw (drain_word p hp) (walk-orbit n start (walk-lt i p 7 hi))
            ∙ ap (λ t. t % 2 ^ k) e
            ∙ add-mul-mod_self_left s (2 ^ k) q
            ∙ mod-eq_of_lt hs,
      )

module _ {size k : ℕ} (word : k < 32) (e : size ≡ 2 ^ k) where
  pub next_index-lt : (i p : ℕ) → next_index size i p < 2 ^ k
  next_index-lt i p = rw (e, next_index-mod k word i p) (mod-lt _ (two-pow-pos k))

  -- The same facts of a size that is known to be a power of two.
  pub walk_inside : (i p m : ℕ) → i < 2 ^ k → walk size i p m < 2 ^ k
  walk_inside i p m h = rw e (walk-lt k word i p m h)

  pub walk_reaches :
      (i p s : ℕ)
      → i < 2 ^ k
      → p < 2 ^ 32
      → s < 2 ^ k
      → (m : ℕ) × (m < 7 + 2 ^ k) × (walk size i p m ≡ s)
  walk_reaches = rw e (walk_visits k word)
