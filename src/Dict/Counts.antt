-- ===== src/Dict/Counts.antt =====
-- How many entries of a table are live, and how many are unused.
use librustyaxe.Prelude.{
  ℕ, zero, suc, ◌+◌, ◌≤◌, ◌<◌, ◌≡◌, refl, List, [], ◌∷◌, arith, get_or, set, length, replicate,
}
use librustyaxe.Dict.Types.{Dict, Key, Key-cases, unused, live, KeyPair, vacant}
use librustyaxe.Prelude.{inl, inr}

abbrev pub one_live : Key → ℕ
one_live (live k) = 1
one_live _ = 0

abbrev pub one_unused : Key → ℕ
one_unused unused = 1
one_unused _ = 0

-- The sum of a weight of the keys over a table.
unfoldable pub weigh : (Key → ℕ) → List KeyPair → ℕ
weigh w [] = 0
weigh w (kp ∷ t) = w kp.key + weigh w t

abbrev pub live_count : Dict → ℕ
live_count d = weigh one_live d.table

abbrev pub unused_count : Dict → ℕ
unused_count d = weigh one_unused d.table

pub weigh-set :
    (w : Key → ℕ) (t : List KeyPair) (i : ℕ) (e : KeyPair)
    → i < length t
    → weigh w (set t i e) + w (get_or t i vacant).key ≡ weigh w t + w e.key
unfolding weigh
weigh-set w [] i e h = absurd (omega arith)
weigh-set w (kp ∷ t) zero e h = omega arith
weigh-set w (kp ∷ t) (suc i) e h = omega (arith, weigh-set w t i e (omega arith))

pub weigh-le : (w : Key → ℕ) → ((k : Key) → w k ≤ 1) → (t : List KeyPair) → weigh w t ≤ length t
unfolding weigh
weigh-le w h [] = omega arith
weigh-le w h (kp ∷ t) = omega (arith, h kp.key, weigh-le w h t)

pub live-le : (t : List KeyPair) → weigh one_live t ≤ length t
live-le = weigh-le one_live λ k. ground arith

pub weigh-get_or-le :
    (w : Key → ℕ) (t : List KeyPair) (i : ℕ) → i < length t → w (get_or t i vacant).key ≤ weigh w t
unfolding weigh
weigh-get_or-le w [] i h = absurd (omega arith)
weigh-get_or-le w (kp ∷ t) zero h = omega arith
weigh-get_or-le w (kp ∷ t) (suc i) h = omega (arith, weigh-get_or-le w t i (omega arith))

pub live-unused-le : (t : List KeyPair) → weigh one_live t + weigh one_unused t ≤ length t
unfolding weigh
live-unused-le [] = omega arith
live-unused-le (kp ∷ t) = ground (arith, live-unused-le t)

-- A positive count of unused entries is an unused entry.
pub unused_exists :
    (t : List KeyPair)
    → 0 < weigh one_unused t
    → (s : ℕ) × (s < length t) × ((get_or t s vacant).key ≡ unused)
unfolding weigh
unused_exists [] h = absurd (omega arith)
unused_exists (kp ∷ t) h = elim (Key-cases kp.key) [
  | inl e ↦ (0, omega arith, e)
  | inr (inl e) ↦ let (s, lt, at) = unused_exists t (ground arith) in (suc s, omega arith, at)
  | inr (inr (b, e)) ↦ let (s, lt, at) = unused_exists t (ground arith) in (suc s, omega arith, at)
]

pub weigh-replicate : (n : ℕ) → weigh one_unused (replicate n vacant) ≡ n
unfolding weigh
weigh-replicate zero = refl
weigh-replicate (suc n) = omega (arith, weigh-replicate n)

pub live-replicate : (n : ℕ) → weigh one_live (replicate n vacant) ≡ 0
unfolding weigh
live-replicate zero = refl
live-replicate (suc n) = omega (arith, live-replicate n)

module _ (w : Key → ℕ) (kp : KeyPair) (t : List KeyPair) where
  pub weigh-cons : weigh w (kp ∷ t) ≡ w kp.key + weigh w t
  unfolding weigh
  weigh-cons = refl
