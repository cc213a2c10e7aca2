-- ===== src/Dict/View.antt =====
-- The abstract view of a dictionary: a map from keys to values, found by looking at every entry
-- of the table, with no use of the hashes.
use librustyaxe.Prelude.{
  ℕ, zero, suc, ◌≡◌, refl, ◌≢◌, Option, none, some, List, [], ◌∷◌, arith, Bytes, get_or, bytes_eq,
  bytes_eq_sound, bytes_eq_refl, if◌then◌else◌, Bool-cases, inl, inr, ◌⊎◌,
}
use librustyaxe.Dict.Types.{Value, Dict, Key, unused, dummy, live, KeyPair, vacant}

unfoldable pub entry_value : Key → Value → Bytes → Option Value
entry_value (live k) v q = if bytes_eq k q then some v else none
entry_value _ v q = none

unfoldable pub first_some : Option Value → Option Value → Option Value
first_some (some v) rest = some v
first_some none rest = rest

unfoldable pub find_value : List KeyPair → Bytes → Option Value
unfolding entry_value first_some
find_value [] q = none
find_value (kp ∷ rest) q = first_some (entry_value kp.key kp.val q) (find_value rest q)

-- The value that a dictionary holds under a key.
unfoldable pub view : Dict → Bytes → Option Value
view d q = find_value d.table q

pub Key-live : (k : Key) (q : Bytes) → (k ≡ live q) ⊎ (k ≢ live q)
Key-live unused q = inr (λ e. ground arith)
Key-live dummy q = inr (λ e. ground arith)
Key-live (live k) q = elim (Bool-cases (bytes_eq k q)) [
  | inl same ↦ inl (ground (arith, bytes_eq_sound k q))
  | inr differs ↦ inr (λ e. ground (arith, bytes_eq_refl q))
]

pub entry_value_self : (k : Key) (v : Value) (q : Bytes) → k ≡ live q → entry_value k v q ≡ some v
unfolding entry_value
entry_value_self k v q e = ground (arith, bytes_eq_refl q)

pub entry_value-eq-none : (k : Key) (v : Value) (q : Bytes) → k ≢ live q → entry_value k v q ≡ none
unfolding entry_value
entry_value-eq-none unused v q h = refl
entry_value-eq-none dummy v q h = refl
entry_value-eq-none (live k) v q h = ground (arith, bytes_eq_sound k q)

-- No key stands in two entries.
abbrev pub IsUnique : List KeyPair → Type 0
IsUnique t =
    (s u : ℕ) (q : Bytes)
    → (get_or t s vacant).key ≡ live q
    → (get_or t u vacant).key ≡ live q
    → s ≡ u

pub find_value-eq-none :
    (t : List KeyPair) (q : Bytes)
    → ((s : ℕ) → (get_or t s vacant).key ≢ live q)
    → find_value t q ≡ none
unfolding find_value
find_value-eq-none [] q h = refl
find_value-eq-none (kp ∷ t) q h =
    ground
      (arith, entry_value-eq-none kp.key kp.val q (h 0), find_value-eq-none t q (λ s. h (suc s)))

pub find_value-eq-some :
    (t : List KeyPair) (q : Bytes) (s : ℕ)
    → IsUnique t
    → (get_or t s vacant).key ≡ live q
    → find_value t q ≡ some (get_or t s vacant).val
unfolding find_value
find_value-eq-some [] q s u e = ground arith
find_value-eq-some (kp ∷ t) q zero u e = ground (arith, entry_value_self kp.key kp.val q e)
find_value-eq-some (kp ∷ t) q (suc s) u e =
    let apart : kp.key ≢ live q = λ e₀. absurd (omega (arith, u 0 (suc s) q e₀ e)) in
    ground (
      arith,
      entry_value-eq-none kp.key kp.val q apart,
      find_value-eq-some t q s (λ a b k ea eb. omega (arith, u (suc a) (suc b) k ea eb)) e,
    )

pub find_value-inv :
    (t : List KeyPair) (q : Bytes) {v : Value}
    → find_value t q ≡ some v
    → (s : ℕ) × ((get_or t s vacant).key ≡ live q) × ((get_or t s vacant).val ≡ v)
unfolding find_value
find_value-inv [] q h = ground arith
find_value-inv (kp ∷ t) q {v} h = elim (Key-live kp.key q) [
  | inl e ↦ (0, e, ground (arith, entry_value_self kp.key kp.val q e))
  | inr ne ↦
      let rest : find_value t q ≡ some v = ground (arith, entry_value-eq-none kp.key kp.val q ne) in
      let (s, e, w) = find_value-inv t q rest in (suc s, e, w)
]
