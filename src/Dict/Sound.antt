-- ===== src/Dict/Sound.antt =====
-- The invariant of an open-addressing table, and what `dict_lookup` finds under it.
use librustyaxe.Prelude.{
  ℕ, suc, ◌+◌, ◌^◌, ◌≤◌, ◌<◌, ◌≡◌, sym, ◌∙◌, ◌≢◌, ◌⊎◌, inl, inr, true, false, none, some, arith,
  Bytes, if◌then◌else◌,
}
use native.Mathlib.Decide.{dec_lt}
use librustyaxe.Dict.Types.{Dict, unused, live, slot, is_live}
use librustyaxe.Dict.Hash.{dict_hash}
use librustyaxe.Dict.Hash.Bounds.{dict_hash-lt}
use librustyaxe.Dict.Lookup.{matches, dict_lookup}
use librustyaxe.Dict.Lookup.Scan.{
  walk, lookup_within-scan, Passed, scan-Stops, matches-live, live-matches,
}
use librustyaxe.Dict.Lookup.Visits.{walk_inside}
use librustyaxe.Dict.Lookup.Total.{IsSized, home, home-lt, dict_lookup_total}
use librustyaxe.Dict.View.{view, IsUnique, find_value-eq-none, find_value-eq-some}
use native.Mathlib.Nat.{pow-le-pow_right}

-- The `m`-th slot on the probe sequence of a key.
abbrev pub path : Dict → Bytes → ℕ → ℕ
path d q m = walk d.size (home d (dict_hash q)) (dict_hash q) m

-- The probe sequence of `q` comes to slot `s` before any unused entry.
pub record Reaches (d : Dict) (q : Bytes) (s : ℕ) : Type 0 where
  pub steps : ℕ
  pub arrives : path d q steps ≡ s
  pub filled : (j : ℕ) → j < steps → (slot d (path d q j)).key ≢ unused

-- Every key is in one entry only, with its hash, on its own probe sequence.
pub record IsSound (d : Dict) : Type 0 where
  pub bits : ℕ
  pub sized : IsSized d bits
  pub hashed : (s : ℕ) (q : Bytes) → (slot d s).key ≡ live q → (slot d s).hash ≡ dict_hash q
  pub reached : (s : ℕ) (q : Bytes) → (slot d s).key ≡ live q → Reaches d q s
  pub unique : IsUnique d.table

-- Some entry has never been used since the table was allocated.
abbrev pub HasUnused : Dict → Type 0
HasUnused d = (s : ℕ) × (s < d.size) × ((slot d s).key ≡ unused)

-- What a lookup returns: the entry of the key, or a free entry for it if the key has none.
pub record Finds (d : Dict) (key : Bytes) (r : ℕ) : Type 0 where
  pub inside : r < d.size
  pub reaches : Reaches d key r
  pub result :
      ((slot d r).key ≡ live key)
      ⊎ ((is_live (slot d r).key ≡ false) × ((s : ℕ) → (slot d s).key ≢ live key))

module _ {d : Dict} (sound : IsSound d) (key : Bytes) where
  -- A scan of the key's sequence that ends at an unused entry has missed no entry.
  absent_after :
      (m : ℕ)
      → ((j : ℕ) → j < m → Passed d key (dict_hash key) (path d key j))
      → (slot d (path d key m)).key ≡ unused
      → (s : ℕ) → (slot d s).key ≢ live key
  absent_after m passed end s e =
      let r = sound.reached s key e in
      let here = live-matches d key (dict_hash key) s e (sound.hashed s key e) in
      let there : matches (slot d (path d key r.steps)) key (dict_hash key) ≡ true =
        rw r.arrives here in
      elim (dec_lt r.steps m) [
        | yes early ↦ cc (there, (passed r.steps early).differs)
        | no late ↦ elim (dec_lt m r.steps) [
          | yes after ↦ r.filled m after end
          | no same ↦
              let at : r.steps ≡ m = omega arith in
              let at_s : path d key m ≡ s = rw at at r.arrives in cc (end, at_s)
        ]
      ]

  path-lt : (m : ℕ) → path d key m < d.size
  path-lt m =
      let z = sound.sized in
      let hash = dict_hash key in
      omega (arith, z.size, walk_inside z.word z.size (home d hash) hash m (home-lt z hash))

  -- A result of the lookup is the entry of the key, or a free entry if there is none.
  pub dict_lookup-Finds : {r : ℕ} → dict_lookup d key (dict_hash key) ≡ some r → Finds d key r
  unfolding dict_lookup
  dict_lookup-Finds {r} run =
      let st =
        scan-Stops d key (dict_hash key) (suc (d.size + 8)) (home d (dict_hash key)) (dict_hash key)
          none (sym (lookup_within-scan (d.size + 8) d key (dict_hash key)) ∙ run) in
      elim st.stop [
        | inl (same, at) ↦ record {
          inside = rw at (path-lt st.steps);
          reaches = record {
            steps = st.steps;
            arrives = sym at;
            filled = λ j lt. (st.passed j lt).filled;
          };
          result = inl (rw at (matches-live d key (dict_hash key) _ same));
        }
        | inr (end, inl old) ↦ absurd (ground arith)
        | inr (end, inr (n, le, at, free)) ↦ record {
          inside = rw at (path-lt n);
          reaches = record {
            steps = n;
            arrives = sym at;
            filled = λ j lt. (st.passed j (omega arith)).filled;
          };
          result = inr (free, absent_after st.steps st.passed end);
        }
      ]

  -- With an unused entry the lookup returns.
  pub dict_lookup-Finds_total :
      HasUnused d → (r : ℕ) × (dict_lookup d key (dict_hash key) ≡ some r) × Finds d key r
  dict_lookup-Finds_total (s, inside, e) =
      let z = sound.sized in
      let (r, run) =
        dict_lookup_total d key (dict_hash key) z (dict_hash-lt key) (omega (arith, z.size)) e in
      (r, run, dict_lookup-Finds run)

module _ {d : Dict} (sound : IsSound d) where
  pub size-le : d.size ≤ 2 ^ 31
  size-le =
      let z = sound.sized in
      let top : 2 ^ sound.bits ≤ 2 ^ 31 =
        pow-le-pow_right {n = 2} (omega arith) {i = sound.bits} {j = 31} (omega (arith, z.word)) in
      omega (arith, z.size)

  -- What the lookup found decides the view.
  pub view-found :
      {key : Bytes} {r : ℕ}
      → Finds d key r
      → view d key ≡ (if is_live (slot d r).key then some (slot d r).val else none)
  unfolding view
  view-found {key} {r} finds = elim finds.result [
    | inl here ↦ rw here (find_value-eq-some d.table key r sound.unique here)
    | inr (free, absent) ↦ rw free (find_value-eq-none d.table key absent)
  ]
