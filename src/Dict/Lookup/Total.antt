-- ===== src/Dict/Lookup/Total.antt =====
-- When `dict_lookup` returns, and when its loop runs forever.
use native.Mathlib.Nat.{mod-lt}
use librustyaxe.Prelude.{
  ℕ, zero, suc, ◌+◌, ◌/◌, ◌^◌, ◌<◌, ◌≡◌, refl, ◌∙◌, ◌≢◌, inl, inr, false, Option, none, some, arith,
  bit_and, dec32, Bytes, length, two-pow-pos, Bool-cases, bytes_eq_sound,
}
use librustyaxe.Dict.Types.{Dict, Key-cases, unused, live, slot}
use librustyaxe.Dict.Lookup.{matches, or_index, next_index, lookup_within, dict_lookup}
use librustyaxe.Dict.Lookup.Scan.{
  walk, scan, lookup_within-scan, scan_unused, scan_dummy, scan_found, scan_taken,
}
use librustyaxe.Dict.Lookup.Visits.{mask-mod, next_index-lt, walk_reaches}

-- The size is a power of two below 2 ^ 32, and the table has as many entries.
pub record IsSized (d : Dict) (k : ℕ) : Type 0 where
  pub word : k < 32
  pub size : d.size ≡ 2 ^ k
  pub entries : length d.table ≡ 2 ^ k

-- Where the probe sequence of a hash begins.
abbrev pub home : Dict → ℕ → ℕ
home d hash = bit_and hash (dec32 d.size)

pub home-lt : {d : Dict} {k : ℕ} → IsSized d k → (hash : ℕ) → home d hash < 2 ^ k
home-lt {k = k} sized hash =
    rw (sized.size, mask-mod k sized.word hash) (mod-lt hash (two-pow-pos k))

module _ (d : Dict) (key : Bytes) (hash : ℕ) where
  -- A scan that can reach an unused entry ends there at the latest.
  scan_ends :
      (fuel m i p : ℕ) (free : Option ℕ)
      → m < fuel
      → (slot d (walk d.size i p m)).key ≡ unused
      → (r : ℕ) × (scan fuel d key hash i p free ≡ some r)
  unfolding walk
  scan_ends zero m i p free lt e = absurd (omega arith)
  scan_ends (suc fuel) zero i p free lt e =
      (or_index free i, scan_unused d key hash fuel i p free e)
  scan_ends (suc fuel) (suc m) i p free lt e = elim (Key-cases (slot d i).key) [
    | inl u ↦ (or_index free i, scan_unused d key hash fuel i p free u)
    | inr (inl u) ↦
        let (r, run) =
          scan_ends fuel m (next_index d.size i p) (p / 2 ^ 5) (some (or_index free i))
            (omega arith) e in
        (r, scan_dummy d key hash fuel i p free u ∙ run)
    | inr (inr (b, u)) ↦ elim (Bool-cases (matches (slot d i) key hash)) [
      | inl same ↦ (i, scan_found d key hash fuel i p free same)
      | inr differs ↦
          let (r, run) =
            scan_ends fuel m (next_index d.size i p) (p / 2 ^ 5) free (omega arith) e in
          (r, scan_taken d key hash fuel i p free (rw u) differs ∙ run)
    ]
  ]

  -- With an unused entry anywhere in the table the lookup of any key returns.
  pub dict_lookup_total :
      {k s : ℕ}
      → IsSized d k
      → hash < 2 ^ 32
      → s < 2 ^ k
      → (slot d s).key ≡ unused
      → (r : ℕ) × (dict_lookup d key hash ≡ some r)
  unfolding dict_lookup
  dict_lookup_total {k} {s} sized word inside e =
      let (m, near, at) =
        walk_reaches sized.word sized.size (home d hash) hash s (home-lt sized hash) word inside in
      let (r, run) =
        scan_ends (suc (d.size + 8)) m (home d hash) hash none (omega (arith, sized.size))
          (rw at e) in
      (r, lookup_within-scan (d.size + 8) d key hash ∙ run)

  module _ {k : ℕ} (sized : IsSized d k) (full : (s : ℕ) → s < 2 ^ k → (slot d s).key ≢ unused)
      (absent : (s : ℕ) → s < 2 ^ k → (slot d s).key ≢ live key) where
    no_match : (s : ℕ) → s < 2 ^ k → matches (slot d s) key hash ≡ false
    unfolding matches
    no_match s lt = elim (Key-cases (slot d s).key) [
      | inl e ↦ ground arith
      | inr (inl e) ↦ ground arith
      | inr (inr (b, e)) ↦ ground (arith, absent s lt, bytes_eq_sound b key)
    ]

    scan_stuck : (fuel i p : ℕ) (free : Option ℕ) → i < 2 ^ k → scan fuel d key hash i p free ≡ none
    unfolding scan
    scan_stuck zero i p free h = refl
    scan_stuck (suc fuel) i p free h =
        let j = next_index d.size i p in
        let inside = next_index-lt sized.word sized.size i p in
        ground (
          arith,
          full i h,
          no_match i h,
          scan_stuck fuel j (p / 2 ^ 5) free inside,
          scan_stuck fuel j (p / 2 ^ 5) (some (or_index free i)) inside,
        )

    -- Without one, the lookup of a key that is not in the table never returns, whatever the fuel.
    pub dict_lookup_stuck : (fuel : ℕ) → lookup_within fuel d key hash ≡ none
    dict_lookup_stuck fuel =
        lookup_within-scan fuel d key hash
        ∙ scan_stuck (suc fuel) (home d hash) hash none (home-lt sized hash)
