-- ===== src/Dict/Lookup/Scan.antt =====
-- The loop of `dict_lookup` as a scan of the probe sequence, whose slots do not depend on the table.
use librustyaxe.Prelude.{
  ℕ, zero, suc, ◌/◌, ◌^◌, ◌≤◌, ◌<◌, ◌≡◌, refl, sym, ap, ◌≢◌, ◌⊎◌, inl, inr, true, false, Option,
  none, some, bit_and, dec32, arith, if◌then◌else◌, Bytes, Bool-cases, bytes_eq_sound,
  bytes_eq_refl,
}
use librustyaxe.Dict.Types.{Dict, Key-cases, unused, dummy, live, slot, is_live}
use librustyaxe.Dict.Lookup.{matches, next_index, or_index, probe, lookup_within}

pub matches-live :
    (d : Dict) (key : Bytes) (hash s : ℕ)
    → matches (slot d s) key hash ≡ true
    → (slot d s).key ≡ live key
unfolding matches
matches-live d key hash s h = elim (Key-cases (slot d s).key) [
  | inl e ↦ ground arith
  | inr (inl e) ↦ ground arith
  | inr (inr (b, e)) ↦ ground (arith, bytes_eq_sound b key)
]

pub live-matches :
    (d : Dict) (key : Bytes) (hash s : ℕ)
    → (slot d s).key ≡ live key
    → (slot d s).hash ≡ hash
    → matches (slot d s) key hash ≡ true
unfolding matches
live-matches d key hash s e h = ground (arith, bytes_eq_refl key)

-- The slot that is inspected after `m` steps from slot `i` with perturbation `p`.
unfoldable pub walk : ℕ → ℕ → ℕ → ℕ → ℕ
walk size i p zero = i
walk size i p (suc m) = walk size (next_index size i p) (p / 2 ^ 5) m

-- `probe` that inspects slot `i` first.
unfoldable pub scan : ℕ → Dict → Bytes → ℕ → ℕ → ℕ → Option ℕ → Option ℕ
scan zero d key hash i p free = none
scan (suc fuel) d key hash i p free =
    let j = next_index d.size i p in
    let taken = scan fuel d key hash j (p / 2 ^ 5) free in
    let skipped = scan fuel d key hash j (p / 2 ^ 5) (some (or_index free i)) in
    elim (slot d i).key [
      | unused ↦ some (or_index free i)
      | dummy ↦ skipped
      | live k ↦ if matches (slot d i) key hash then some i else taken
    ]

probe-scan :
    (fuel : ℕ) (d : Dict) (key : Bytes) (hash i p : ℕ) (free : Option ℕ)
    → probe fuel d key hash i p free ≡ scan fuel d key hash (next_index d.size i p) (p / 2 ^ 5) free
unfolding probe scan
probe-scan zero d key hash i p free = refl
probe-scan (suc fuel) d key hash i p free =
    let j = next_index d.size i p in
    let q = p / 2 ^ 5 in
    ground (
      arith,
      probe-scan fuel d key hash j q free,
      probe-scan fuel d key hash j q (some (or_index free j)),
    )

pub lookup_within-scan :
    (fuel : ℕ) (d : Dict) (key : Bytes) (hash : ℕ)
    → lookup_within fuel d key hash
      ≡ scan (suc fuel) d key hash (bit_and hash (dec32 d.size)) hash none
unfolding lookup_within scan
lookup_within-scan fuel d key hash =
    let i = bit_and hash (dec32 d.size) in
    ground
      (arith, probe-scan fuel d key hash i hash none, probe-scan fuel d key hash i hash (some i))

-- An entry over which the scan goes on.
pub record Passed (d : Dict) (key : Bytes) (hash s : ℕ) : Type 0 where
  pub filled : (slot d s).key ≢ unused
  pub differs : matches (slot d s) key hash ≡ false

-- Where a finished scan has stopped: at step `m`, after passing all earlier slots, at the entry of
-- the key, or at an unused entry, with the first free slot as the result.
pub record Stops (d : Dict) (key : Bytes) (hash i p : ℕ) (free : Option ℕ) (r : ℕ) : Type 0 where
  pub steps : ℕ
  pub passed : (j : ℕ) → j < steps → Passed d key hash (walk d.size i p j)
  pub stop :
      ((matches (slot d (walk d.size i p steps)) key hash ≡ true) × (r ≡ walk d.size i p steps))
      ⊎ (((slot d (walk d.size i p steps)).key ≡ unused)
          × ((free ≡ some r)
              ⊎ ((n : ℕ) × (n ≤ steps)
                  × (r ≡ walk d.size i p n)
                  × (is_live (slot d r).key ≡ false))))

module _ (d : Dict) (key : Bytes) (hash : ℕ) where
  -- One more step in front of a finished scan.
  Stops-step :
      {i p : ℕ} {free : Option ℕ} {r : ℕ}
      → Passed d key hash i
      → Stops d key hash (next_index d.size i p) (p / 2 ^ 5) free r
      → Stops d key hash i p free r
  unfolding walk
  Stops-step {i} {p} {free} {r} pass st = record {
    steps = suc st.steps;
    passed = before;
    stop = elim st.stop [
      | inl found ↦ inl found
      | inr (end, inl old) ↦ inr (end, inl old)
      | inr (end, inr (n, le, at, vacant)) ↦ inr (end, inr (suc n, omega arith, at, vacant))
    ];
  }
    where
      before : (j : ℕ) → j < suc st.steps → Passed d key hash (walk d.size i p j)
      before zero h = pass
      before (suc j) h = st.passed j (omega arith)

  -- After a deleted entry the scan goes on with a free slot.
  Stops-dummy :
      {i p : ℕ} (free : Option ℕ) {r : ℕ}
      → (slot d i).key ≡ dummy
      → Passed d key hash i
      → Stops d key hash (next_index d.size i p) (p / 2 ^ 5) (some (or_index free i)) r
      → Stops d key hash i p free r
  unfolding walk
  Stops-dummy {i} {p} none {r} e pass st =
      let s = Stops-step pass st in
      record {
        steps = s.steps;
        passed = s.passed;
        stop = elim s.stop [
          | inl found ↦ inl found
          | inr (end, inl old) ↦ inr (end, inr (0, omega arith, ground arith, ground arith))
          | inr (end, inr later) ↦ inr (end, inr later)
        ];
      }
  Stops-dummy (some f) e pass st = Stops-step pass st

  -- The four ways in which one round of the scan goes.
  module _ (fuel i p : ℕ) (free : Option ℕ) where
    pub scan_unused :
        (slot d i).key ≡ unused → scan (suc fuel) d key hash i p free ≡ some (or_index free i)
    unfolding scan
    scan_unused e = ground arith

    pub scan_dummy :
        (slot d i).key ≡ dummy
        → scan (suc fuel) d key hash i p free
          ≡ scan fuel d key hash (next_index d.size i p) (p / 2 ^ 5) (some (or_index free i))
    unfolding scan
    scan_dummy e = ground arith

    pub scan_found :
        matches (slot d i) key hash ≡ true → scan (suc fuel) d key hash i p free ≡ some i
    unfolding scan matches
    scan_found e = ground arith

    pub scan_taken :
        is_live (slot d i).key ≡ true
        → matches (slot d i) key hash ≡ false
        → scan (suc fuel) d key hash i p free
          ≡ scan fuel d key hash (next_index d.size i p) (p / 2 ^ 5) free
    unfolding scan
    scan_taken e no_match = ground arith

  -- An unused entry ends the scan with the first free slot.
  Stops-unused :
      {i p : ℕ} (free : Option ℕ) {r : ℕ}
      → (slot d i).key ≡ unused
      → or_index free i ≡ r
      → Stops d key hash i p free r
  unfolding walk
  Stops-unused none e same = record {
    steps = 0;
    passed = λ j lt. absurd (omega arith);
    stop = inr (e, inr (0, omega arith, sym same, rw (← same) (ground arith)));
  }
  Stops-unused (some f) e same = record {
    steps = 0;
    passed = λ j lt. absurd (omega arith);
    stop = inr (e, inl (ap some same));
  }

  Stops-found :
      {i p : ℕ} (free : Option ℕ) {r : ℕ}
      → matches (slot d i) key hash ≡ true
      → i ≡ r
      → Stops d key hash i p free r
  unfolding walk
  Stops-found free e same = record {
    steps = 0;
    passed = λ j lt. absurd (omega arith);
    stop = inl (e, sym same);
  }

  pub scan-Stops :
      (fuel i p : ℕ) (free : Option ℕ) {r : ℕ}
      → scan fuel d key hash i p free ≡ some r
      → Stops d key hash i p free r
  unfolding scan matches
  scan-Stops zero i p free h = absurd (ground arith)
  scan-Stops (suc fuel) i p free h = elim (Key-cases (slot d i).key) [
    | inl e ↦ Stops-unused free e (ground arith)
    | inr (inl e) ↦
        Stops-dummy free e (record { filled = ground arith; differs = ground arith })
          (scan-Stops fuel _ _ _ (ground arith))
    | inr (inr (b, e)) ↦ elim (Bool-cases (matches (slot d i) key hash)) [
      | inl same ↦ Stops-found free same (ground arith)
      | inr differs ↦
          Stops-step (record { filled = ground arith; differs = differs })
            (scan-Stops fuel _ _ _ (ground arith))
    ]
  ]
