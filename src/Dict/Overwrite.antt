-- ===== src/Dict/Overwrite.antt =====
-- One entry of a sound table is replaced: by the entry of a key, or by a deleted one.
use librustyaxe.Prelude.{
  ℕ, ◌<◌, ◌≡◌, ap, ◌∙◌, ◌≢◌, inl, inr, none, some, arith, Bytes, set, get_or-set, length-set,
  Option-cases,
}
use native.Mathlib.Decide.{ℕ_discrete}
use librustyaxe.Dict.Types.{Dict, KeyPair, unused, live, vacant, slot}
use librustyaxe.Dict.Hash.{dict_hash}
use librustyaxe.Dict.View.{
  view, find_value, IsUnique, find_value-eq-none, find_value-eq-some, find_value-inv,
}
use librustyaxe.Dict.Sound.{path, Reaches, IsSound}

abbrev pub overwrite : Dict → ℕ → KeyPair → ℕ → ℕ → Dict
overwrite d r e u f = record d { table = set d.table r e; used = u; fill = f }

-- What the new entry at `r` must meet for a key that it holds.
pub record Fits (d : Dict) (r : ℕ) (e : KeyPair) (q : Bytes) : Type 0 where
  pub hash : e.hash ≡ dict_hash q
  pub reaches : Reaches d q r
  pub alone : (s : ℕ) → s ≢ r → (slot d s).key ≢ live q

module _ {d : Dict} (sound : IsSound d) (r : ℕ) (e : KeyPair) (u f : ℕ) (inside : r < d.size)
    (kept : e.key ≢ unused) (fits : (q : Bytes) → e.key ≡ live q → Fits d r e q) where
  slot_same : slot (overwrite d r e u f) r ≡ e
  slot_same =
      let z = sound.sized in ground (arith, get_or-set d.table r r e vacant, z.size, z.entries)

  slot_other : (s : ℕ) → s ≢ r → slot (overwrite d r e u f) s ≡ slot d s
  slot_other s ne =
      let z = sound.sized in ground (arith, get_or-set d.table r s e vacant, z.size, z.entries)

  held : {s : ℕ} {q : Bytes} → s ≡ r → (slot (overwrite d r e u f) s).key ≡ live q → e.key ≡ live q
  held {s} same es = rw (same, slot_same) at es

  kept_at :
      {s : ℕ} {q : Bytes}
      → s ≢ r
      → (slot (overwrite d r e u f) s).key ≡ live q
      → (slot d s).key ≡ live q
  kept_at {s} ne es = rw (slot_other s ne) at es

  -- An entry that was used stays used.
  still_used : (s : ℕ) → (slot d s).key ≢ unused → (slot (overwrite d r e u f) s).key ≢ unused
  still_used s h = elim (ℕ_discrete s r) [
    | yes same ↦ rw (same, slot_same) kept
    | no ne ↦ rw (slot_other s ne) h
  ]

  Reaches-overwrite : {q : Bytes} {s : ℕ} → Reaches d q s → Reaches (overwrite d r e u f) q s
  Reaches-overwrite {q} h = record {
    steps = h.steps;
    arrives = h.arrives;
    filled = λ j lt. still_used (path d q j) (h.filled j lt);
  }

  overwrite-IsUnique : IsUnique (overwrite d r e u f).table
  overwrite-IsUnique s t q es et = elim (ℕ_discrete s r) [
    | yes s_r ↦ elim (ℕ_discrete t r) [
      | yes t_r ↦ omega arith
      | no t_ne ↦ absurd ((fits q (held s_r es)).alone t t_ne (kept_at t_ne et))
    ]
    | no s_ne ↦ elim (ℕ_discrete t r) [
      | yes t_r ↦ absurd ((fits q (held t_r et)).alone s s_ne (kept_at s_ne es))
      | no t_ne ↦ sound.unique s t q (kept_at s_ne es) (kept_at t_ne et)
    ]
  ]

  pub overwrite-IsSound : IsSound (overwrite d r e u f)
  overwrite-IsSound =
      let z = sound.sized in
      record {
        bits = sound.bits;
        sized = record {
          word = z.word;
          size = z.size;
          entries = length-set d.table r e ∙ z.entries;
        };
        hashed = λ s q es. elim (ℕ_discrete s r) [
          | yes same ↦ rw (same, slot_same) (fits q (held same es)).hash
          | no ne ↦ rw (slot_other s ne) (sound.hashed s q (kept_at ne es))
        ];
        reached = λ s q es. elim (ℕ_discrete s r) [
          | yes same ↦ Reaches-overwrite (rw same (fits q (held same es)).reaches)
          | no ne ↦ Reaches-overwrite (sound.reached s q (kept_at ne es))
        ];
        unique = overwrite-IsUnique;
      }

  -- The key of the new entry reads as its value.
  pub view-overwrite_self : (q : Bytes) → e.key ≡ live q → view (overwrite d r e u f) q ≡ some e.val
  unfolding view
  view-overwrite_self q h =
      find_value-eq-some (set d.table r e) q r overwrite-IsUnique (rw slot_same h)
      ∙ ap (λ kp. some kp.val) slot_same

  -- A key that stands neither in the old entry nor in the new one keeps its value.
  pub view-overwrite_other :
      (q : Bytes)
      → e.key ≢ live q
      → (slot d r).key ≢ live q
      → view (overwrite d r e u f) q ≡ view d q
  unfolding view
  view-overwrite_other q new old = elim (Option-cases (find_value d.table q)) [
    | inl absent ↦ rw absent (
        find_value-eq-none (set d.table r e) q λ s es. elim (ℕ_discrete s r) [
          | yes same ↦ new (held same es)
          | no ne ↦ cc (absent, find_value-eq-some d.table q s sound.unique (kept_at ne es))
        ])
    | inr (v, found) ↦
        let (s, es, val) = find_value-inv d.table q found in
        let ne : s ≢ r = λ same. old (rw same at es) in
        rw (found, ← val)
          (find_value-eq-some (set d.table r e) q s overwrite-IsUnique (rw (slot_other s ne) es)
            ∙ ap (λ kp. some kp.val) (slot_other s ne))
  ]

  -- A key whose only entry was replaced is gone.
  pub view-overwrite_gone :
      (q : Bytes) → e.key ≢ live q → (slot d r).key ≡ live q → view (overwrite d r e u f) q ≡ none
  unfolding view
  view-overwrite_gone q new old = find_value-eq-none (set d.table r e) q λ s es.
      elim (ℕ_discrete s r) [
        | yes same ↦ new (held same es)
        | no ne ↦ ne (sound.unique s r q (kept_at ne es) old)
      ]
