-- ===== src/Dict/Tidy.antt =====
-- Tables without deleted entries: `dict_store` keeps one never-used entry in them.
use librustyaxe.Prelude.{
  ℕ, zero, suc, ◌+◌, ◌*◌, ◌^◌, ◌≤◌, ◌<◌, ◌≡◌, refl, sym, ap, ◌∙◌, ◌⊎◌, inl, inr, Bool, true, false,
  none, some, List, [], ◌∷◌, arith, wrap32, inc32, ◌==◌, leb, Bool-cases, Option-cases, some-pair,
  if-cases, >>=-eq-some, if◌then◌else◌, not,
}
use librustyaxe.Dict.Types.{Dict, KeyPair, Key-cases, is_live, done, failed}
use librustyaxe.Dict.Hash.{dict_hash}
use librustyaxe.Dict.Lookup.{dict_lookup}
use librustyaxe.Dict.Counts.{one_live, weigh, unused_count, live-unused-le, live-le}
use librustyaxe.Dict.Commit.{dict_add_p_found, dict_add_p_stuck, new_entry}
use librustyaxe.Dict.Sound.{size-le}
use librustyaxe.Dict.Overwrite.{overwrite}
use librustyaxe.Dict.Move.{move_skip, move_next, live_weight, free_weight}
use librustyaxe.Dict.Resize.{IsDict, Resized, dict_resize_total, fresh}
use librustyaxe.Dict.Grow.{grow_size-pow}
use librustyaxe.Dict.Store.{
  grow_size, growth_factor, move_entries, dict_add_p, dict_resize, dict_new,
}

-- The moved entries are counted.
move_stuck :
    (kp : KeyPair) (rest : List KeyPair) (n old : Dict)
    → is_live kp.key ≡ true
    → dict_add_p n kp ≡ none
    → move_entries (kp ∷ rest) n old ≡ none
unfolding move_entries
move_stuck kp rest n old e lost = ground arith

counts_free :
    (kp : KeyPair) (rest : List KeyPair) (n d' : Dict)
    → is_live kp.key ≡ false
    → (d'.used ≡ n.used + weigh one_live rest)
      × (d'.fill ≡ n.fill + weigh one_live rest)
      × (d'.size ≡ n.size)
    → (d'.used ≡ n.used + weigh one_live (kp ∷ rest))
      × (d'.fill ≡ n.fill + weigh one_live (kp ∷ rest))
      × (d'.size ≡ n.size)
counts_free kp rest n d' e (u, f, z) =
    let w = free_weight kp rest e in (omega (arith, u, w), omega (arith, f, w), z)

move_nil : (n old : Dict) → move_entries [] n old ≡ some (done, n)
unfolding move_entries
move_nil n old = refl

no_weight : weigh one_live [] ≡ 0
unfolding weigh
no_weight = refl

move-counts :
    (rest : List KeyPair) (n old : Dict) {d' : Dict}
    → n.used + weigh one_live rest < 2 ^ 32
    → n.fill + weigh one_live rest < 2 ^ 32
    → move_entries rest n old ≡ some (done, d')
    → (d'.used ≡ n.used + weigh one_live rest)
      × (d'.fill ≡ n.fill + weigh one_live rest)
      × (d'.size ≡ n.size)
move-counts [] n old {d'} h k run =
    let (ok, same) = some-pair (sym (move_nil n old) ∙ run) in
    (rw (← same) (omega (arith, no_weight)), rw (← same) (omega (arith, no_weight)), rw same)
move-counts (kp ∷ rest) n old {d'} h k run = elim (Key-cases kp.key) [
  | inl e ↦
      let w = free_weight kp rest (rw e) in
      counts_free kp rest n d' (rw e) (
        move-counts rest n old (omega (arith, w)) (omega (arith, w))
          (sym (move_skip kp rest n old (rw e)) ∙ run))
  | inr (inl e) ↦
      let w = free_weight kp rest (rw e) in
      counts_free kp rest n d' (rw e) (
        move-counts rest n old (omega (arith, w)) (omega (arith, w))
          (sym (move_skip kp rest n old (rw e)) ∙ run))
  | inr (inr (b, e)) ↦
      let w = live_weight kp rest (rw e) in
      elim (Option-cases (dict_lookup n b (dict_hash b))) [
        | inl lost ↦
            let stuck = move_stuck kp rest n old (rw e) (dict_add_p_stuck n kp e lost) in
            absurd (cc (stuck, run))
        | inr (r, found) ↦
            let next = move_next kp rest n old (rw e) (dict_add_p_found n kp e found) in
            let (u, f, z) =
              move-counts rest (overwrite n r (new_entry b kp.val) (inc32 n.used) (inc32 n.fill))
                old (omega (arith, w)) (omega (arith, w)) (sym next ∙ run) in
            (omega (arith, u, w), omega (arith, f, w), z)
      ]
]

-- No entry is deleted, each that is not new has been counted in `fill`, and the table is no smaller
-- than that of a new dictionary.
pub record IsTidy (d : Dict) : Type 0 where
  pub good : IsDict d
  pub full : unused_count d + d.used ≡ d.size
  pub filled : d.used ≤ d.fill
  pub large : 8 ≤ d.size

-- The size that a resize chooses is the old one, or less than twice the bound.
grow_size-le :
    (fuel bound n : ℕ) {m : ℕ} → grow_size fuel bound n ≡ some m → (m ≡ n) ⊎ (m ≤ 2 * bound)
unfolding grow_size
grow_size-le zero bound n run = absurd (ground arith)
grow_size-le (suc fuel) bound n {m} run = elim (Bool-cases (leb n bound)) [
  | inr big ↦ inl (ground arith)
  | inl small ↦
      let next : grow_size fuel bound (wrap32 (n * 2)) ≡ some m = ground arith in
      elim (grow_size-le fuel bound (wrap32 (n * 2)) next) [
        | inl e ↦ inr (ground (arith, e))
        | inr le ↦ inr le
      ]
]

pub dict_new-IsTidy : IsDict dict_new → IsTidy dict_new
unfolding dict_new weigh
dict_new-IsTidy good = record {
  good = good;
  full = refl;
  filled = omega arith;
  large = omega arith;
}

-- A resize that has succeeded: more than half of the table is free.
pub record Roomy (d d' : Dict) : Type 0 where
  pub tidy : IsTidy d'
  pub half : 2 * d'.used < d'.size
  pub fill_le : d'.fill ≤ d.fill
  pub used_same : d'.used ≡ d.used

module _ (d : Dict) (tidy : IsTidy d) (few : d.used ≤ 2 ^ 26) (pos : 0 < unused_count d) where
  bound_le :
      (2 * d.used ≤ wrap32 (growth_factor d.size * d.used))
      × (wrap32 (growth_factor d.size * d.used) ≤ 2 ^ 28)
  unfolding growth_factor
  bound_le = ground (arith, few)

  -- The table is kept, since it has room.
  stays : {d' : Dict} → d ≡ d' → 2 * d.used < d.size → Roomy d d'
  stays same half =
      rw (← same) (record { tidy = tidy; half = half; fill_le = omega arith; used_same = refl })

  -- The entries are moved.
  goes :
      {d' : Dict} {m : ℕ}
      → Resized d d'
      → move_entries d.table (fresh m) d ≡ some (done, d')
      → 2 * d.used < m
      → m ≤ 2 ^ 30
      → Roomy d d'
  goes {d'} {m} resized run half small =
      let z = resized.sound.sized in
      let counted = tidy.good.counted in
      let words = size-le tidy.good.sound in
      let most = live-le d.table in
      let zd = tidy.good.sound.sized in
      let (u, f, size) = move-counts d.table (fresh m) d (omega arith) (omega arith) run in
      let spare = resized.spare (omega (arith, tidy.full, counted)) in
      let above = live-unused-le d'.table in
      record {
        tidy = record {
          good = record {
            sound = resized.sound;
            counted = resized.counted;
            small = omega (arith, size);
          };
          full = omega (arith, u, size, spare, above, counted, resized.counted, z.size, z.entries);
          filled = omega (arith, u, f);
          large = omega (arith, resized.grows, tidy.large);
        };
        half = omega (arith, u, size, counted);
        fill_le = omega (arith, f, counted, tidy.filled);
        used_same = omega (arith, u, counted);
      }

  pub resize-Roomy :
      (granted : Bool) {d' : Dict} → dict_resize granted d ≡ some (done, d') → Roomy d d'
  unfolding dict_resize
  resize-Roomy granted {d'} run =
      let bound = wrap32 (growth_factor d.size * d.used) in
      let z = tidy.good.sound.sized in
      let (status, d₁, run₁, kept, ok, same₁) = dict_resize_total d tidy.good pos granted in
      let (st, same) = some-pair (sym run₁ ∙ run) in
      let resized : Resized d d' = rw same at kept in
      let (m, grown, run₂) = >>=-eq-some (grow_size 33 bound d.size) _ run in
      let (j, word, e, above, more) =
        grow_size-pow 33 bound tidy.good.sound.bits z.word
          (ap (grow_size 33 bound) (sym z.size) ∙ grown) in
      let moves = if not granted then some (failed, d) else move_entries d.table (fresh m) d in
      elim (if-cases (m == d.size) (some (done, d)) moves run₂) [
        | inl (equal, end) ↦
            let as_large : m ≡ d.size = ground arith in
            stays (some-pair end).1 (omega (arith, above, as_large, bound_le.0))
        | inr (differs, go) ↦
            elim (if-cases (not granted) (some (failed, d)) (move_entries d.table (fresh m) d) go) [
              | inl (denied, end) ↦ let (no_end, x) = some-pair end in absurd (cc no_end)
              | inr (given, moved) ↦
                  let fits : m ≤ 2 ^ 30 = elim (grow_size-le 33 bound d.size grown) [
                    | inl as_large ↦ omega (arith, tidy.good.small)
                    | inr le ↦ omega (arith, bound_le.1)
                  ] in
                  goes resized moved (omega (arith, above, bound_le.0)) fits
            ]
      ]
