-- ===== src/Dict/Room.antt =====
-- `dict_store` into a table without deleted entries: it leaves such a table, with a never-used entry.
use librustyaxe.Prelude.{
  ℕ, zero, suc, ◌+◌, ◌*◌, ◌^◌, ◌≤◌, ◌<◌, ◌≡◌, refl, sym, ap, ◌∙◌, inl, inr, true, false, Option,
  some, List, [], ◌∷◌, arith, Bytes, wrap32, inc32, Bool-cases, some-pair, if-cases, ◌>>=◌,
  >>=-eq-some, not, ◌&&◌, length, get_or,
}
use librustyaxe.Dict.Types.{Value, Dict, KeyPair, Key, vacant, slot, is_live, Status, done, failed}
use librustyaxe.Dict.Hash.{dict_hash}
use librustyaxe.Dict.Lookup.{dict_lookup}
use librustyaxe.Dict.Counts.{one_live, one_unused, weigh, live_count, unused_count, live-unused-le}
use librustyaxe.Dict.Sound.{Finds, size-le, dict_lookup-Finds}
use librustyaxe.Dict.Commit.{commit-overwrite, new_entry, weigh_old, commit-counted, commit-Stored}
use librustyaxe.Dict.Resize.{dict_resize_total}
use librustyaxe.Dict.Tidy.{IsTidy, Roomy, resize-Roomy}
use librustyaxe.Dict.Store.{Alloc, copies_string, is_crowded, commit, dict_resize, dict_store}

-- Where all entries are live or never used, each is one or the other.
no_dummy :
    (t : List KeyPair) (i : ℕ)
    → weigh one_live t + weigh one_unused t ≡ length t
    → i < length t
    → one_live (get_or t i vacant).key + one_unused (get_or t i vacant).key ≡ 1
unfolding weigh
no_dummy [] i e h = absurd (omega arith)
no_dummy (kp ∷ t) zero e h = ground (arith, live-unused-le t)
no_dummy (kp ∷ t) (suc i) e h = no_dummy t i (ground (arith, live-unused-le t)) (omega arith)

commit-fill :
    (d : Dict) (r : ℕ) (key : Bytes) (val : Value)
    → one_live (slot d r).key + one_unused (slot d r).key ≡ 1
    → (commit d r key val).fill ≡ inc32 d.fill
unfolding commit
commit-fill d r key val h = ground arith

-- The entry that is written was the key's, or one that was never used.
pub record Kept (d d' : Dict) : Type 0 where
  pub tidy : IsTidy d'
  pub room : 0 < unused_count d'
  pub fill_le : d'.fill ≤ d.fill + 1
  pub used_le : d'.used ≤ d.used + 1

commit-Kept :
    (d : Dict) (tidy : IsTidy d) (key : Bytes) (val : Value) {r : ℕ}
    → Finds d key r
    → d.fill < 2 ^ 31
    → one_unused (slot d r).key < unused_count d
    → Kept d (commit d r key val)
commit-Kept d tidy key val {r} finds low room =
    let z = tidy.good.sound.sized in
    let inside : r < length d.table = omega (arith, finds.inside, z.size, z.entries) in
    let e = new_entry key val in
    let table = commit-overwrite d r key val in
    let one =
      no_dummy d.table r (omega (arith, tidy.full, tidy.good.counted, z.size, z.entries)) inside in
    let lives = weigh_old tidy.good.sound finds val one_live e in
    let frees = weigh_old tidy.good.sound finds val one_unused e in
    let counted = commit-counted val tidy.good.sound finds tidy.good.counted in
    let fill = commit-fill d r key val one in
    let stored = commit-Stored val tidy.good.sound finds in
    let live_after = ap (λ (t : Dict). live_count t) table in
    let unused_after = ap (λ (t : Dict). unused_count t) table in
    let small = size-le tidy.good.sound in
    let lived : live_count (commit d r key val) + one_live (slot d r).key ≡ live_count d + 1 =
      omega (arith, lives, live_after) in
    let freed : unused_count (commit d r key val) + one_unused (slot d r).key ≡ unused_count d =
      omega (arith, frees, unused_after) in
    record {
      tidy = record {
        good = record {
          sound = stored.sound;
          counted = counted;
          small = omega (arith, stored.size, tidy.good.small);
        };
        full = omega (arith, lived, freed, one, counted, stored.size, tidy.full, tidy.good.counted);
        filled = omega (arith, fill, low, counted, lived, tidy.good.counted, tidy.filled);
        large = omega (arith, stored.size, tidy.large);
      };
      room = omega (arith, freed, room);
      fill_le = omega (arith, fill, low);
      used_le = omega (arith, counted, lived, tidy.good.counted);
    }

-- What a branch of the store returns.
branch-Kept :
    {d d₁ d' : Dict} {st status : Status}
    → Kept d d₁
    → ◌≡◌ {A = Option (Status × Dict)} (some (st, d₁)) (some (status, d'))
    → Kept d d'
branch-Kept {d} {d₁} {d'} kept e = let same : d₁ ≡ d' = (some-pair e).1 in rw (← same) kept

unused_not_live : (k : Key) → one_unused k ≤ 1 × (is_live k ≡ true → one_unused k ≡ 0)
unused_not_live k = ground arith

uncrowded : (d : Dict) → IsTidy d → d.fill < 2 ^ 30 → is_crowded d ≡ false → 2 ≤ unused_count d
uncrowded d tidy low h =
    let apart : wrap32 (3 * inc32 d.fill) < wrap32 (d.size * 2) = ground (arith, h) in
    omega (arith, apart, tidy.full, tidy.filled, tidy.good.small, low)

module _ (a : Alloc) (d : Dict) (tidy : IsTidy d) (key : Bytes) (val : Value)
    (few : d.used ≤ 2 ^ 26) (low : d.fill < 2 ^ 30) (pos : 0 < unused_count d) where
  unchanged-Kept : Kept d d
  unchanged-Kept = record { tidy = tidy; room = pos; fill_le = omega arith; used_le = omega arith }

  -- The store after a resize.
  resized-Kept :
      {d₁ d' : Dict} {j : ℕ}
      → Roomy d d₁
      → dict_lookup d₁ key (dict_hash key) ≡ some j
      → commit d₁ j key val ≡ d'
      → Kept d d'
  resized-Kept {d₁} {j = j} roomy found same =
      let finds = dict_lookup-Finds roomy.tidy.good.sound key found in
      let (at_most, x) = unused_not_live (slot d₁ j).key in
      let kept =
        commit-Kept d₁ roomy.tidy key val finds (omega (arith, roomy.fill_le, low))
          (omega (arith, at_most, roomy.half, roomy.tidy.full, roomy.tidy.large)) in
      rw (← same) (record {
        tidy = kept.tidy;
        room = kept.room;
        fill_le = omega (arith, kept.fill_le, roomy.fill_le);
        used_le = omega (arith, kept.used_le, roomy.used_same);
      })

  -- Where the table is not crowded, or the key is there, an entry is left.
  roomy-Kept :
      {i : ℕ}
      → Finds d key i
      → not (is_live (slot d i).key) && is_crowded d ≡ false
      → Kept d (commit d i key val)
  roomy-Kept {i} finds roomy =
      let (at_most, if_live) = unused_not_live (slot d i).key in
      commit-Kept d tidy key val finds (omega (arith, low))
        (elim (Bool-cases (is_live (slot d i).key)) [
          | inl there ↦ omega (arith, if_live there, pos)
          | inr new ↦
              let apart : is_crowded d ≡ false = ground (arith, roomy) in
              let gap = uncrowded d tidy low apart in omega (arith, at_most, gap)
        ])

  -- The branch that resizes first.
  crowded-Kept :
      (st : Status) (d₁ : Dict) {status : Status} {d' : Dict}
      → dict_resize a.newtable d ≡ some (st, d₁)
      → elim st as (λ x. Option (Status × Dict)) [
        | done ↦ do j ← dict_lookup d₁ key (dict_hash key); some (done, commit d₁ j key val)
        | failed ↦ some (failed, d₁)
      ]
        ≡ some (status, d')
      → Kept d d'
  crowded-Kept failed d₁ resize e =
      let (st, d₂, run, x, y, kept) = dict_resize_total d tidy.good pos a.newtable in
      let (st_same, d_same) = some-pair (sym run ∙ resize) in
      let same : d₁ ≡ d = sym d_same ∙ kept st_same in branch-Kept (rw same unchanged-Kept) e
  crowded-Kept done d₁ resize e =
      let (j, again, end) = >>=-eq-some (dict_lookup d₁ key (dict_hash key)) _ e in
      branch-Kept (resized-Kept (resize-Roomy d tidy few pos a.newtable resize) again refl) end

  -- A store keeps a never-used entry, whether or not it succeeds.
  pub dict_store-Kept :
      {status : Status} {d' : Dict} → dict_store a d key val ≡ some (status, d') → Kept d d'
  unfolding dict_store
  dict_store-Kept {status} {d'} run =
      let (i, found, run₁) = >>=-eq-some (dict_lookup d key (dict_hash key)) _ run in
      let finds = dict_lookup-Finds tidy.good.sound key found in
      let refused : ◌≡◌ {A = Option (Status × Dict)} (some (failed, d)) (some (status, d'))
          → Kept d d' =
        branch-Kept unchanged-Kept in
      elim (if-cases (not a.newkey) (some (failed, d)) _ run₁) [
        | inl (x, e) ↦ refused e
        | inr (x, run₂) ↦
            elim (if-cases (copies_string val && not a.newstr) (some (failed, d)) _ run₂) [
              | inl (y, e) ↦ refused e
              | inr (y, run₃) ↦
                  elim (if-cases (not (is_live (slot d i).key) && is_crowded d) _
                    (some (done, commit d i key val)) run₃) [
                      | inr (roomy, e) ↦ branch-Kept (roomy-Kept finds roomy) e
                      | inl (crowded, go) ↦
                          let (moved, resize, rest) = >>=-eq-some (dict_resize a.newtable d) _ go in
                          crowded-Kept moved.0 moved.1 resize rest
                    ]
            ]
      ]
