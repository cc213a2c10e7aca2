-- ===== src/Dict/Commit.antt =====
-- The end of `dict_store`, and `dict_add_p`: the slot that the lookup found takes the key.
use librustyaxe.Prelude.{
  ℕ, ◌+◌, ◌≤◌, ◌<◌, ◌≡◌, refl, sym, ap, ◌∙◌, ◌≢◌, inl, inr, none, some, arith, Bytes, set, set-set,
  if◌then◌else◌, Option-cases, some-pair, inc32, dec32, length, bytes_eq, bytes_eq_sound,
  bytes_eq_refl, Bool-cases,
}
use librustyaxe.Dict.Types.{Value, Dict, KeyPair, Key, unused, live, slot, is_live, Status, done}
use librustyaxe.Dict.Hash.{dict_hash}
use librustyaxe.Dict.Lookup.{dict_lookup}
use librustyaxe.Dict.View.{view}
use librustyaxe.Dict.Sound.{
  IsSound, Finds, dict_lookup-Finds, dict_lookup-Finds_total, view-found, size-le,
}
use librustyaxe.Dict.Counts.{
  one_live, one_unused, weigh, live_count, unused_count, weigh-set, weigh-get_or-le, live-le,
  unused_exists,
}
use librustyaxe.Dict.Overwrite.{
  overwrite, Fits, overwrite-IsSound, view-overwrite_self, view-overwrite_other,
}
use librustyaxe.Dict.Store.{dict_free_value, commit, dict_add_p}

-- The entry that both functions write.
abbrev pub new_entry : Bytes → Value → KeyPair
new_entry key val = record { key = live key; hash = dict_hash key; val = val }

-- A dictionary of the same size that is sound, reads as `d` does but for `val` under `key`, and has
-- at most one unused entry less.
pub record Stored (d : Dict) (key : Bytes) (val : Value) (d' : Dict) : Type 0 where
  pub sound : IsSound d'
  pub reads : (q : Bytes) → view d' q ≡ (if bytes_eq key q then some val else view d q)
  pub size : d'.size ≡ d.size
  pub room : unused_count d ≤ unused_count d' + 1

module _ {d : Dict} (sound : IsSound d) {key : Bytes} {r : ℕ} (finds : Finds d key r)
    (val : Value) where
  found_Fits : (q : Bytes) → live key ≡ live q → Fits d r (new_entry key val) q
  found_Fits q e =
      let same : key ≡ q = ground arith in
      record {
        hash = ap dict_hash same;
        reaches = rw (← same) finds.reaches;
        alone = λ s ne es. elim finds.result [
          | inl here ↦ ne (sound.unique s r key (rw same es) here)
          | inr (free, absent) ↦ absent s (rw same es)
        ];
      }

  -- The overwritten entry is the key's, or free, so no other key is lost.
  old_entry : (q : Bytes) → key ≢ q → (slot d r).key ≢ live q
  old_entry q ne e = elim finds.result [
    | inl here ↦ ne (ground arith)
    | inr (free, absent) ↦ cc (free, ap is_live e)
  ]

  pub weigh_old :
      (w : Key → ℕ) (e : KeyPair)
      → weigh w (set d.table r e) + w (slot d r).key ≡ weigh w d.table + w e.key
  weigh_old w e =
      let z = sound.sized in
      weigh-set w d.table r e (omega (arith, finds.inside, z.size, z.entries))

  unused_old : one_unused (slot d r).key ≤ 1
  unused_old = ground arith

  pub overwrite-Stored : (u f : ℕ) → Stored d key val (overwrite d r (new_entry key val) u f)
  overwrite-Stored u f =
      let e = new_entry key val in
      let used : e.key ≢ unused = λ h. ground arith in
      record {
        sound = overwrite-IsSound sound r e u f finds.inside used found_Fits;
        reads = λ q. elim (Bool-cases (bytes_eq key q)) [
          | inl same ↦
              let at = bytes_eq_sound key q same in
              rw same
                (view-overwrite_self sound r e u f finds.inside used found_Fits q (ap live at))
          | inr differs ↦
              let ne : key ≢ q = λ at. ground (arith, bytes_eq_refl key) in
              rw differs (
                view-overwrite_other sound r e u f finds.inside used found_Fits q
                  (λ h. ne (ground arith)) (old_entry q ne))
        ];
        size = refl;
        room = omega (arith, weigh_old one_unused e, unused_old);
      }

-- Releasing the old entry first changes nothing but the counts.
pub commit-overwrite :
    (d : Dict) (r : ℕ) (key : Bytes) (val : Value)
    → commit d r key val
      ≡ overwrite d r (new_entry key val) (commit d r key val).used (commit d r key val).fill
unfolding commit
commit-overwrite d r key val =
    ground (arith, set-set d.table r (dict_free_value (slot d r)) (new_entry key val))

-- `commit` at the slot that the lookup found.
pub commit-Stored :
    {d : Dict} {key : Bytes} {r : ℕ} (val : Value)
    → IsSound d
    → Finds d key r
    → Stored d key val (commit d r key val)
commit-Stored {d} {key} {r} val sound finds =
    rw commit-overwrite (overwrite-Stored sound finds val _ _)

pub commit-used :
    (d : Dict) (r : ℕ) (key : Bytes) (val : Value)
    → (commit d r key val).used
      ≡ (if is_live (slot d r).key then inc32 (dec32 d.used) else inc32 d.used)
unfolding commit
commit-used d r key val = ground arith

pub one_live-is_live : (k : Key) → one_live k ≡ (if is_live k then 1 else 0)
one_live-is_live k = ground arith

-- `used` goes on counting the live entries.
pub commit-counted :
    {d : Dict} {key : Bytes} {r : ℕ} (val : Value)
    → IsSound d
    → Finds d key r
    → d.used ≡ live_count d
    → (commit d r key val).used ≡ live_count (commit d r key val)
commit-counted {d} {key} {r} val sound finds counted =
    let z = sound.sized in
    let e = new_entry key val in
    let inside : r < length d.table = omega (arith, finds.inside, z.size, z.entries) in
    let table = ap (λ (t : Dict). live_count t) (commit-overwrite d r key val) in
    let change = weigh_old sound finds val one_live e in
    let held = weigh-get_or-le one_live d.table r inside in
    let most = live-le d.table in
    let top = size-le sound in
    ground
      (arith, commit-used d r key val, one_live-is_live (slot d r).key, counted, z.size, z.entries)

module _ (d : Dict) (kp : KeyPair) {key : Bytes} (e : kp.key ≡ live key) where
  pub dict_add_p_found :
      {r : ℕ}
      → dict_lookup d key (dict_hash key) ≡ some r
      → dict_add_p d kp
        ≡ some (done, overwrite d r (new_entry key kp.val) (inc32 d.used) (inc32 d.fill))
  unfolding dict_add_p
  dict_add_p_found found = ground arith

  pub dict_add_p_stuck : dict_lookup d key (dict_hash key) ≡ none → dict_add_p d kp ≡ none
  unfolding dict_add_p
  dict_add_p_stuck lost = ground arith

  -- `dict_add_p` of a live entry succeeds if it returns.
  pub dict_add_p-Stored :
      {status : Status} {d' : Dict}
      → IsSound d
      → dict_add_p d kp ≡ some (status, d')
      → (status ≡ done) × Stored d key kp.val d'
  dict_add_p-Stored {status} {d'} sound run =
      elim (Option-cases (dict_lookup d key (dict_hash key))) [
        | inl lost ↦ absurd (cc (dict_add_p_stuck lost))
        | inr (r, found) ↦
            let (ok, at) = some-pair (sym (dict_add_p_found found) ∙ run) in
            (
              sym ok,
              rw (← at) (overwrite-Stored sound (dict_lookup-Finds sound key found) kp.val _ _),
            )
      ]

  -- With an unused entry it returns, and a new key is counted.
  pub dict_add_p_total :
      IsSound d
      → 0 < unused_count d
      → (d' : Dict) × (dict_add_p d kp ≡ some (done, d'))
        × Stored d key kp.val d'
        × (view d key ≡ none → d.used ≡ live_count d → d'.used ≡ live_count d')
  dict_add_p_total sound pos =
      let z = sound.sized in
      let (s, lt, at) = unused_exists d.table pos in
      let (r, found, finds) =
        dict_lookup-Finds_total sound key (s, omega (arith, z.size, z.entries), at) in
      let e = new_entry key kp.val in
      (
        overwrite d r e (inc32 d.used) (inc32 d.fill),
        dict_add_p_found found,
        overwrite-Stored sound finds kp.val _ _,
        λ absent counted.
            let free : one_live (slot d r).key ≡ 0 = ground (arith, view-found sound finds) in
            omega (
              arith,
              weigh_old sound finds kp.val one_live e,
              free,
              live-le d.table,
              size-le sound,
              z.size,
              z.entries,
            ),
      )
