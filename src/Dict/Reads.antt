-- ===== src/Dict/Reads.antt =====
-- The reading operations of dict.c and `dict_del` against the map that a dictionary stands for.
use librustyaxe.Prelude.{
  ℕ, ◌<◌, ◌≡◌, refl, sym, ◌∙◌, ◌≢◌, inl, inr, true, false, Option, none, some, arith, Bytes,
  if◌then◌else◌, bytes_eq, bytes_eq_sound, bytes_eq_refl, Bool-cases, dec32, length, some-pair,
}
use librustyaxe.Dict.Types.{
  ValType, val_end, Value, str, type_of, Dict, KeyPair, dummy, live, unused, slot, is_live, Status,
  done, failed,
}
use librustyaxe.Dict.View.{view}
use librustyaxe.Dict.Counts.{one_live, one_unused, live_count, unused_count, live-le, weigh-set}
use librustyaxe.Dict.Sound.{IsSound, Finds, view-found, size-le}
use librustyaxe.Dict.Overwrite.{
  overwrite, Fits, overwrite-IsSound, view-overwrite_other, view-overwrite_gone,
}
use librustyaxe.Dict.Resize.{IsDict}
use librustyaxe.Dict.Refines.{lookup-Finds, dict_store-Stores}
use librustyaxe.Dict.Store.{Alloc, dict_store, dict_free_value}
use librustyaxe.Dict.Access.{dict_get, dict_get_type, dict_del, string_or}

-- What the readers return of a map.
abbrev pub string_in : Option Value → Option Bytes → Option Bytes
string_in (some (str s)) def = s
string_in _ def = def

abbrev pub type_in : Option Value → ValType
type_in none = val_end
type_in (some v) = type_of v

string_or-in : (v : Value) (def : Option Bytes) → string_or def v ≡ string_in (some v) def
unfolding string_or
string_or-in v def = ground arith

module _ {d : Dict} (sound : IsSound d) (pos : 0 < unused_count d) (key : Bytes) where
  -- `dict_get` returns the string under the key, and the default if there is none.
  pub dict_get-view : (def : Option Bytes) → dict_get d key def ≡ some (string_in (view d key) def)
  unfolding dict_get
  dict_get-view def =
      let (r, found, finds) = lookup-Finds sound key pos in
      rw found (ground (arith, view-found sound finds, string_or-in (slot d r).val def))

  -- `dict_get_type` returns the type of the value under the key, and VAL_END if there is none.
  pub dict_get_type-view : dict_get_type d key ≡ some (type_in (view d key))
  unfolding dict_get_type
  dict_get_type-view =
      let (r, found, finds) = lookup-Finds sound key pos in
      rw found (ground (arith, view-found sound finds))

-- What `dict_del` leaves.
pub record Deletes (d : Dict) (key : Bytes) (status : Status) (d' : Dict) : Type 0 where
  pub sound : IsSound d'
  pub counted : d'.used ≡ live_count d'
  pub reads : (q : Bytes) → view d' q ≡ (if bytes_eq key q then none else view d q)
  pub room : unused_count d' ≡ unused_count d
  pub reports :
      (status ≡ failed → (view d key ≡ none) × (d' ≡ d)) × (status ≡ done → view d key ≢ none)

module _ {d : Dict} (sound : IsSound d) (counted : d.used ≡ live_count d) (key : Bytes) where
  live_here : {r : ℕ} → Finds d key r → is_live (slot d r).key ≡ true → (slot d r).key ≡ live key
  live_here finds here = elim finds.result [
    | inl e ↦ e
    | inr (free, absent) ↦ absurd (cc (here, free))
  ]

  buried : ℕ → KeyPair
  buried r = dict_free_value (record (slot d r) { key = dummy })

  found-Deletes :
      {r : ℕ}
      → Finds d key r
      → is_live (slot d r).key ≡ true
      → Deletes d key done (overwrite d r (buried r) (dec32 d.used) d.fill)
  unfolding buried dict_free_value
  found-Deletes {r} finds here =
      let z = sound.sized in
      let e = buried r in
      let is_key = live_here finds here in
      let used : e.key ≢ unused = λ h. ground arith in
      let fits = λ (q : Bytes) (h : dummy ≡ live q). absurd {A = Fits d r e q} (cc h) in
      let inside : r < length d.table = omega (arith, finds.inside, z.size, z.entries) in
      let was_live : one_live (slot d r).key ≡ 1 = ground arith in
      record {
        sound = overwrite-IsSound sound r e (dec32 d.used) d.fill finds.inside used fits;
        counted = omega (
          arith,
          weigh-set one_live d.table r e inside,
          was_live,
          live-le d.table,
          size-le sound,
          z.size,
          z.entries,
        );
        reads = λ q. elim (Bool-cases (bytes_eq key q)) [
          | inl same ↦ rw same (
              view-overwrite_gone sound r e (dec32 d.used) d.fill finds.inside used fits q
                (λ h. cc h) (rw (← bytes_eq_sound key q same) is_key))
          | inr differs ↦ rw differs (
              view-overwrite_other sound r e (dec32 d.used) d.fill finds.inside used fits q
                (λ h. cc h) (λ h. ground (arith, bytes_eq_refl key)))
        ];
        room = ground (arith, weigh-set one_unused d.table r e inside);
        reports = (λ h. absurd (cc h), λ h. ground (arith, view-found sound finds));
      }

  missing-Deletes :
      {r : ℕ} → Finds d key r → is_live (slot d r).key ≡ false → Deletes d key failed d
  missing-Deletes finds gone =
      let absent : view d key ≡ none = ground (arith, view-found sound finds) in
      record {
        sound = sound;
        counted = counted;
        reads = λ q. elim (Bool-cases (bytes_eq key q)) [
          | inl same ↦ rw (same, ← bytes_eq_sound key q same) absent
          | inr differs ↦ rw differs
        ];
        room = refl;
        reports = (λ e. (absent, refl), λ e. absurd (cc e));
      }

  -- In a sound dictionary that counts its live entries and has a never-used entry, `dict_del` returns. It
  -- reports whether the key was there, removes that key and no other, keeps the dictionary sound and
  -- its count right, leaves the dictionary alone if the key was not there, and leaves as many
  -- never-used entries as before.
  pub dict_del-Deletes :
      0 < unused_count d
      → (status : Status) × (d' : Dict) × (dict_del d key ≡ some (status, d'))
        × Deletes d key status d'
  unfolding dict_del buried
  dict_del-Deletes pos =
      let (r, found, finds) = lookup-Finds sound key pos in
      elim (Bool-cases (is_live (slot d r).key)) [
        | inl here ↦ (done, _, rw (found, here), found-Deletes finds here)
        | inr gone ↦ (failed, d, rw (found, gone), missing-Deletes finds gone)
      ]

-- After a successful store, `dict_get` returns the new value under the key and what it returned
-- before under every other key, whether or not the store has resized the table.
pub dict_get-dict_store :
    (a : Alloc) (d d' : Dict) (key q : Bytes) (val : Value) (def : Option Bytes)
    → IsDict d
    → 0 < unused_count d
    → dict_store a d key val ≡ some (done, d')
    → 0 < unused_count d'
    → dict_get d' q def
      ≡ (if bytes_eq key q then some (string_in (some val) def) else dict_get d q def)
dict_get-dict_store a d d' key q val def good pos run pos' =
    let (status, d₁, run₁, st, granted) = dict_store-Stores d key val a good pos in
    let (ok, same) = some-pair (sym run₁ ∙ run) in
    ground (
      arith,
      st.reads q,
      dict_get-view st.sound (rw same pos') q def,
      dict_get-view good.sound pos q def,
    )
