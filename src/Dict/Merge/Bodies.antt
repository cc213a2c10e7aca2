-- ===== src/Dict/Merge/Bodies.antt =====
-- The bodies of the two loops of `dict_diff`.
use librustyaxe.Prelude.{
  ℕ, ◌<◌, ◌≡◌, refl, inl, inr, Option, none, some, arith, Bytes, Bool-cases, Option-cases,
  if◌then◌else◌, bytes_eq,
}
use librustyaxe.Dict.Types.{Value, null, Dict, KeyPair, slot, is_live, done}
use librustyaxe.Dict.View.{view, first_some}
use librustyaxe.Dict.Counts.{unused_count}
use librustyaxe.Dict.Sound.{IsSound, view-found}
use librustyaxe.Dict.Refines.{lookup-Finds}
use librustyaxe.Dict.Access.{dict_get_kp}
use librustyaxe.Dict.Store.{Alloc, all_granted}
use librustyaxe.Dict.Merge.{
  dict_values_equal, changed_body, removed_body, dict_copy_entry, dict_add_null,
}
use librustyaxe.Dict.Merge.Loop.{Choice, Writes}
use librustyaxe.Dict.Merge.Fold.{Fits, Works}
use librustyaxe.Dict.Merge.Copies.{store-Writes}

abbrev value_of : Option KeyPair → Option Value
value_of none = none
value_of (some kp) = some kp.val

-- `dict_get_kp` finds the entry of the key's value.
get_kp-view :
    {d : Dict}
    → IsSound d
    → 0 < unused_count d
    → (key : Bytes)
    → (o : Option KeyPair) × (dict_get_kp d key ≡ some o) × (view d key ≡ value_of o)
unfolding dict_get_kp
get_kp-view {d} sound pos key =
    let (r, found, finds) = lookup-Finds sound key pos in
    elim (Bool-cases (is_live (slot d r).key)) [
      | inl e ↦ (some (slot d r), rw (found, e) refl, rw e at (view-found sound finds))
      | inr e ↦ (none, rw (found, e) refl, rw e at (view-found sound finds))
    ]

-- The body leaves the dictionary alone.
same-Writes :
    (choice : Choice) (k : Bytes) (v : Value) (acc : Dict)
    → choice k v ≡ none
    → Fits 1 acc
    → Writes choice k v acc done acc
unfolding first_some
same-Writes choice k v acc none_chosen fits = record {
  kept = record {
    tidy = fits.tidy;
    room = fits.room;
    fill_le = omega arith;
    used_le = omega arith;
  };
  reads = λ e q. elim (Bool-cases (bytes_eq k q)) [
    | inl same ↦ rw (same, none_chosen) refl
    | inr differs ↦ rw differs refl
  ];
  atomic = λ e. refl;
}

-- What the loops write: an entry of B that A has not with that value, and null for a key of A that B has not.
abbrev pub changed : Option Value → Value → Option Value
changed none v = some v
changed (some u) v = if dict_values_equal u v then none else some v

abbrev pub removed : Option Value → Option Value
removed none = some null
removed (some u) = none

pub changed_body-Works :
    (g : ℕ → Alloc) (a : Dict)
    → IsSound a
    → 0 < unused_count a
    → Works (λ k v. changed (view a k) v) ((i : ℕ) → g i ≡ all_granted) (changed_body g a)
unfolding changed_body dict_copy_entry
changed_body-Works g a sound pos next k v acc fits =
    let choice : Choice = λ k v. changed (view a k) v in
    let (o, run, e) = get_kp-view sound pos k in
    elim (Option-cases o) [
      | inl gone ↦
          let (status, acc', stored, writes, ok) =
            store-Writes (g next) choice k v v acc (rw (e, gone) refl) fits in
          (status, acc', rw (run, gone) stored, writes, λ all. ok (all next))
      | inr (kp, here) ↦ elim (Bool-cases (dict_values_equal kp.val v)) [
        | inl same ↦ (
          done,
          acc,
          rw (run, here) (rw same refl),
          same-Writes choice k v acc (rw (e, here) (rw same refl)) fits,
          λ all. refl,
        )
        | inr differs ↦
            let (status, acc', stored, writes, ok) =
              store-Writes (g next) choice k v v acc (rw (e, here) (rw differs refl)) fits in
            (status, acc', rw (run, here) (rw differs stored), writes, λ all. ok (all next))
      ]
    ]

pub removed_body-Works :
    (g : ℕ → Alloc) (b : Dict)
    → IsSound b
    → 0 < unused_count b
    → Works (λ k v. removed (view b k)) ((i : ℕ) → g i ≡ all_granted) (removed_body g b)
unfolding removed_body dict_add_null
removed_body-Works g b sound pos next k v acc fits =
    let choice : Choice = λ k v. removed (view b k) in
    let (o, run, e) = get_kp-view sound pos k in
    elim (Option-cases o) [
      | inl gone ↦
          let (status, acc', stored, writes, ok) =
            store-Writes (g next) choice k v null acc (rw (e, gone) refl) fits in
          (status, acc', rw (run, gone) stored, writes, λ all. ok (all next))
      | inr (kp, here) ↦ (
        done,
        acc,
        rw (run, here) refl,
        same-Writes choice k v acc (rw (e, here) refl) fits,
        λ all. refl,
      )
    ]
