-- ===== src/Tests/DictMerges.antt =====
-- The theorems about merging and comparing dictionaries, at dictionaries that runs of dict.c reach.
use librustyaxe.Prelude.{ℕ, ◌≡◌, refl, true, Option, none, some, arith, codes}
use librustyaxe.Dict.Types.{null, str, Dict, Status, done}
use librustyaxe.Dict.Access.{dict_enumerate_typed, dict_get_kp, next_live, entry_at}
use librustyaxe.Dict.View.{view, first_some, find_value, entry_value}
use librustyaxe.Dict.Tidy.{IsTidy}
use librustyaxe.Dict.Room.{Kept, dict_store-Kept}
use librustyaxe.Dict.Store.{Alloc, all_granted, dict_new}
use librustyaxe.Dict.Merge.{
  dict_merge, dict_diff, dict_merge_new, dict_clone, each_entry, copy_body, changed_body,
  removed_body, dict_copy_entry, dict_add_null, dict_values_equal,
}
use librustyaxe.Dict.Merge.Fold.{Fits}
use librustyaxe.Dict.Merge.Copies.{Merged, dict_merge-Merged, dict_merge_new-Returned}
use librustyaxe.Dict.Merge.Returned.{Returned}
use librustyaxe.Dict.Merge.Differs.{Differs, dict_diff-Returned}
use librustyaxe.Tests.DictRuns.{program}
use librustyaxe.Tests.DictWitnesses.{one, one-IsDict, room-one, run-two, two, two-IsDict, room-two}

-- What a test of these operations computes with.
unfoldable merging : Unit {0}
unfolding program dict_merge dict_diff dict_merge_new dict_clone each_entry copy_body changed_body
    removed_body dict_copy_entry dict_add_null dict_values_equal dict_enumerate_typed next_live
    entry_at dict_get_kp
merging = tt

abbrev granting : ℕ → Alloc
granting i = all_granted

one-IsTidy : IsTidy one
unfolding program
one-IsTidy = record { good = one-IsDict; full = refl; filled = omega arith; large = omega arith }

dict_store-Kept_example : Kept one two
unfolding program
dict_store-Kept_example =
    dict_store-Kept all_granted one one-IsTidy (codes "mode") (str (some (codes "USB")))
      (omega arith) (omega arith) room-one run-two

sizes : (one.size ≡ 8) × (two.size ≡ 8)
unfolding program
sizes = (refl, refl)

one-Fits : Fits two.size one
unfolding program
one-Fits = record {
  tidy = one-IsTidy;
  room = room-one;
  used_le = omega arith;
  fill_lt = omega arith;
}

dict_merge-Merged_example :
    (status : Status) × (d' : Dict) × (dict_merge granting one two ≡ some (status, d'))
    × Merged one two status d'
    × (((i : ℕ) → granting i ≡ all_granted) → status ≡ done)
dict_merge-Merged_example = dict_merge-Merged granting one two two-IsDict.sound one-Fits

both_dictionaries :
    (r : Option Dict) × (dict_merge_new true granting granting one two ≡ some r)
    × Returned true
        (((i : ℕ) → granting i ≡ all_granted) × ((i : ℕ) → granting i ≡ all_granted))
        (λ q. first_some (view two q) (view one q))
        r
both_dictionaries =
    dict_merge_new-Returned true granting granting one two one-IsDict.sound two-IsDict.sound
      (omega (arith, sizes.0, sizes.1))

dict_diff-Returned_example :
    (r : Option Dict) × (dict_diff true granting granting two one ≡ some r)
    × Differs true
        (((i : ℕ) → granting i ≡ all_granted) × ((i : ℕ) → granting i ≡ all_granted))
        two
        one
        r
dict_diff-Returned_example =
    dict_diff-Returned true granting granting two one two-IsDict.sound one-IsDict.sound room-two
      room-one (omega (arith, sizes.0, sizes.1))

-- The mode is only in the first dictionary: the difference has null for it, and not the volume.
abbrev difference : Option (Option Dict) → Dict
difference (some (some d)) = d
difference _ = dict_new

difference-view :
    (view (difference (dict_diff true granting granting two one)) (codes "mode") ≡ some null)
    × (view (difference (dict_diff true granting granting two one)) (codes "volume") ≡ none)
unfolding merging view find_value entry_value first_some
difference-view = (refl, refl)
