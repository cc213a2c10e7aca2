-- ===== src/Tests/DictWitnesses.antt =====
-- The theorems about dict.c at dictionaries that runs of it reach.
use librustyaxe.Prelude.{
  ℕ, zero, suc, ◌^◌, ◌<◌, ◌≡◌, refl, sym, ◌∙◌, ◌≢◌, none, some, arith, codes, pos, some-pair,
  bytes_eq, Bool, true,
}
use librustyaxe.Dict.Types.{str, int, Dict, unused, live, slot, Status, done, failed}
use librustyaxe.Dict.Hash.{dict_hash}
use librustyaxe.Dict.Hash.Bounds.{dict_hash-lt}
use librustyaxe.Dict.Lookup.{dict_lookup, lookup_within}
use librustyaxe.Dict.Lookup.Total.{IsSized, dict_lookup_total, dict_lookup_stuck}
use librustyaxe.Dict.Counts.{unused_count, live-replicate}
use librustyaxe.Dict.Resize.{IsDict, Resized, fresh-IsSound, dict_resize_total}
use librustyaxe.Dict.Refines.{Stores, grants, dict_store-Stores}
use librustyaxe.Dict.Reads.{
  string_in, type_in, dict_get-view, dict_get_type-view, Deletes, dict_del-Deletes,
  dict_get-dict_store,
}
use librustyaxe.Dict.View.{view}
use librustyaxe.Dict.Store.{dict_new, dict_store, dict_resize, all_granted}
use librustyaxe.Dict.Access.{dict_get, dict_get_type, dict_del}
use librustyaxe.Tests.DictRuns.{program, dict_of, buried}

pub new-IsDict : IsDict dict_new
unfolding program
new-IsDict = record {
  sound = fresh-IsSound 3 (omega arith);
  counted = sym (live-replicate 8);
  small = omega arith;
}

pub room-new : 0 < unused_count dict_new
unfolding program
room-new = omega arith

-- One entry: the volume.
abbrev pub one : Dict
one = dict_of (dict_store all_granted dict_new (codes "volume") (int (pos 40)))

run-one : dict_store all_granted dict_new (codes "volume") (int (pos 40)) ≡ some (done, one)
unfolding program
run-one = refl

dict_store-Stores_example :
    (status : Status) × (d' : Dict) × (dict_store all_granted dict_new
        (codes "volume")
        (int (pos 40))
      ≡ some (status, d'))
    × Stores dict_new (codes "volume") (int (pos 40)) status d'
    × (grants all_granted (int (pos 40)) ≡ true → status ≡ done)
dict_store-Stores_example =
    dict_store-Stores dict_new (codes "volume") (int (pos 40)) all_granted new-IsDict room-new

one-Stores : Stores dict_new (codes "volume") (int (pos 40)) done one
one-Stores =
    let (status, d', run, st, ok) = dict_store-Stores_example in
    let (s, e) = some-pair (sym run ∙ run-one) in rw (s, e) at st

pub one-IsDict : IsDict one
unfolding program
one-IsDict = record { sound = one-Stores.sound; counted = one-Stores.counted; small = omega arith }

pub room-one : 0 < unused_count one
unfolding program
room-one = omega arith

-- Two entries: a resize of it moves them into a table of 16.
abbrev pub two : Dict
two = dict_of (dict_store all_granted one (codes "mode") (str (some (codes "USB"))))

pub run-two :
    dict_store all_granted one (codes "mode") (str (some (codes "USB"))) ≡ some (done, two)
unfolding program
run-two = refl

two-Stores : Stores one (codes "mode") (str (some (codes "USB"))) done two
two-Stores =
    let (status, d', run, st, ok) =
      dict_store-Stores one (codes "mode") (str (some (codes "USB"))) all_granted one-IsDict
        room-one in
    let (s, e) = some-pair (sym run ∙ run-two) in rw (s, e) at st

pub two-IsDict : IsDict two
unfolding program
two-IsDict = record { sound = two-Stores.sound; counted = two-Stores.counted; small = omega arith }

pub room-two : 0 < unused_count two
unfolding program
room-two = omega arith

dict_resize_total_example :
    (status : Status) × (d' : Dict) × (dict_resize true two ≡ some (status, d'))
    × Resized two d'
    × (◌≡◌ {A = Bool} true true → status ≡ done)
    × (status ≡ failed → d' ≡ two)
dict_resize_total_example = dict_resize_total two two-IsDict room-two true

get_mode : dict_get two (codes "mode") none ≡ some (string_in (view two (codes "mode")) none)
get_mode = dict_get-view two-IsDict.sound room-two (codes "mode") none

type_of_volume : dict_get_type two (codes "volume") ≡ some (type_in (view two (codes "volume")))
type_of_volume = dict_get_type-view two-IsDict.sound room-two (codes "volume")

dict_del-Deletes_example :
    (status : Status) × (d' : Dict) × (dict_del two (codes "volume") ≡ some (status, d'))
    × Deletes two (codes "volume") status d'
dict_del-Deletes_example =
    dict_del-Deletes two-IsDict.sound two-IsDict.counted (codes "volume") room-two

dict_get-dict_store_example : dict_get two (codes "mode") none ≡ some (some (codes "USB"))
unfolding bytes_eq
dict_get-dict_store_example =
    dict_get-dict_store all_granted one two (codes "mode") (codes "mode") (str (some (codes "USB")))
      none one-IsDict room-one run-two room-two

new-IsSized : IsSized dict_new 3
unfolding dict_new
new-IsSized = record { word = omega arith; size = refl; entries = refl }

new-unused : (slot dict_new 0).key ≡ unused
unfolding dict_new
new-unused = refl

dict_lookup_total_example :
    (r : ℕ) × (dict_lookup dict_new (codes "volume") (dict_hash (codes "volume")) ≡ some r)
dict_lookup_total_example =
    dict_lookup_total dict_new (codes "volume") (dict_hash (codes "volume")) new-IsSized
      (dict_hash-lt (codes "volume")) (omega arith) new-unused

buried-IsSized : IsSized buried 3
buried-IsSized = record { word = omega arith; size = refl; entries = refl }

buried_full : (s : ℕ) → s < 2 ^ 3 → (slot buried s).key ≢ unused
buried_full zero h e = cc e
buried_full (suc zero) h e = cc e
buried_full (suc (suc zero)) h e = cc e
buried_full (suc (suc (suc zero))) h e = cc e
buried_full (suc (suc (suc (suc zero)))) h e = cc e
buried_full (suc (suc (suc (suc (suc zero))))) h e = cc e
buried_full (suc (suc (suc (suc (suc (suc zero)))))) h e = cc e
buried_full (suc (suc (suc (suc (suc (suc (suc zero))))))) h e = cc e
buried_full (suc (suc (suc (suc (suc (suc (suc (suc s)))))))) h e = absurd (omega arith)

buried_absent : (s : ℕ) → s < 2 ^ 3 → (slot buried s).key ≢ live (codes "volume")
buried_absent zero h e = cc e
buried_absent (suc zero) h e = cc e
buried_absent (suc (suc zero)) h e = cc e
buried_absent (suc (suc (suc zero))) h e = cc e
buried_absent (suc (suc (suc (suc zero)))) h e = cc e
buried_absent (suc (suc (suc (suc (suc zero))))) h e = cc e
buried_absent (suc (suc (suc (suc (suc (suc zero)))))) h e = cc e
buried_absent (suc (suc (suc (suc (suc (suc (suc zero))))))) h e = cc e
buried_absent (suc (suc (suc (suc (suc (suc (suc (suc s)))))))) h e = absurd (omega arith)

-- `dict_lookup` never returns in the dictionary that `churned` shows to be reachable.
dict_lookup_stuck_example :
    lookup_within 1000 buried (codes "volume") (dict_hash (codes "volume")) ≡ none
dict_lookup_stuck_example =
    dict_lookup_stuck buried (codes "volume") (dict_hash (codes "volume")) buried-IsSized
      buried_full buried_absent 1000
