-- ===== src/Dict/Merge.antt =====
-- The operations of dict.c on two dictionaries: merging, cloning and comparing them. The
-- dictionaries are different objects. Whether the allocations of each call of `dict_store` succeed is
-- a function of the rank after the source's entry.
use librustyaxe.Prelude.{
  ℕ, zero, suc, ◌+◌, ◌%◌, ◌/◌, ◌^◌, ◌-◌, Bool, true, false, not, ◌&&◌, ◌||◌, Option, none, some,
  ◌==◌, if◌then◌else◌, ◌>>=◌, Bytes, ℤ, pos, negsuc, bytes_eq,
}
use librustyaxe.Dict.Types.{
  Value, end, null, str, int, uint, long, ulong, llong, ullong, float, bool, double, floatp,
  doublep, char, ptr, Dict, KeyPair, unused, dummy, live, Status, done, failed,
}
use librustyaxe.Dict.Access.{dict_get_kp, dict_enumerate_typed}
use librustyaxe.Dict.Store.{Alloc, dict_store, dict_new}
pub mod Loop
pub mod Entries
pub mod Fold
pub mod Returned
pub mod Copies
pub mod Equal
pub mod Bodies
pub mod Differs

-- `dict_copy_entry`
unfoldable pub dict_copy_entry : Alloc → Dict → KeyPair → Option (Status × Dict)
dict_copy_entry a dst src = elim src.key [
  | unused ↦ some (failed, dst)
  | dummy ↦ some (failed, dst)
  | live key ↦ dict_store a dst key src.val
]

-- `==` on C integers
abbrev pub int_eq : ℤ → ℤ → Bool
int_eq (pos a) (pos b) = a == b
int_eq (negsuc a) (negsuc b) = a == b
int_eq (pos a) (negsuc b) = false
int_eq (negsuc a) (pos b) = false

-- `==` on bit patterns with e bits of exponent and f bits of fraction
abbrev pub is_nan : ℕ → ℕ → ℕ → Bool
is_nan e f bits = bits / 2 ^ f % 2 ^ e == 2 ^ e - 1 && not (bits % 2 ^ f == 0)

abbrev pub float_eq : ℕ → ℕ → ℕ → ℕ → Bool
float_eq e f a b =
    not (is_nan e f a)
    && not (is_nan e f b)
    && (a == b || (a % 2 ^ (e + f) == 0 && b % 2 ^ (e + f) == 0))

-- `dict_values_equal`, on the values of two entries
unfoldable pub dict_values_equal : Value → Value → Bool
dict_values_equal null null = true
dict_values_equal (str none) (str none) = true
dict_values_equal (str (some s)) (str (some t)) = bytes_eq s t
dict_values_equal (int a) (int b) = int_eq a b
dict_values_equal (uint a) (uint b) = a == b
dict_values_equal (long a) (long b) = int_eq a b
dict_values_equal (ulong a) (ulong b) = a == b
dict_values_equal (llong a) (llong b) = int_eq a b
dict_values_equal (ullong a) (ullong b) = a == b
dict_values_equal (float a) (float b) = float_eq 8 23 a b
dict_values_equal (double a) (double b) = float_eq 11 52 a b
dict_values_equal (bool a) (bool b) =
    (if int_eq a (pos 0) then int_eq b (pos 0) else not (int_eq b (pos 0)))
dict_values_equal (char a) (char b) = int_eq a b
dict_values_equal (ptr a) (ptr b) = a == b
dict_values_equal _ _ = false

-- `while ((rank = dict_enumerate_typed(src, rank, &key, &val, &type)) >= 0)`, with a body that
-- changes another dictionary and whose failure ends the function.
abbrev pub Body : Type 0
Body = ℕ → Bytes → Value → Dict → Option (Status × Dict)

unfoldable pub each_entry : ℕ → Body → Dict → ℕ → Dict → Option (Status × Dict)
each_entry zero body src rank acc = none
each_entry (suc fuel) body src rank acc = elim (dict_enumerate_typed src rank) [
  | none ↦ some (done, acc)
  | some entry ↦ do
    (status, acc') ← body entry.0 entry.1 entry.2 acc
    elim status [ failed ↦ some (failed, acc') | done ↦ each_entry fuel body src entry.0 acc' ]
]

-- The body of the loop of `dict_merge`
unfoldable pub copy_body : (ℕ → Alloc) → Body
unfolding dict_copy_entry
copy_body a next key val acc =
    dict_copy_entry (a next) acc (record { key = live key; hash = 0; val = val })

unfoldable pub dict_merge : (ℕ → Alloc) → Dict → Dict → Option (Status × Dict)
unfolding each_entry copy_body
dict_merge a dst src = each_entry (suc src.size) (copy_body a) src 0 dst

-- `none` for the NULL that is returned when an allocation fails
abbrev pub or_null : Status → Dict → Option Dict
or_null done d = some d
or_null failed d = none

unfoldable pub dict_clone : Bool → (ℕ → Alloc) → Dict → Option (Option Dict)
unfolding dict_merge
dict_clone granted a source =
    if not granted
    then some none
    else (do (status, copy) ← dict_merge a dict_new source; some (or_null status copy))

unfoldable pub dict_merge_new :
    Bool → (ℕ → Alloc) → (ℕ → Alloc) → Dict → Dict → Option (Option Dict)
unfolding dict_merge
dict_merge_new granted first second a b = if not granted then some none else (do
  (status, merged) ← dict_merge first dict_new a
  elim status [
    | failed ↦ some none
    | done ↦ do (status', both) ← dict_merge second merged b; some (or_null status' both)
  ])

-- The first loop of `dict_diff`: the entries of B that A does not have with that value
unfoldable pub changed_body : (ℕ → Alloc) → Dict → Body
unfolding dict_copy_entry dict_values_equal
changed_body g a next key val acc = do
  old ← dict_get_kp a key
  elim old [
    | none ↦ dict_copy_entry (g next) acc (record { key = live key; hash = 0; val = val })
    | some kp ↦
        if dict_values_equal kp.val val
        then some (done, acc)
        else dict_copy_entry (g next) acc (record { key = live key; hash = 0; val = val })
  ]

-- `dict_add_null`
unfoldable pub dict_add_null : Alloc → Dict → Bytes → Option (Status × Dict)
dict_add_null a d key = dict_store a d key null

-- The second loop of `dict_diff`: the keys of A that B does not have
unfoldable pub removed_body : (ℕ → Alloc) → Dict → Body
unfolding dict_add_null
removed_body g b next key val acc = do
  kept ← dict_get_kp b key
  elim kept [ none ↦ dict_add_null (g next) acc key | some kp ↦ some (done, acc) ]

unfoldable pub dict_diff : Bool → (ℕ → Alloc) → (ℕ → Alloc) → Dict → Dict → Option (Option Dict)
unfolding each_entry changed_body removed_body
dict_diff granted first second a b = if not granted then some none else (do
  (status, diff) ← each_entry (suc b.size) (changed_body first a) b 0 dict_new
  elim status [
    | failed ↦ some none
    | done ↦ do
      (status', all) ← each_entry (suc a.size) (removed_body second b) a 0 diff
      some (or_null status' all)
  ])
