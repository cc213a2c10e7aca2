-- ===== src/Dict/Access.antt =====
-- Reading operations of dict.c, and `dict_del`. `none` stands for a call that does not return.
use librustyaxe.Prelude.{
  ℕ, zero, suc, ◌+◌, ◌-◌, Option, none, some, dec32, leb, if◌then◌else◌, set, ◌>>=◌, Bytes,
}
use librustyaxe.Dict.Types.{
  ValType, val_end, Value, str, type_of, Dict, dummy, live, KeyPair, slot, is_live, Status, done,
  failed,
}
use librustyaxe.Dict.Hash.{dict_hash}
use librustyaxe.Dict.Lookup.{dict_lookup}
use librustyaxe.Dict.Store.{dict_free_value}

-- `dict_get_kp`, which `dict_find_entry` returns as a pointer
unfoldable pub dict_get_kp : Dict → Bytes → Option (Option KeyPair)
dict_get_kp d key = do
  i ← dict_lookup d key (dict_hash key)
  if is_live (slot d i).key then some (some (slot d i)) else some none

unfoldable pub string_or : Option Bytes → Value → Option Bytes
string_or def (str s) = s
string_or def _ = def

-- Only strings are returned.
unfoldable pub dict_get : Dict → Bytes → Option Bytes → Option (Option Bytes)
unfolding string_or
dict_get d key def = do
  i ← dict_lookup d key (dict_hash key)
  if is_live (slot d i).key then some (string_or def (slot d i).val) else some def

unfoldable pub dict_get_type : Dict → Bytes → Option ValType
unfolding type_of
dict_get_type d key = do
  i ← dict_lookup d key (dict_hash key)
  if is_live (slot d i).key then some (type_of (slot d i).val) else some val_end

unfoldable pub dict_del : Dict → Bytes → Option (Status × Dict)
unfolding dict_free_value
dict_del d key = do
  i ← dict_lookup d key (dict_hash key)
  if is_live (slot d i).key
      then some (
        done,
        record d {
          table = set d.table i (dict_free_value (record (slot d i) { key = dummy }));
          used = dec32 d.used;
        },
      )
      else some (failed, d)

-- The loop that passes over entries that are not live; the count is of the ranks left.
unfoldable pub next_live : ℕ → Dict → ℕ → ℕ
next_live zero d rank = rank
next_live (suc n) d rank =
    let next = next_live n d (rank + 1) in if is_live (slot d rank).key then rank else next

-- The entry that is returned with the rank after it.
unfoldable pub entry_at : Dict → ℕ → Option (ℕ × Bytes × Value)
entry_at d rank = elim (slot d rank).key [
  | live key ↦ some (rank + 1, key, (slot d rank).val)
  | _ ↦ none
]

-- `none` is the result -1.
unfoldable pub dict_enumerate_typed : Dict → ℕ → Option (ℕ × Bytes × Value)
unfolding next_live entry_at
dict_enumerate_typed d rank =
    let r = next_live (d.size - rank) d rank in if leb d.size r then none else entry_at d r
