-- ===== src/Dict/Add.antt =====
-- The functions of dict.c that store a value of one type, and `dict_enumerate`, which reads strings only.
use librustyaxe.Prelude.{
  ℕ, ◌+◌, ◌≡◌, refl, Bool, Option, none, some, Bytes, ℤ, pos, if◌then◌else◌, inl, inr, Bool-cases,
  leb, ◌-◌,
}
use librustyaxe.Dict.Types.{
  Value, str, int, uint, long, ulong, llong, ullong, float, bool, double, char, ptr, Dict, live,
  slot, Key-cases, Status,
}
use librustyaxe.Dict.Store.{Alloc, dict_store}
use librustyaxe.Dict.Access.{dict_enumerate_typed, next_live, entry_at}

-- Strings may be NULL.
unfoldable pub dict_add : Alloc → Dict → Bytes → Option Bytes → Option (Status × Dict)
dict_add a d key val = dict_store a d key (str val)

unfoldable pub dict_add_char : Alloc → Dict → Bytes → ℤ → Option (Status × Dict)
dict_add_char a d key val = dict_store a d key (char val)

unfoldable pub dict_add_bool : Alloc → Dict → Bytes → Bool → Option (Status × Dict)
dict_add_bool a d key val = dict_store a d key (bool (pos (if val then 1 else 0)))

unfoldable pub dict_add_int : Alloc → Dict → Bytes → ℤ → Option (Status × Dict)
dict_add_int a d key val = dict_store a d key (int val)

unfoldable pub dict_add_uint : Alloc → Dict → Bytes → ℕ → Option (Status × Dict)
dict_add_uint a d key val = dict_store a d key (uint val)

unfoldable pub dict_add_long : Alloc → Dict → Bytes → ℤ → Option (Status × Dict)
dict_add_long a d key val = dict_store a d key (long val)

unfoldable pub dict_add_ulong : Alloc → Dict → Bytes → ℕ → Option (Status × Dict)
dict_add_ulong a d key val = dict_store a d key (ulong val)

unfoldable pub dict_add_llong : Alloc → Dict → Bytes → ℤ → Option (Status × Dict)
dict_add_llong a d key val = dict_store a d key (llong val)

unfoldable pub dict_add_ullong : Alloc → Dict → Bytes → ℕ → Option (Status × Dict)
dict_add_ullong a d key val = dict_store a d key (ullong val)

unfoldable pub dict_add_float : Alloc → Dict → Bytes → ℕ → Option (Status × Dict)
dict_add_float a d key val = dict_store a d key (float val)

unfoldable pub dict_add_double : Alloc → Dict → Bytes → ℕ → Option (Status × Dict)
dict_add_double a d key val = dict_store a d key (double val)

unfoldable pub dict_add_ptr : Alloc → Dict → Bytes → ℕ → Option (Status × Dict)
dict_add_ptr a d key val = dict_store a d key (ptr val)

-- The string of an entry, NULL for a value of another type
abbrev pub string_of : Value → Option Bytes
string_of (str s) = s
string_of _ = none

string_at : Dict → ℕ → Option (ℕ × Bytes × Option Bytes)
string_at d rank = elim (slot d rank).key [
  | live key ↦ some (rank + 1, key, string_of (slot d rank).val)
  | _ ↦ none
]

-- `none` is the result -1; the loop over the entries is that of `dict_enumerate_typed`.
unfoldable pub dict_enumerate : Dict → ℕ → Option (ℕ × Bytes × Option Bytes)
unfolding string_at
dict_enumerate d rank =
    let r = next_live (d.size - rank) d rank in if leb d.size r then none else string_at d r

abbrev pub as_string : Option (ℕ × Bytes × Value) → Option (ℕ × Bytes × Option Bytes)
as_string none = none
as_string (some entry) = some (entry.0, entry.1, string_of entry.2)

-- `dict_enumerate` visits the entries that `dict_enumerate_typed` visits, in the same order and with
-- the same ranks, and gives their strings.
pub dict_enumerate-string :
    (d : Dict) (rank : ℕ) → dict_enumerate d rank ≡ as_string (dict_enumerate_typed d rank)
unfolding dict_enumerate dict_enumerate_typed entry_at string_at
dict_enumerate-string d rank =
    let r = next_live (d.size - rank) d rank in
    elim (Bool-cases (leb d.size r)) [
      | inl past ↦ rw past refl
      | inr inside ↦ elim (Key-cases (slot d r).key) [
        | inl e ↦ rw inside (rw (string_at, entry_at, e) refl)
        | inr (inl e) ↦ rw inside (rw (string_at, entry_at, e) refl)
        | inr (inr (k, e)) ↦ rw inside (rw (string_at, entry_at, e) refl)
      ]
    ]
