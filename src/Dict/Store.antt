-- ===== src/Dict/Store.antt =====
-- Writing operations of dict.c. Each returns the status with the dictionary that it leaves; `none`
-- stands for a call that does not return. Whether each allocation succeeds is an argument.
use librustyaxe.Prelude.{
  ℕ, zero, suc, ◌*◌, Bool, true, false, not, ◌&&◌, Option, none, some, List, [], ◌∷◌, wrap32, inc32,
  dec32, ◌==◌, ltb, leb, if◌then◌else◌, replicate, set, ◌>>=◌, Bytes,
}
use librustyaxe.Dict.Types.{
  Value, null, str, Dict, unused, dummy, live, KeyPair, vacant, slot, is_live, Status, done, failed,
  dict_min_sz,
}
use librustyaxe.Dict.Hash.{dict_hash}
use librustyaxe.Dict.Lookup.{dict_lookup}

-- `calloc` of the table succeeds
unfoldable pub dict_new : Dict
dict_new = record { fill = 0; used = 0; size = dict_min_sz; table = replicate dict_min_sz vacant }

-- The entry is released: its value becomes `VAL_NULL`.
unfoldable pub dict_free_value : KeyPair → KeyPair
dict_free_value kp = record kp { val = null }

-- Which of the allocations of a call succeed: the copy of the key, the copy of a string value, and
-- the larger table.
pub record Alloc : Type 0 where
  pub newkey : Bool
  pub newstr : Bool
  pub newtable : Bool

abbrev pub all_granted : Alloc
all_granted = record { newkey = true; newstr = true; newtable = true }

-- `dict_add_p`, with the entry moved into the slot that the lookup finds.
unfoldable pub dict_add_p : Dict → KeyPair → Option (Status × Dict)
dict_add_p d src = elim src.key [
  | unused ↦ some (failed, d)
  | dummy ↦ some (failed, d)
  | live key ↦ do
    i ← dict_lookup d key (dict_hash key)
    some (
      done,
      record d {
        table = set d.table i (record { key = live key; hash = dict_hash key; val = src.val });
        used = inc32 d.used;
        fill = inc32 d.fill;
      },
    )
]

-- `while (newsize <= factor * d->used) newsize *= 2;`
unfoldable pub grow_size : ℕ → ℕ → ℕ → Option ℕ
grow_size zero bound newsize = none
grow_size (suc fuel) bound newsize =
    let rest = grow_size fuel bound (wrap32 (newsize * 2)) in
    if leb newsize bound then rest else some newsize

-- The counts of an old table that is put back.
count_fill : List KeyPair → ℕ
count_fill [] = 0
count_fill (kp ∷ rest) = elim kp.key [ unused ↦ count_fill rest | _ ↦ inc32 (count_fill rest) ]

count_used : List KeyPair → ℕ
count_used [] = 0
count_used (kp ∷ rest) = if is_live kp.key then inc32 (count_used rest) else count_used rest

-- The loop that moves the entries; the last argument is the dictionary to restore on failure.
unfoldable pub move_entries : List KeyPair → Dict → Dict → Option (Status × Dict)
unfolding count_fill count_used
move_entries [] d old = some (done, d)
move_entries (kp ∷ rest) d old =
    let moved = (do
      (status, d') ← dict_add_p d kp
      elim status [
        | done ↦ move_entries rest d' old
        | failed ↦
            some (failed, record old { used = count_used old.table; fill = count_fill old.table })
      ]) in
    let skipped = move_entries rest d old in if is_live kp.key then moved else skipped

abbrev pub dict_bigsz : ℕ
dict_bigsz = 64000

unfoldable pub growth_factor : ℕ → ℕ
growth_factor size = if ltb dict_bigsz size then 2 else 4

-- Doubling a word 33 times gives 0, so more fuel would not change the result.
unfoldable pub dict_resize : Bool → Dict → Option (Status × Dict)
dict_resize granted d = do
  newsize ← grow_size 33 (wrap32 (growth_factor d.size * d.used)) d.size
  if newsize == d.size
      then some (done, d)
      else if not granted
      then some (failed, d)
      else move_entries d.table
          (record { fill = 0; used = 0; size = newsize; table = replicate newsize vacant }) d

-- The end of `dict_store`: the entry at `i` is released and written.
unfoldable pub commit : Dict → ℕ → Bytes → Value → Dict
unfolding dict_free_value
commit d i key val =
    let old = slot d i in
    let released : Dict = elim old.key [
      | live k ↦ record d { table = set d.table i (dict_free_value old); used = dec32 d.used }
      | dummy ↦ record d { fill = dec32 d.fill }
      | unused ↦ d
    ] in
    record released {
      table = set released.table i (record { key = live key; hash = dict_hash key; val = val });
      used = inc32 released.used;
      fill = inc32 released.fill;
    }

-- A string value that is not NULL is duplicated.
abbrev pub copies_string : Value → Bool
copies_string (str (some s)) = true
copies_string _ = false

-- `3 * (d->fill + 1) >= d->size * 2`
abbrev pub is_crowded : Dict → Bool
is_crowded d = leb (wrap32 (d.size * 2)) (wrap32 (3 * inc32 d.fill))

unfoldable pub dict_store : Alloc → Dict → Bytes → Value → Option (Status × Dict)
dict_store granted d key val = do
  i ← dict_lookup d key (dict_hash key)
  if not granted.newkey
      then some (failed, d)
      else if copies_string val && not granted.newstr
      then some (failed, d)
      else if not (is_live (slot d i).key) && is_crowded d
      then (do
        (status, d') ← dict_resize granted.newtable d
        elim status [
          | failed ↦ some (failed, d')
          | done ↦ do j ← dict_lookup d' key (dict_hash key); some (done, commit d' j key val)
        ])
      else some (done, commit d i key val)
