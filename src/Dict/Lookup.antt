-- ===== src/Dict/Lookup.antt =====
-- `dict_lookup` of dict.c. An entry pointer is its index in the table, and `none` is a loop that
-- has used up its fuel. Keys are compared by their bytes: the test `ep->key == key` on the two
-- pointers can only hold for a key that is in the table, whose bytes and hash are the same.
pub mod Scan
pub mod Visits
pub mod Total
use librustyaxe.Prelude.{
  ℕ, zero, suc, ◌+◌, ◌*◌, ◌/◌, ◌^◌, Bool, false, ◌&&◌, Option, none, some, bit_and, wrap32, dec32,
  ◌==◌, if◌then◌else◌, Bytes, bytes_eq,
}
use librustyaxe.Dict.Types.{Dict, Key, unused, dummy, live, KeyPair, slot}

-- `ep->hash == hash && !strcmp(ep->key, key)` at an entry that holds a string
pub matches : KeyPair → Bytes → ℕ → Bool
unfolding bytes_eq
matches ep key hash = elim ep.key [ live k ↦ ep.hash == hash && bytes_eq k key | _ ↦ false ]

-- `i = (i << 2) + i + perturb + 1; i &= (d->size - 1)`
abbrev pub next_index : ℕ → ℕ → ℕ → ℕ
next_index size i perturb = bit_and (wrap32 (i * 4 + i + perturb + 1)) (dec32 size)

-- `freeslot == NULL ? i : freeslot`
abbrev pub or_index : Option ℕ → ℕ → ℕ
or_index none i = i
or_index (some f) i = f

-- The `for` loop.
probe : ℕ → Dict → Bytes → ℕ → ℕ → ℕ → Option ℕ → Option ℕ
unfolding matches
probe zero d key hash i perturb free = none
probe (suc fuel) d key hash i perturb free =
    let j = next_index d.size i perturb in
    let ep = slot d j in
    let taken = probe fuel d key hash j (perturb / 2 ^ 5) free in
    let skipped = probe fuel d key hash j (perturb / 2 ^ 5) (some (or_index free j)) in
    elim ep.key [
      | unused ↦ some (or_index free j)
      | dummy ↦ skipped
      | live k ↦ if matches ep key hash then some j else taken
    ]

pub lookup_within : ℕ → Dict → Bytes → ℕ → Option ℕ
unfolding probe
lookup_within fuel d key hash =
    let i = bit_and hash (dec32 d.size) in
    let ep = slot d i in
    elim ep.key [
      | unused ↦ some i
      | dummy ↦ probe fuel d key hash i hash (some i)
      | live k ↦ if matches ep key hash then some i else probe fuel d key hash i hash none
    ]

-- Seven rounds use up the perturbation, and as many more as there are entries visit them all.
unfoldable pub dict_lookup : Dict → Bytes → ℕ → Option ℕ
unfolding lookup_within
dict_lookup d key hash = lookup_within (d.size + 8) d key hash
