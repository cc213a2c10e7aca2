-- ===== src/Dict/Number/Reads.antt =====
-- The typed getters of dict.c against the map that a dictionary stands for.
use librustyaxe.Prelude.{
  ℕ, ◌<◌, ◌^◌, ◌≡◌, refl, sym, ◌∙◌, inl, inr, Option, none, some, arith, Bytes, ℤ, bytes_eq_refl,
  Bool-cases, Option-cases, ap, some-pair,
}
use librustyaxe.Dict.Types.{Value, Dict, KeyPair, slot, is_live, done}
use librustyaxe.Dict.View.{view}
use librustyaxe.Dict.Counts.{unused_count}
use librustyaxe.Dict.Sound.{IsSound, view-found}
use librustyaxe.Dict.Resize.{IsDict}
use librustyaxe.Dict.Refines.{lookup-Finds, dict_store-Stores}
use librustyaxe.Dict.Store.{Alloc, dict_store}
use librustyaxe.Dict.Access.{dict_get_kp}
use librustyaxe.Dict.Number.Getters.{
  default_or, get_as, dict_get_int, dict_get_uint, dict_get_long, dict_get_ulong, dict_get_llong,
  dict_get_ullong, int_value, uint_value, long_value, ulong_value, llong_value, ullong_value,
  int_max, uint_max, long_max, ulong_max,
}
use librustyaxe.Dict.Number.Exact.{IsTyped, integer, fit, fit_nat, integer-Gets, Gets}

-- A result, or the default where there is none.
abbrev pub or_default : {A : Type 0} → A → Option A → A
or_default def none = def
or_default def (some a) = a

-- What is read of a map.
abbrev pub read_in : {A : Type 0} → (Value → Option A) → Option Value → A → A
read_in read none def = def
read_in read (some v) def = or_default def (read v)

default_or-read :
    {A : Type 0} (read : Value → Option A) (def : A) (kp : KeyPair)
    → default_or def read (some kp) ≡ read_in read (some kp.val) def
unfolding default_or
default_or-read read def kp = elim (Option-cases (read kp.val)) [
  | inl e ↦ rw (default_or, e)
  | inr (a, e) ↦ rw (default_or, e)
]

-- In a sound dictionary with a never-used entry a typed getter returns what it reads of the value that the map
-- holds under the key, and the default if there is none or it cannot be read.
pub get_as-view :
    {A : Type 0} {d : Dict} (read : Value → Option A) (key : Bytes) (def : A)
    → IsSound d
    → 0 < unused_count d
    → get_as read d key def ≡ some (read_in read (view d key) def)
unfolding get_as dict_get_kp
get_as-view {d = d} read key def sound pos =
    let (r, found, finds) = lookup-Finds sound key pos in
    elim (Bool-cases (is_live (slot d r).key)) [
      | inl e ↦
          rw (get_as, dict_get_kp, found, e, view-found sound finds)
            (rw e (ap some (default_or-read read def (slot d r))))
      | inr e ↦ rw (get_as, dict_get_kp, found, e, view-found sound finds) (rw e refl)
    ]

-- What the six getters return once `z` is stored under the key.
pub record GetsFit (d : Dict) (key : Bytes) (z def : ℤ) (def_nat : ℕ) : Type 0 where
  pub as_int : dict_get_int d key def ≡ some (or_default def (fit (2 ^ 31) int_max z))
  pub as_uint : dict_get_uint d key def_nat ≡ some (or_default def_nat (fit_nat uint_max z))
  pub as_long : dict_get_long d key def ≡ some (or_default def (fit (2 ^ 63) long_max z))
  pub as_ulong : dict_get_ulong d key def_nat ≡ some (or_default def_nat (fit_nat ulong_max z))
  pub as_llong : dict_get_llong d key def ≡ some (or_default def (fit (2 ^ 63) long_max z))
  pub as_ullong : dict_get_ullong d key def_nat ≡ some (or_default def_nat (fit_nat ulong_max z))

module _ {d : Dict} {v : Value} {z : ℤ} (key : Bytes) (sound : IsSound d) (pos : 0 < unused_count d)
    (held : view d key ≡ some v) (gets : Gets v z) where
  held-GetsFit : (def : ℤ) (def_nat : ℕ) → GetsFit d key z def def_nat
  unfolding dict_get_int dict_get_uint dict_get_long dict_get_ulong dict_get_llong dict_get_ullong
  held-GetsFit def def_nat = record {
    as_int = get_as-view int_value key def sound pos ∙ rw (held, gets.as_int);
    as_uint = get_as-view uint_value key def_nat sound pos ∙ rw (held, gets.as_uint);
    as_long = get_as-view long_value key def sound pos ∙ rw (held, gets.as_long);
    as_ulong = get_as-view ulong_value key def_nat sound pos ∙ rw (held, gets.as_ulong);
    as_llong = get_as-view llong_value key def sound pos ∙ rw (held, gets.as_llong);
    as_ullong = get_as-view ullong_value key def_nat sound pos ∙ rw (held, gets.as_ullong);
  }

-- After a successful store of an integer of any type under a key, each of the six integer getters
-- returns that number from the key if its own type holds it, and its default otherwise, provided that
-- both dictionaries have a never-used entry.
pub dict_store-GetsFit :
    (a : Alloc) (d d' : Dict) (key : Bytes) (v : Value) (z def : ℤ) (def_nat : ℕ)
    → IsDict d
    → 0 < unused_count d
    → IsTyped v
    → integer v ≡ some z
    → dict_store a d key v ≡ some (done, d')
    → 0 < unused_count d'
    → GetsFit d' key z def def_nat
dict_store-GetsFit a d d' key v z def def_nat good pos typed holds run pos' =
    let (status, d₁, run₁, st, granted) = dict_store-Stores d key v a good pos in
    let (ok, same) = some-pair (sym run₁ ∙ run) in
    let sound : IsSound d' = rw same at st.sound in
    let held : view d' key ≡ some v = ground (arith, st.reads key, bytes_eq_refl key) in
    held-GetsFit key sound pos' held (integer-Gets v z typed holds) def def_nat
