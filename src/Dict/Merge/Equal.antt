-- ===== src/Dict/Merge/Equal.antt =====
-- When `dict_values_equal` holds: the values have one type and are equal as values of it.
use librustyaxe.Prelude.{
  ℕ, ◌+◌, ◌-◌, ◌^◌, ◌%◌, ◌/◌, ◌≡◌, ◌⊎◌, ◌↔◌, true, Option, none, some, arith, Bytes, ℤ, pos,
  bytes_eq, bytes_eq_sound, bytes_eq_refl,
}
use librustyaxe.Dict.Types.{
  Value, end, null, str, int, uint, long, ulong, llong, ullong, float, bool, double, floatp,
  doublep, char, ptr,
}
use librustyaxe.Dict.Merge.{dict_values_equal, int_eq, is_nan, float_eq}

-- A pattern of e exponent bits and f fraction bits that is no number: all exponent bits are set, and
-- a fraction bit is.
abbrev pub IsNan : ℕ → ℕ → ℕ → Type 0
IsNan e f bits = (bits / 2 ^ f % 2 ^ e ≡ 2 ^ e - 1) × ¬ (bits % 2 ^ f ≡ 0)

-- Both are zero, of either sign.
abbrev pub AreZero : ℕ → ℕ → ℕ → ℕ → Type 0
AreZero e f a b = (a % 2 ^ (e + f) ≡ 0) × (b % 2 ^ (e + f) ≡ 0)

-- Neither is a NaN, and they are one number.
abbrev pub SameFloat : ℕ → ℕ → ℕ → ℕ → Type 0
SameFloat e f a b = ¬ IsNan e f a × ¬ IsNan e f b × ((a ≡ b) ⊎ AreZero e f a b)

-- Two values of one type that are equal in it. Values of the types that the library does not store
-- (VAL_END and the pointers to floating-point numbers) equal none.
abbrev pub Same : Value → Value → Type 0
Same null null = Unit
Same (str s) (str t) = s ≡ t
Same (int a) (int b) = a ≡ b
Same (uint a) (uint b) = a ≡ b
Same (long a) (long b) = a ≡ b
Same (ulong a) (ulong b) = a ≡ b
Same (llong a) (llong b) = a ≡ b
Same (ullong a) (ullong b) = a ≡ b
Same (float a) (float b) = SameFloat 8 23 a b
Same (double a) (double b) = SameFloat 11 52 a b
Same (bool a) (bool b) = (a ≡ pos 0) ↔ (b ≡ pos 0)
Same (char a) (char b) = a ≡ b
Same (ptr a) (ptr b) = a ≡ b
Same _ _ = ⊥

int_eq_iff : (a b : ℤ) → (int_eq a b ≡ true) ↔ (a ≡ b)
int_eq_iff a b = ground arith

is_nan_iff : (e f a : ℕ) → (is_nan e f a ≡ true) ↔ IsNan e f a
is_nan_iff e f a = ground arith

float_eq_iff : (e f a b : ℕ) → (float_eq e f a b ≡ true) ↔ SameFloat e f a b
float_eq_iff e f a b = ground arith

text_eq_iff : (s t : Bytes) → (bytes_eq s t ≡ true) ↔ (◌≡◌ {A = Option Bytes} (some s) (some t))
text_eq_iff s t = ground (arith, bytes_eq_sound s t, bytes_eq_refl s)

pub dict_values_equal-Same : (u v : Value) → (dict_values_equal u v ≡ true) ↔ Same u v
unfolding dict_values_equal
dict_values_equal-Same end v = ground arith
dict_values_equal-Same null v = ground arith
dict_values_equal-Same (int a) v = ground arith
dict_values_equal-Same (uint a) v = ground arith
dict_values_equal-Same (long a) v = ground arith
dict_values_equal-Same (ulong a) v = ground arith
dict_values_equal-Same (llong a) v = ground arith
dict_values_equal-Same (ullong a) v = ground arith
dict_values_equal-Same (float a) v = ground arith
dict_values_equal-Same (bool a) v = ground arith
dict_values_equal-Same (double a) v = ground arith
dict_values_equal-Same (floatp a) v = ground arith
dict_values_equal-Same (doublep a) v = ground arith
dict_values_equal-Same (char a) v = ground arith
dict_values_equal-Same (ptr a) v = ground arith
dict_values_equal-Same (str none) v = ground arith
dict_values_equal-Same (str (some s)) v = grind (arith, text_eq_iff)
