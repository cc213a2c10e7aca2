-- ===== src/Dict/Number/Bounds.antt =====
-- The range of what the integer getters of dict.c return, for every value.
use librustyaxe.Prelude.{zero, suc, ◌^◌, ◌≡◌, refl, true, arith, ℤ, pos, negsuc}
use librustyaxe.Dict.Number.Checked.{
  guarded-Signed, guarded_pos-Signed, guarded_nat-Unsigned, natural_to-Unsigned, or_else-Signed,
  or_else-Unsigned, parse_ll-Signed, parse_ull-Unsigned, bind-Signed, bind-Unsigned,
}
use librustyaxe.Dict.Number.Cut.{
  natural-Unsigned, Signed, Unsigned, truncate-within, truncate-within_open, real_int-Signed,
  real_nat-Unsigned,
}
use librustyaxe.Dict.Types.{Value, str, int, long, llong, float, bool, double, char}
use librustyaxe.Dict.Number.Real.{within, within_open, float_value, double_value}
use librustyaxe.Dict.Number.Strings.{parse_ll, parse_ull}
use librustyaxe.Dict.Number.Exact.{IsTyped}
use librustyaxe.Dict.Number.Getters.{
  between, int_max, uint_max, long_max, ulong_max, int_value, uint_value, ulong_value, long_value,
  llong_value, ullong_value,
}

widen : (z : ℤ) → between (2 ^ 63) long_max z ≡ true → between (2 ^ 63) ulong_max z ≡ true
widen (pos n) h = ground arith
widen (negsuc n) h = ground arith

int_value-Signed : (v : Value) → IsTyped v → Signed (2 ^ 31) int_max (int_value v)
unfolding int_value
int_value-Signed (float x) t =
    real_int-Signed (within (2 ^ 31) int_max) (2 ^ 31) int_max (float_value x)
      (truncate-within (2 ^ 31) int_max)
int_value-Signed (double x) t =
    real_int-Signed (within (2 ^ 31) int_max) (2 ^ 31) int_max (double_value x)
      (truncate-within (2 ^ 31) int_max)
int_value-Signed (str s) t =
    or_else-Signed (2 ^ 31) int_max _ _
      (bind-Signed (2 ^ 31) int_max (parse_ll s) _ (guarded-Signed (2 ^ 31) int_max))
      (bind-Signed (2 ^ 31) int_max (parse_ull s) _ (guarded_pos-Signed (2 ^ 31) int_max))
int_value-Signed (char (pos n)) t = ground arith
int_value-Signed (char (negsuc n)) t = ground arith
int_value-Signed (long z) t = guarded-Signed (2 ^ 31) int_max z
int_value-Signed (llong z) t = guarded-Signed (2 ^ 31) int_max z
int_value-Signed (bool (pos zero)) t = refl
int_value-Signed (bool (pos (suc n))) t = refl
int_value-Signed (bool (negsuc n)) t = refl
int_value-Signed (int z) t = t
int_value-Signed _ t = ground arith

long_value-Signed : (v : Value) → IsTyped v → Signed (2 ^ 63) long_max (long_value v)
unfolding long_value
long_value-Signed (float x) t =
    real_int-Signed (within_open (2 ^ 63) (2 ^ 63)) (2 ^ 63) long_max (float_value x)
      (truncate-within_open (2 ^ 63) long_max)
long_value-Signed (double x) t =
    real_int-Signed (within_open (2 ^ 63) (2 ^ 63)) (2 ^ 63) long_max (double_value x)
      (truncate-within_open (2 ^ 63) long_max)
long_value-Signed (str s) t =
    bind-Signed (2 ^ 63) long_max (parse_ll s) _ (guarded-Signed (2 ^ 63) long_max)
long_value-Signed (bool (pos zero)) t = refl
long_value-Signed (bool (pos (suc n))) t = refl
long_value-Signed (bool (negsuc n)) t = refl
long_value-Signed (int (pos n)) t = ground arith
long_value-Signed (int (negsuc n)) t = ground arith
long_value-Signed (long z) t = t
long_value-Signed (llong z) t = guarded-Signed (2 ^ 63) long_max z
long_value-Signed _ t = ground arith

llong_value-Signed : (v : Value) → IsTyped v → Signed (2 ^ 63) long_max (llong_value v)
unfolding llong_value
llong_value-Signed (float x) t =
    real_int-Signed (within_open (2 ^ 63) (2 ^ 63)) (2 ^ 63) long_max (float_value x)
      (truncate-within_open (2 ^ 63) long_max)
llong_value-Signed (double x) t =
    real_int-Signed (within_open (2 ^ 63) (2 ^ 63)) (2 ^ 63) long_max (double_value x)
      (truncate-within_open (2 ^ 63) long_max)
llong_value-Signed (str s) t =
    or_else-Signed (2 ^ 63) long_max _ _ (parse_ll-Signed s)
      (bind-Signed (2 ^ 63) long_max (parse_ull s) _ (guarded_pos-Signed (2 ^ 63) long_max))
llong_value-Signed (bool (pos zero)) t = refl
llong_value-Signed (bool (pos (suc n))) t = refl
llong_value-Signed (bool (negsuc n)) t = refl
llong_value-Signed (int (pos n)) t = ground arith
llong_value-Signed (int (negsuc n)) t = ground arith
llong_value-Signed (long z) t = t
llong_value-Signed (llong z) t = t
llong_value-Signed _ t = ground arith

uint_value-Unsigned : (v : Value) → IsTyped v → Unsigned uint_max (uint_value v)
unfolding uint_value
uint_value-Unsigned (float x) t =
    real_nat-Unsigned (within 0 uint_max) uint_max (float_value x) (truncate-within 0 uint_max)
uint_value-Unsigned (double x) t =
    real_nat-Unsigned (within 0 uint_max) uint_max (double_value x) (truncate-within 0 uint_max)
uint_value-Unsigned (str s) t =
    or_else-Unsigned uint_max _ _
      (bind-Unsigned uint_max (parse_ull s) _ (guarded_nat-Unsigned uint_max))
      (bind-Unsigned uint_max (parse_ll s) _ (natural_to-Unsigned uint_max))
uint_value-Unsigned (bool (pos zero)) t = omega arith
uint_value-Unsigned (bool (pos (suc n))) t = omega arith
uint_value-Unsigned (bool (negsuc n)) t = omega arith
uint_value-Unsigned (int (pos n)) t = ground arith
uint_value-Unsigned (int (negsuc n)) t = tt
uint_value-Unsigned (long z) t = natural_to-Unsigned uint_max z
uint_value-Unsigned (llong z) t = natural_to-Unsigned uint_max z
uint_value-Unsigned (char (pos n)) t = omega arith
uint_value-Unsigned (char (negsuc n)) t = omega arith
uint_value-Unsigned _ t = ground arith

ulong_value-Unsigned : (v : Value) → IsTyped v → Unsigned ulong_max (ulong_value v)
unfolding ulong_value
ulong_value-Unsigned (float x) t =
    real_nat-Unsigned (within_open 0 (2 ^ 64)) ulong_max (float_value x)
      (truncate-within_open 0 ulong_max)
ulong_value-Unsigned (double x) t =
    real_nat-Unsigned (within_open 0 (2 ^ 64)) ulong_max (double_value x)
      (truncate-within_open 0 ulong_max)
ulong_value-Unsigned (str s) t =
    or_else-Unsigned ulong_max _ _
      (bind-Unsigned ulong_max (parse_ull s) _ (guarded_nat-Unsigned ulong_max))
      (bind-Unsigned ulong_max (parse_ll s) _ (natural_to-Unsigned ulong_max))
ulong_value-Unsigned (bool (pos zero)) t = omega arith
ulong_value-Unsigned (bool (pos (suc n))) t = omega arith
ulong_value-Unsigned (bool (negsuc n)) t = omega arith
ulong_value-Unsigned (int (pos n)) t = ground arith
ulong_value-Unsigned (int (negsuc n)) t = tt
ulong_value-Unsigned (long z) t = natural-Unsigned (2 ^ 63) ulong_max z (widen z t)
ulong_value-Unsigned (llong z) t = natural-Unsigned (2 ^ 63) ulong_max z (widen z t)
ulong_value-Unsigned _ t = ground arith

ullong_value-Unsigned : (v : Value) → IsTyped v → Unsigned ulong_max (ullong_value v)
unfolding ullong_value
ullong_value-Unsigned (float x) t =
    real_nat-Unsigned (within_open 0 (2 ^ 64)) ulong_max (float_value x)
      (truncate-within_open 0 ulong_max)
ullong_value-Unsigned (double x) t =
    real_nat-Unsigned (within_open 0 (2 ^ 64)) ulong_max (double_value x)
      (truncate-within_open 0 ulong_max)
ullong_value-Unsigned (str s) t = parse_ull-Unsigned s
ullong_value-Unsigned (bool (pos zero)) t = omega arith
ullong_value-Unsigned (bool (pos (suc n))) t = omega arith
ullong_value-Unsigned (bool (negsuc n)) t = omega arith
ullong_value-Unsigned (int (pos n)) t = ground arith
ullong_value-Unsigned (int (negsuc n)) t = tt
ullong_value-Unsigned (long z) t = natural-Unsigned (2 ^ 63) ulong_max z (widen z t)
ullong_value-Unsigned (llong z) t = natural-Unsigned (2 ^ 63) ulong_max z (widen z t)
ullong_value-Unsigned (char (pos n)) t = omega arith
ullong_value-Unsigned (char (negsuc n)) t = omega arith
ullong_value-Unsigned _ t = ground arith

-- What each of the six integer getters reads of a value.
pub record InRange (v : Value) : Type 0 where
  pub as_int : Signed (2 ^ 31) int_max (int_value v)
  pub as_uint : Unsigned uint_max (uint_value v)
  pub as_long : Signed (2 ^ 63) long_max (long_value v)
  pub as_ulong : Unsigned ulong_max (ulong_value v)
  pub as_llong : Signed (2 ^ 63) long_max (llong_value v)
  pub as_ullong : Unsigned ulong_max (ullong_value v)

-- Whatever value stands in a dictionary, a string, a floating-point number, or an integer in the range
-- of its C type, what each of the six integer getters reads of it, if it reads anything, is in the
-- range of the getter's own type.
pub value-InRange : (v : Value) → IsTyped v → InRange v
value-InRange v t = record {
  as_int = int_value-Signed v t;
  as_uint = uint_value-Unsigned v t;
  as_long = long_value-Signed v t;
  as_ulong = ulong_value-Unsigned v t;
  as_llong = llong_value-Signed v t;
  as_ullong = ullong_value-Unsigned v t;
}
