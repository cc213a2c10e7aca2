-- ===== src/Dict/Number/Getters.antt =====
-- The getters: what each makes of a value, and the lookup around it.
use librustyaxe.Prelude.{
  ℕ, zero, ◌+◌, ◌-◌, ◌%◌, ◌^◌, Bool, true, false, not, Option, none, some, Bytes, leb, ◌==◌,
  if◌then◌else◌, ◌>>=◌, ℤ, pos, negsuc,
}
use librustyaxe.Dict.Types.{
  Value, str, int, uint, long, ulong, llong, ullong, float, bool, double, char, ptr, Dict, KeyPair,
}
use librustyaxe.Dict.Access.{dict_get_kp}
use librustyaxe.Dict.Number.Real.{Real, float_value, double_value, truncate, within, within_open}
use librustyaxe.Dict.Number.Strings.{parse_ll, parse_ull, parse_bool_string}

-- `-low <= z && z <= high`
abbrev pub between : ℕ → ℕ → ℤ → Bool
between low high (pos n) = leb n high
between low high (negsuc n) = leb (n + 1) low

-- The bounds of `int` and of the 64-bit types, as the sizes of their ends.
abbrev pub int_max : ℕ
int_max = 2 ^ 31 - 1

abbrev pub uint_max : ℕ
uint_max = 2 ^ 32 - 1

abbrev pub long_max : ℕ
long_max = 2 ^ 63 - 1

abbrev pub ulong_max : ℕ
ulong_max = 2 ^ 64 - 1

abbrev pub guarded : Bool → ℤ → Option ℤ
guarded test z = if test then some z else none

abbrev pub guarded_nat : Bool → ℕ → Option ℕ
guarded_nat test n = if test then some n else none

-- The truth of a stored `bool`
abbrev pub truth : ℤ → ℕ
truth (pos zero) = 0
truth _ = 1

-- A non-negative value of a signed type.
abbrev pub natural : ℤ → Option ℕ
natural (pos n) = some n
natural (negsuc n) = none

abbrev pub natural_to : ℕ → ℤ → Option ℕ
natural_to high (pos n) = guarded_nat (leb n high) n
natural_to high (negsuc n) = none

-- A finite real that passes a test, cut to an integer.
unfoldable pub real_int : (Real → Bool) → Option Real → Option ℤ
unfolding truncate
real_int test none = none
real_int test (some x) = if test x then some (truncate x) else none

unfoldable pub real_nat : (Real → Bool) → Option Real → Option ℕ
unfolding truncate
real_nat test none = none
real_nat test (some x) = if test x then natural (truncate x) else none

-- One reading, and another where the first one fails.
abbrev pub or_else {ℓ} : {A : Type ℓ} → Option A → Option A → Option A
or_else (some a) other = some a
or_else none other = other

-- `dict_get_int`
unfoldable pub int_value : Value → Option ℤ
unfolding float_value double_value within real_int parse_ll parse_ull
int_value (int z) = some z
int_value (uint n) = guarded (leb n int_max) (pos n)
int_value (long z) = guarded (between (2 ^ 31) int_max z) z
int_value (ulong n) = guarded (leb n int_max) (pos n)
int_value (llong z) = guarded (between (2 ^ 31) int_max z) z
int_value (ullong n) = guarded (leb n int_max) (pos n)
int_value (float x) = real_int (within (2 ^ 31) int_max) (float_value x)
int_value (double x) = real_int (within (2 ^ 31) int_max) (double_value x)
int_value (char c) = some c
int_value (bool b) = some (pos (truth b))
int_value (str s) =
    or_else (parse_ll s >>= (λ v. guarded (between (2 ^ 31) int_max v) v))
      (parse_ull s >>= (λ v. guarded (leb v int_max) (pos v)))
int_value _ = none

-- `dict_get_uint`; a `char` goes through `unsigned char`.
unfoldable pub uint_value : Value → Option ℕ
unfolding float_value double_value within real_nat parse_ll parse_ull
uint_value (uint n) = some n
uint_value (int z) = natural z
uint_value (long z) = natural_to uint_max z
uint_value (ulong n) = guarded_nat (leb n uint_max) n
uint_value (llong z) = natural_to uint_max z
uint_value (ullong n) = guarded_nat (leb n uint_max) n
uint_value (float x) = real_nat (within 0 uint_max) (float_value x)
uint_value (double x) = real_nat (within 0 uint_max) (double_value x)
uint_value (bool b) = some (truth b)
uint_value (char (pos n)) = some (n % 256)
uint_value (char (negsuc n)) = some ((256 - (n + 1)) % 256)
uint_value (str s) =
    or_else (parse_ull s >>= (λ v. guarded_nat (leb v uint_max) v))
      (parse_ll s >>= natural_to uint_max)
uint_value _ = none

-- `dict_get_ulong`
unfoldable pub ulong_value : Value → Option ℕ
unfolding float_value double_value within_open real_nat parse_ll parse_ull
ulong_value (ulong n) = some n
ulong_value (uint n) = some n
ulong_value (int z) = natural z
ulong_value (long z) = natural z
ulong_value (llong z) = natural z
ulong_value (ullong n) = guarded_nat (leb n ulong_max) n
ulong_value (float x) = real_nat (within_open 0 (2 ^ 64)) (float_value x)
ulong_value (double x) = real_nat (within_open 0 (2 ^ 64)) (double_value x)
ulong_value (bool b) = some (truth b)
ulong_value (str s) =
    or_else (parse_ull s >>= (λ v. guarded_nat (leb v ulong_max) v))
      (parse_ll s >>= natural_to ulong_max)
ulong_value _ = none

-- `dict_get_long`
unfoldable pub long_value : Value → Option ℤ
unfolding float_value double_value within_open real_int parse_ll
long_value (long z) = some z
long_value (int z) = some z
long_value (uint n) = some (pos n)
long_value (ulong n) = guarded (leb n long_max) (pos n)
long_value (llong z) = guarded (between (2 ^ 63) long_max z) z
long_value (ullong n) = guarded (leb n long_max) (pos n)
long_value (float x) = real_int (within_open (2 ^ 63) (2 ^ 63)) (float_value x)
long_value (double x) = real_int (within_open (2 ^ 63) (2 ^ 63)) (double_value x)
long_value (bool b) = some (pos (truth b))
long_value (str s) = parse_ll s >>= (λ v. guarded (between (2 ^ 63) long_max v) v)
long_value _ = none

-- `dict_get_llong`
unfoldable pub llong_value : Value → Option ℤ
unfolding float_value double_value within_open real_int parse_ll parse_ull
llong_value (llong z) = some z
llong_value (int z) = some z
llong_value (uint n) = some (pos n)
llong_value (long z) = some z
llong_value (ulong n) = guarded (leb n long_max) (pos n)
llong_value (ullong n) = guarded (leb n long_max) (pos n)
llong_value (float x) = real_int (within_open (2 ^ 63) (2 ^ 63)) (float_value x)
llong_value (double x) = real_int (within_open (2 ^ 63) (2 ^ 63)) (double_value x)
llong_value (bool b) = some (pos (truth b))
llong_value (str s) = or_else (parse_ll s) (parse_ull s >>= (λ v. guarded (leb v long_max) (pos v)))
llong_value _ = none

-- `dict_get_ullong`
unfoldable pub ullong_value : Value → Option ℕ
unfolding float_value double_value within_open real_nat parse_ull
ullong_value (ullong n) = some n
ullong_value (llong z) = natural z
ullong_value (int z) = natural z
ullong_value (uint n) = some n
ullong_value (long z) = natural z
ullong_value (ulong n) = some n
ullong_value (float x) = real_nat (within_open 0 (2 ^ 64)) (float_value x)
ullong_value (double x) = real_nat (within_open 0 (2 ^ 64)) (double_value x)
ullong_value (bool b) = some (truth b)
ullong_value (char (pos n)) = some (n % 256)
ullong_value (char (negsuc n)) = some ((256 - (n + 1)) % 256)
ullong_value (str s) = parse_ull s
ullong_value _ = none

abbrev pub is_zero : ℤ → Bool
is_zero (pos zero) = true
is_zero _ = false

-- `x != 0.0`; an infinity and what is no number differ from 0.
abbrev pub real_truth : Option Real → Bool
real_truth none = true
real_truth (some x) = not (x.num == 0)

-- `dict_get_bool`
unfoldable pub bool_value : Value → Option Bool
unfolding float_value double_value parse_bool_string
bool_value (bool b) = some (not (is_zero b))
bool_value (int z) = some (not (is_zero z))
bool_value (uint n) = some (not (n == 0))
bool_value (long z) = some (not (is_zero z))
bool_value (ulong n) = some (not (n == 0))
bool_value (llong z) = some (not (is_zero z))
bool_value (ullong n) = some (not (n == 0))
bool_value (float x) = some (real_truth (float_value x))
bool_value (double x) = some (real_truth (double_value x))
bool_value (char c) = some (not (is_zero c))
bool_value (str s) = parse_bool_string s
bool_value _ = none

-- `dict_get_ptr`
unfoldable pub ptr_value : Value → Option ℕ
ptr_value (ptr p) = some p
ptr_value _ = none

-- The frame that the getters share: the entry of the key, its value as it is read, or the default.
unfoldable pub default_or : {A : Type 0} → A → (Value → Option A) → Option KeyPair → A
default_or def read none = def
default_or def read (some kp) = elim (read kp.val) [ none ↦ def | some a ↦ a ]

unfoldable pub get_as : {A : Type 0} → (Value → Option A) → Dict → Bytes → A → Option A
unfolding default_or
get_as read d key def = do kp ← dict_get_kp d key; some (default_or def read kp)

unfoldable pub dict_get_bool : Dict → Bytes → Bool → Option Bool
unfolding get_as bool_value
dict_get_bool = get_as bool_value

unfoldable pub dict_get_int : Dict → Bytes → ℤ → Option ℤ
unfolding get_as int_value
dict_get_int = get_as int_value

unfoldable pub dict_get_uint : Dict → Bytes → ℕ → Option ℕ
unfolding get_as uint_value
dict_get_uint = get_as uint_value

unfoldable pub dict_get_ulong : Dict → Bytes → ℕ → Option ℕ
unfolding get_as ulong_value
dict_get_ulong = get_as ulong_value

unfoldable pub dict_get_long : Dict → Bytes → ℤ → Option ℤ
unfolding get_as long_value
dict_get_long = get_as long_value

unfoldable pub dict_get_llong : Dict → Bytes → ℤ → Option ℤ
unfolding get_as llong_value
dict_get_llong = get_as llong_value

-- `time_t` has 64 bits.
unfoldable pub dict_get_time_t : Dict → Bytes → ℤ → Option ℤ
unfolding dict_get_llong
dict_get_time_t = dict_get_llong

unfoldable pub dict_get_ullong : Dict → Bytes → ℕ → Option ℕ
unfolding get_as ullong_value
dict_get_ullong = get_as ullong_value

unfoldable pub dict_get_ptr : Dict → Bytes → ℕ → Option ℕ
unfolding get_as ptr_value
dict_get_ptr = get_as ptr_value
