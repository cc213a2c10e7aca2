-- ===== src/Dict/Number/Exact.antt =====
-- The integer getters of dict.c against the exact numbers: stored integers and decimal strings.
use librustyaxe.Prelude.{
  ℕ, ◌+◌, ◌-◌, ◌*◌, ◌^◌, ◌≤◌, ◌≡◌, refl, ◌≢◌, Bool, true, false, Option, none, some, [], ◌∷◌, arith,
  Bytes, leb, if◌then◌else◌, is_digit, all_bytes, ℤ, pos, negsuc,
}
use librustyaxe.Dict.Types.{Value, int, uint, long, ulong, llong, ullong, char, str}
use librustyaxe.Dict.Number.Strings.{
  skip_spaces, read_digits, read_unsigned, read_signed, strtoll, strtoull, ends, parse_ll,
  parse_ull,
}
use librustyaxe.Dict.Number.Getters.{
  between, int_max, uint_max, long_max, ulong_max, int_value, uint_value, ulong_value, long_value,
  llong_value, ullong_value,
}

-- The number that an integer value holds.
abbrev pub integer : Value → Option ℤ
integer (int z) = some z
integer (uint n) = some (pos n)
integer (long z) = some z
integer (ulong n) = some (pos n)
integer (llong z) = some z
integer (ullong n) = some (pos n)
integer _ = none

-- Each integer is in the range of its C type.
abbrev pub IsTyped : Value → Type 0
IsTyped (int z) = between (2 ^ 31) int_max z ≡ true
IsTyped (uint n) = n ≤ uint_max
IsTyped (long z) = between (2 ^ 63) long_max z ≡ true
IsTyped (ulong n) = n ≤ ulong_max
IsTyped (llong z) = between (2 ^ 63) long_max z ≡ true
IsTyped (ullong n) = n ≤ ulong_max
IsTyped (char z) = between 128 127 z ≡ true
IsTyped _ = Unit

-- A number if a signed type holds it, `-low` to `high`; and if an unsigned one does.
abbrev pub fit : ℕ → ℕ → ℤ → Option ℤ
fit low high z = if between low high z then some z else none

abbrev pub fit_nat : ℕ → ℤ → Option ℕ
fit_nat high (pos n) = if leb n high then some n else none
fit_nat high (negsuc n) = none

-- What the six getters make of a value that stands for `z`.
pub record Gets (v : Value) (z : ℤ) : Type 0 where
  pub as_int : int_value v ≡ fit (2 ^ 31) int_max z
  pub as_uint : uint_value v ≡ fit_nat uint_max z
  pub as_long : long_value v ≡ fit (2 ^ 63) long_max z
  pub as_ulong : ulong_value v ≡ fit_nat ulong_max z
  pub as_llong : llong_value v ≡ fit (2 ^ 63) long_max z
  pub as_ullong : ullong_value v ≡ fit_nat ulong_max z

-- From a stored integer of any type, each of the six integer getters reads the number itself if its own
-- type holds it, and fails otherwise: nothing wraps.
pub integer-Gets : (v : Value) (z : ℤ) → IsTyped v → integer v ≡ some z → Gets v z
unfolding int_value uint_value long_value ulong_value llong_value ullong_value
integer-Gets (int (pos n)) z t e = ground arith
integer-Gets (int (negsuc n)) z t e = ground arith
integer-Gets (uint n) z t e = ground arith
integer-Gets (long (pos n)) z t e = ground arith
integer-Gets (long (negsuc n)) z t e = ground arith
integer-Gets (ulong n) z t e = ground arith
integer-Gets (llong (pos n)) z t e = ground arith
integer-Gets (llong (negsuc n)) z t e = ground arith
integer-Gets (ullong n) z t e = ground arith
integer-Gets _ z t e = ground arith

-- The value of a string of digits, from the value so far.
abbrev pub decimal : ℕ → Bytes → ℕ
decimal n [] = n
decimal n (c ∷ s) = decimal (n * 10 + (c - 48)) s

read_digits-decimal :
    (n : ℕ) (s : Bytes) → all_bytes is_digit s ≡ true → read_digits n s ≡ (decimal n s, [])
unfolding read_digits
read_digits-decimal n [] h = refl
read_digits-decimal n (c ∷ s) h = ground (arith, read_digits-decimal (n * 10 + (c - 48)) s)

pub read_unsigned-decimal :
    (minus : Bool) (s : Bytes)
    → all_bytes is_digit s ≡ true
    → s ≢ []
    → read_unsigned minus s ≡ some (minus, decimal 0 s, [])
unfolding read_unsigned
read_unsigned-decimal minus [] h ne = absurd (ne refl)
read_unsigned-decimal minus (c ∷ s) h ne = ground (arith, read_digits-decimal 0 (c ∷ s) h)

skip_spaces-digits : (s : Bytes) → all_bytes is_digit s ≡ true → skip_spaces s ≡ s
skip_spaces-digits [] h = refl
skip_spaces-digits (c ∷ s) h = ground arith

pub read_signed-decimal :
    (s : Bytes)
    → all_bytes is_digit s ≡ true
    → s ≢ []
    → read_signed (skip_spaces s) ≡ some (false, decimal 0 s, [])
unfolding read_signed
read_signed-decimal [] h ne = absurd (ne refl)
read_signed-decimal (c ∷ s) h ne =
    rw (skip_spaces-digits (c ∷ s) h) (ground (arith, read_unsigned-decimal false (c ∷ s) h ne))

non_empty : (s : Bytes) → s ≢ [] → ends s [] ≡ true
non_empty [] ne = absurd (ne refl)
non_empty (c ∷ s) ne = ground arith

module _ (s : Bytes) (h : all_bytes is_digit s ≡ true) (ne : s ≢ []) where
  parse_ll-decimal :
      parse_ll (some s) ≡ (if leb (decimal 0 s) long_max then some (pos (decimal 0 s)) else none)
  unfolding parse_ll
  parse_ll-decimal =
      rw (parse_ll, strtoll, read_signed-decimal s h ne) (ground (arith, non_empty s ne))

  parse_ull-decimal :
      parse_ull (some s) ≡ (if leb (decimal 0 s) ulong_max then some (decimal 0 s) else none)
  unfolding parse_ull
  parse_ull-decimal =
      rw (parse_ull, strtoull, read_signed-decimal s h ne) (ground (arith, non_empty s ne))

  -- From a string of decimal digits, however long, each of the six integer getters reads the number
  -- it spells if its own type holds that number, and fails otherwise.
  pub digits-Gets : Gets (str (some s)) (pos (decimal 0 s))
  unfolding int_value uint_value long_value ulong_value llong_value ullong_value
  digits-Gets = record {
    as_int = rw (parse_ll-decimal, parse_ull-decimal) (ground arith);
    as_uint = rw (parse_ll-decimal, parse_ull-decimal) (ground arith);
    as_long = rw (parse_ll-decimal) (ground arith);
    as_ulong = rw (parse_ll-decimal, parse_ull-decimal) (ground arith);
    as_llong = rw (parse_ll-decimal, parse_ull-decimal) (ground arith);
    as_ullong = rw (parse_ull-decimal) (ground arith);
  }
