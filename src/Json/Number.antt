-- ===== src/Json/Number.antt =====
-- The numbers of json.c: the grammar, and the type that a number is stored with. `strtod` is a parameter.
use librustyaxe.Prelude.{
  ℕ, ◌^◌, ◌≡◌, refl, ◌≢◌, Bool, true, false, not, ◌&&◌, ◌||◌, Option, none, some, [], ◌∷◌, Bytes,
  leb, ◌==◌, if◌then◌else◌, ◌>>=◌, is_digit, has_byte, all_bytes, ℤ, pos, arith, Bool-cases, inl,
  inr, ◌∙◌,
}
use librustyaxe.Dict.Types.{Value, int, uint, long, ulong, llong, ullong, double}
use librustyaxe.Dict.Number.Strings.{strtoll, strtoull, ends}
use librustyaxe.Dict.Number.Getters.{between, int_max, uint_max, long_max, ulong_max}
use librustyaxe.Dict.Number.Exact.{decimal, read_signed-decimal}

abbrev pub skip_digits : Bytes → Bytes
skip_digits [] = []
skip_digits (c ∷ s) = let rest = skip_digits s in if is_digit c then rest else c ∷ s

-- Digits that must be there.
abbrev pub some_digits : Bytes → Option Bytes
some_digits [] = none
some_digits (c ∷ s) = if is_digit c then some (skip_digits s) else none

skip_minus : Bytes → Bytes
skip_minus [] = []
skip_minus (c ∷ s) = if c == b'-' then s else c ∷ s

-- No digit follows a leading 0.
whole_part : Bytes → Option Bytes
whole_part [] = none
whole_part (c ∷ s) =
    if c == b'0' then some s else if leb b'1' c && leb c b'9' then some (skip_digits s) else none

fraction : Bytes → Option Bytes
fraction [] = some []
fraction (c ∷ s) = if c == b'.' then some_digits s else some (c ∷ s)

skip_sign : Bytes → Bytes
skip_sign [] = []
skip_sign (c ∷ s) = if c == b'+' || c == b'-' then s else c ∷ s

exponent : Bytes → Option Bytes
unfolding skip_sign
exponent [] = some []
exponent (c ∷ s) = if c == b'e' || c == b'E' then some_digits (skip_sign s) else some (c ∷ s)

unfoldable pub is_number : Bytes → Bool
unfolding skip_minus whole_part fraction exponent
is_number s = elim (do a ← whole_part (skip_minus s); b ← fraction a; exponent b) [
  | some [] ↦ true
  | _ ↦ false
]

-- `!strpbrk(s, ".eE")`
unfoldable pub json_number_is_integer : Bytes → Bool
unfolding has_byte
json_number_is_integer s = not (has_byte b'.' s || has_byte b'e' s || has_byte b'E' s)

starts_minus : Bytes → Bool
starts_minus [] = false
starts_minus (c ∷ s) = c == b'-'

signed_value : ℤ → Value
signed_value z =
    if between (2 ^ 31) int_max z
    then int z
    else if between (2 ^ 63) long_max z
    then long z
    else llong z

unsigned_value : ℕ → Value
unsigned_value n = if leb n uint_max then uint n else if leb n ulong_max then ulong n else ullong n

-- A number that `strtoll` does not take is tried as an unsigned one.
unfoldable pub unsigned_reading : Bytes → Option Value
unfolding starts_minus unsigned_value strtoull
unsigned_reading s = if starts_minus s then none else elim (strtoull s) [
  | none ↦ none
  | some (n, rest) ↦ if ends s rest then some (unsigned_value n) else none
]

unfoldable pub integer_value : Bytes → Option Value
unfolding signed_value
integer_value s = elim (strtoll s) [
  | none ↦ unsigned_reading s
  | some (z, rest) ↦ if ends s rest then some (signed_value z) else unsigned_reading s
]

-- `strtod` with its checks gives the bits of a finite double.
unfoldable pub number_value : (Bytes → Option ℕ) → Bytes → Option Value
unfolding is_number json_number_is_integer integer_value
number_value to_double s =
    if not (is_number s)
    then none
    else if json_number_is_integer s
    then integer_value s
    else elim (to_double s) [ none ↦ none | some bits ↦ some (double bits) ]

-- The type that keeps a number: `int` where it can, then `long`, then `unsigned long`.
abbrev pub narrowest : ℕ → Option Value
narrowest n =
    if leb n int_max
    then some (int (pos n))
    else if leb n long_max
    then some (long (pos n))
    else if leb n ulong_max
    then some (ulong n)
    else none

skip_digits-all : (s : Bytes) → all_bytes is_digit s ≡ true → skip_digits s ≡ []
skip_digits-all [] h = refl
skip_digits-all (c ∷ s) h = ground (arith, skip_digits-all s)

no_byte :
    (b : ℕ) (s : Bytes) → is_digit b ≡ false → all_bytes is_digit s ≡ true → has_byte b s ≡ false
unfolding has_byte
no_byte b [] n h = refl
no_byte b (c ∷ s) n h = ground (arith, no_byte b s n)

is_integer-digits : (s : Bytes) → all_bytes is_digit s ≡ true → json_number_is_integer s ≡ true
unfolding json_number_is_integer
is_integer-digits s h =
    rw (json_number_is_integer, no_byte b'.' s refl h, no_byte b'e' s refl h, no_byte b'E' s refl h)

is_number-digits :
    (c : ℕ) (s : Bytes)
    → leb b'1' c && leb c b'9' ≡ true
    → all_bytes is_digit s ≡ true
    → is_number (c ∷ s) ≡ true
unfolding is_number
is_number-digits c s first h =
    let not_minus : (c == b'-') ≡ false = ground arith in
    let not_zero : (c == b'0') ≡ false = ground arith in
    rw (is_number, not_minus, not_zero, first, skip_digits-all s h)

module _ (s : Bytes) (digits : all_bytes is_digit s ≡ true) (ne : s ≢ []) where
  strtoll-decimal :
      strtoll s ≡ (if leb (decimal 0 s) long_max then some (pos (decimal 0 s), []) else none)
  unfolding strtoll
  strtoll-decimal = rw (strtoll, read_signed-decimal s digits ne) (ground arith)

  strtoull-decimal :
      strtoull s ≡ (if leb (decimal 0 s) ulong_max then some (decimal 0 s, []) else none)
  unfolding strtoull
  strtoull-decimal = rw (strtoull, read_signed-decimal s digits ne) (ground arith)

unsigned_reading-digits :
    (c : ℕ) (s : Bytes)
    → all_bytes is_digit (c ∷ s) ≡ true
    → unsigned_reading (c ∷ s) ≡ (
        if leb (decimal 0 (c ∷ s)) ulong_max
        then some (unsigned_value (decimal 0 (c ∷ s)))
        else none)
unfolding unsigned_reading
unsigned_reading-digits c s digits =
    let not_minus : (c == b'-') ≡ false = ground arith in
    rw (unsigned_reading, not_minus, strtoull-decimal (c ∷ s) digits (λ e. cc e)) (ground arith)

integer_value-digits :
    (c : ℕ) (s : Bytes)
    → all_bytes is_digit (c ∷ s) ≡ true
    → integer_value (c ∷ s) ≡ narrowest (decimal 0 (c ∷ s))
unfolding integer_value unsigned_value
integer_value-digits c s digits =
    let n = decimal 0 (c ∷ s) in
    let unsigned = unsigned_reading-digits c s digits in
    elim (Bool-cases (leb n long_max)) [
      | inl e ↦ rw (integer_value, strtoll-decimal (c ∷ s) digits (λ e'. cc e'), e) (ground arith)
      | inr e ↦
          rw (integer_value, strtoll-decimal (c ∷ s) digits (λ e'. cc e'), e)
            (unsigned ∙ ground arith)
    ]

-- From a number of decimal digits, however many, of which the first is not 0, the parser makes exactly the number
-- that they spell, in the first of `int`, `long` and `unsigned long` that holds it, and refuses it if none does.
pub number_value-digits :
    (to_double : Bytes → Option ℕ) (c : ℕ) (s : Bytes)
    → leb b'1' c && leb c b'9' ≡ true
    → all_bytes is_digit s ≡ true
    → number_value to_double (c ∷ s) ≡ narrowest (decimal 0 (c ∷ s))
unfolding number_value
number_value-digits to_double c s first h =
    let digits : all_bytes is_digit (c ∷ s) ≡ true = ground arith in
    rw (number_value, is_number-digits c s first h, is_integer-digits (c ∷ s) digits)
      (integer_value-digits c s digits)
