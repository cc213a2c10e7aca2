-- ===== src/Dict/Number/Strings.antt =====
-- The string parsers of dict.c, with the `strtoll` and `strtoull` of the C library at base 10.
use librustyaxe.Prelude.{
  ℕ, ◌+◌, ◌-◌, ◌*◌, ◌%◌, ◌^◌, Bool, true, false, not, ◌&&◌, ◌||◌, Option, none, some, [], ◌∷◌,
  Bytes, length, codes, bytes_eq, bytes_eq_nocase, ltb, ◌==◌, if◌then◌else◌, is_digit, is_space, ℤ,
  pos,
}
use librustyaxe.Dict.Number.Real.{neg}

abbrev pub skip_spaces : Bytes → Bytes
skip_spaces [] = []
skip_spaces (c ∷ s) = let rest = skip_spaces s in if is_space c then rest else c ∷ s

-- The value of the digits ahead, from the value so far, and what stands behind them.
unfoldable pub read_digits : ℕ → Bytes → ℕ × Bytes
read_digits n [] = (n, [])
read_digits n (c ∷ s) =
    let rest = read_digits (n * 10 + (c - 48)) s in if is_digit c then rest else (n, c ∷ s)

-- The sign, the magnitude and what stands behind the digits; none where there is no digit.
unfoldable pub read_unsigned : Bool → Bytes → Option (Bool × ℕ × Bytes)
unfolding read_digits
read_unsigned minus [] = none
read_unsigned minus (c ∷ s) =
    if is_digit c then (let (n, rest) = read_digits 0 (c ∷ s) in some (minus, n, rest)) else none

unfoldable pub read_signed : Bytes → Option (Bool × ℕ × Bytes)
unfolding read_unsigned
read_signed [] = none
read_signed (c ∷ s) =
    if c == b'-'
    then read_unsigned true s
    else if c == b'+'
    then read_unsigned false s
    else read_unsigned false (c ∷ s)

-- `strtoll`: the value with `*endptr`; none where errno is ERANGE. Without a digit it is 0 at the start.
unfoldable pub strtoll : Bytes → Option (ℤ × Bytes)
unfolding read_signed
strtoll s = elim (read_signed (skip_spaces s)) [
  | none ↦ some (pos 0, s)
  | some (minus, n, rest) ↦
      if ltb (if minus then 2 ^ 63 else 2 ^ 63 - 1) n
      then none
      else some (if minus then neg n else pos n, rest)
]

-- `strtoull`: a minus sign negates the value in the unsigned type.
unfoldable pub strtoull : Bytes → Option (ℕ × Bytes)
unfolding read_signed
strtoull s = elim (read_signed (skip_spaces s)) [
  | none ↦ some (0, s)
  | some (minus, n, rest) ↦
      if ltb (2 ^ 64 - 1) n then none else some (if minus then (2 ^ 64 - n) % 2 ^ 64 else n, rest)
]

abbrev pub is_empty : Bytes → Bool
is_empty [] = true
is_empty (c ∷ s) = false

-- `ep != s && !*ep`, for an end `ep` of `s`
abbrev pub ends : Bytes → Bytes → Bool
ends s ep = not (length ep == length s) && is_empty ep

-- A string may be NULL. Spaces behind the number are passed over before `ep` is compared.
unfoldable pub parse_ll : Option Bytes → Option ℤ
unfolding strtoll
parse_ll none = none
parse_ll (some s) = elim (strtoll s) [
  | none ↦ none
  | some (v, rest) ↦ if ends s (skip_spaces rest) then some v else none
]

unfoldable pub parse_ull : Option Bytes → Option ℕ
unfolding strtoull
parse_ull none = none
parse_ull (some s) = elim (strtoull s) [
  | none ↦ none
  | some (v, rest) ↦ if ends s (skip_spaces rest) then some v else none
]

unfoldable pub parse_bool_string : Option Bytes → Option Bool
unfolding bytes_eq
parse_bool_string none = none
parse_bool_string (some s) =
    if bytes_eq_nocase s (codes "true")
      || bytes_eq_nocase s (codes "yes")
      || bytes_eq_nocase s (codes "on")
      || bytes_eq s (codes "1")
    then some true
    else if bytes_eq_nocase s (codes "false")
        || bytes_eq_nocase s (codes "no")
        || bytes_eq_nocase s (codes "off")
        || bytes_eq s (codes "0")
    then some false
    else none
