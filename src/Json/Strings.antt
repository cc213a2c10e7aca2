-- ===== src/Json/Strings.antt =====
-- The strings of json.c: `json_escape`, `json_unescape` and `json_parse_str`. The allocations succeed.
use librustyaxe.Prelude.{
  ℕ, zero, suc, ◌+◌, ◌-◌, ◌*◌, ◌/◌, ◌%◌, true, false, not, ◌&&◌, ◌||◌, Option, none, some, [], ◌∷◌,
  ◌++◌, Bytes, ltb, leb, ◌==◌, if◌then◌else◌, ◌>>=◌, is_digit, length,
}

-- A digit of `%04x`.
abbrev pub hex_digit : ℕ → ℕ
hex_digit n = if ltb n 10 then 48 + n else 87 + n

-- `sprintf(p, "\\u%04x", c)` for a byte
unfoldable pub unicode_escape : ℕ → Bytes
unicode_escape c = 92 ∷ b'u' ∷ 48 ∷ 48 ∷ hex_digit (c / 16) ∷ hex_digit (c % 16) ∷ []

-- What `json_escape` writes for a byte.
unfoldable pub escape_byte : ℕ → Bytes
unfolding unicode_escape
escape_byte c =
    if c == 34
    then 92 ∷ 34 ∷ []
    else if c == 92
    then 92 ∷ 92 ∷ []
    else if c == 8
    then 92 ∷ b'b' ∷ []
    else if c == 12
    then 92 ∷ b'f' ∷ []
    else if c == 10
    then 92 ∷ b'n' ∷ []
    else if c == 13
    then 92 ∷ b'r' ∷ []
    else if c == 9
    then 92 ∷ b't' ∷ []
    else if ltb c 32
    then unicode_escape c
    else c ∷ []

unfoldable pub escape_bytes : Bytes → Bytes
unfolding escape_byte
escape_bytes [] = []
escape_bytes (c ∷ s) = escape_byte c ++ escape_bytes s

-- A NULL string is printed as the empty one.
unfoldable pub json_escape : Option Bytes → Bytes
unfolding escape_bytes
json_escape none = 34 ∷ 34 ∷ []
json_escape (some s) = 34 ∷ (escape_bytes s ++ (34 ∷ []))

unfoldable pub hex_value : ℕ → Option ℕ
hex_value c =
    if is_digit c
    then some (c - 48)
    else if leb 97 c && leb c 102
    then some (c - 97 + 10)
    else if leb 65 c && leb c 70
    then some (c - 65 + 10)
    else none

-- The digits left to read, and the value so far.
unfoldable pub hex_digits : ℕ → ℕ → Bytes → Option (ℕ × Bytes)
hex_digits zero code s = some (code, s)
hex_digits (suc n) code [] = none
hex_digits (suc n) code (c ∷ s) = do digit ← hex_value c; hex_digits n (code * 16 + digit) s

unfoldable pub json_hex4 : Bytes → Option (ℕ × Bytes)
unfolding hex_value hex_digits
json_hex4 s = hex_digits 4 0 s

-- The encoding of a code point.
unfoldable pub utf8 : ℕ → Bytes
utf8 code =
    if ltb code 128
    then code ∷ []
    else if ltb code 2048
    then (192 + code / 64) ∷ (128 + code % 64) ∷ []
    else if ltb code 65536
    then (224 + code / 4096) ∷ (128 + code / 64 % 64) ∷ (128 + code % 64) ∷ []
    else (240 + code / 262144)
      ∷ (128 + code / 4096 % 64)
      ∷ (128 + code / 64 % 64)
      ∷ (128 + code % 64)
      ∷ []

-- The second half of a surrogate pair, after the first.
unfoldable pub low_surrogate : ℕ → Bytes → Option (Bytes × Bytes)
low_surrogate code (x ∷ y ∷ s) = if not (x == 92) || not (y == b'u') then none else (do
  (low, rest) ← json_hex4 s
  if ltb low 56320 || ltb 57343 low
      then none
      else some (utf8 (65536 + (code - 55296) * 1024 + (low - 56320)), rest))
low_surrogate code _ = none

unfoldable pub read_unicode : Bytes → Option (Bytes × Bytes)
unfolding json_hex4 utf8 low_surrogate
read_unicode s = do
  (code, rest) ← json_hex4 s
  if code == 0
      then none
      else if leb 55296 code && leb code 56319
      then low_surrogate code rest
      else if leb 56320 code && leb code 57343
      then none
      else some (utf8 code, rest)

-- What follows a backslash: the bytes it stands for, and the rest.
unfoldable pub read_escape : Bytes → Option (Bytes × Bytes)
unfolding read_unicode
read_escape [] = none
read_escape (c ∷ s) =
    if c == 34 || c == 92 || c == b'/'
    then some (c ∷ [], s)
    else if c == b'b'
    then some (8 ∷ [], s)
    else if c == b'f'
    then some (12 ∷ [], s)
    else if c == b'n'
    then some (10 ∷ [], s)
    else if c == b'r'
    then some (13 ∷ [], s)
    else if c == b't'
    then some (9 ∷ [], s)
    else if c == b'u'
    then read_unicode s
    else none

-- A round of the loop of `json_unescape`.
unfoldable pub read_unit : ℕ → Bytes → Option (Bytes × Bytes)
unfolding read_escape
read_unit c s =
    if ltb c 32 || c == 34 then none else if not (c == 92) then some (c ∷ [], s) else read_escape s

-- The loop, with the rounds left; each reads a byte at least.
unfoldable pub unescape_bytes : ℕ → Bytes → Option Bytes
unescape_bytes fuel [] = some []
unescape_bytes zero (c ∷ s) = none
unescape_bytes (suc fuel) (c ∷ s) = do
  (out, rest) ← read_unit c s
  after ← unescape_bytes fuel rest
  some (out ++ after)

-- What stands before the last byte of a string, if that is a quote.
unfoldable pub before_quote : Bytes → Option Bytes
before_quote [] = none
before_quote (c ∷ []) = if c == 34 then some [] else none
before_quote (c ∷ d ∷ s) = do inner ← before_quote (d ∷ s); some (c ∷ inner)

unfoldable pub json_unescape : Bytes → Option Bytes
unfolding unescape_bytes before_quote
json_unescape [] = none
json_unescape (c ∷ s) =
    if c == 34 then (do inner ← before_quote s; unescape_bytes (length inner) inner) else none

-- The end of a quoted token: what stands before the quote, and after it.
unfoldable pub token_end : Bytes → Option (Bytes × Bytes)
token_end [] = none
token_end (c ∷ []) = if c == 34 then some ([], []) else none
token_end (c ∷ d ∷ s) =
    if c == 34 then some ([], d ∷ s) else if ltb c 32 then none else elim (c == 92) [
      | true ↦ (do (inner, rest) ← token_end s; some (c ∷ d ∷ inner, rest))
      | false ↦ (do (inner, rest) ← token_end (d ∷ s); some (c ∷ inner, rest))
    ]

unfoldable pub json_parse_str : Bytes → Option (Bytes × Bytes)
unfolding token_end json_unescape
json_parse_str [] = none
json_parse_str (c ∷ s) =
    if c == 34
    then (do
      (inner, rest) ← token_end s
      text ← json_unescape (34 ∷ (inner ++ (34 ∷ [])))
      some (text, rest))
    else none
