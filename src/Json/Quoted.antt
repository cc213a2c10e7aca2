-- ===== src/Json/Quoted.antt =====
-- What `json_escape` prints, `json_parse_str` reads back.
use librustyaxe.Prelude.{
  ℕ, zero, suc, ◌/◌, ◌%◌, ◌<◌, ◌≤◌, ◌≡◌, refl, false, some, [], ◌∷◌, ◌++◌, Bytes, ltb, ◌==◌, length,
  length-append, arith, All,
}
use mathlib.Core.List.{append_assoc}
use librustyaxe.Json.Strings.{
  hex_digit, unicode_escape, escape_byte, escape_bytes, json_escape, read_unit, unescape_bytes,
  before_quote, json_unescape, token_end, json_parse_str,
}
use librustyaxe.Json.Printed.{plain, control, letter, escape_byte-Printed, read_unit-escape_byte}

-- A token that ends behind a byte ends behind the bytes before it.
token_plain :
    (c : ℕ) (t : Bytes) {inner rest : Bytes}
    → 32 ≤ c
    → (c == 34) ≡ false
    → (c == 92) ≡ false
    → token_end t ≡ some (inner, rest)
    → token_end (c ∷ t) ≡ some (c ∷ inner, rest)
unfolding token_end
token_plain c [] low q b h = absurd (ground arith)
token_plain c (d ∷ t) low q b h =
    let high : ltb c 32 ≡ false = ground arith in rw (token_end, q, high, b, h)

token_escaped :
    (x : ℕ) (t : Bytes) {inner rest : Bytes}
    → token_end t ≡ some (inner, rest)
    → token_end (92 ∷ x ∷ t) ≡ some (92 ∷ x ∷ inner, rest)
unfolding token_end
token_escaped x t h = rw h

token_hex :
    (n : ℕ) (t : Bytes) {inner rest : Bytes}
    → n < 16
    → token_end t ≡ some (inner, rest)
    → token_end (hex_digit n ∷ t) ≡ some (hex_digit n ∷ inner, rest)
token_hex n t h e = token_plain (hex_digit n) t (ground arith) (ground arith) (ground arith) e

token_control :
    (c : ℕ) (t : Bytes) {inner rest : Bytes}
    → c < 32
    → token_end t ≡ some (inner, rest)
    → token_end (unicode_escape c ++ t) ≡ some (unicode_escape c ++ inner, rest)
unfolding unicode_escape
token_control c t h e =
    let low = token_hex (c % 16) t (omega arith) e in
    let high = token_hex (c / 16) (hex_digit (c % 16) ∷ t) (omega arith) low in
    let second =
      token_plain 48 (hex_digit (c / 16) ∷ hex_digit (c % 16) ∷ t) (omega arith) refl refl high in
    let first =
      token_plain 48 (48 ∷ hex_digit (c / 16) ∷ hex_digit (c % 16) ∷ t) (omega arith) refl refl
        second in
    token_escaped b'u' (48 ∷ 48 ∷ hex_digit (c / 16) ∷ hex_digit (c % 16) ∷ t) first

token_end-escape_byte :
    (c : ℕ) (t : Bytes) {inner rest : Bytes}
    → token_end t ≡ some (inner, rest)
    → token_end (escape_byte c ++ t) ≡ some (escape_byte c ++ inner, rest)
token_end-escape_byte c t h = elim (escape_byte-Printed c) [
  | plain e low q b ↦ rw e (token_plain c t low q b h)
  | control e high ↦ rw e (token_control c t high h)
  | letter x e r ↦ rw e (token_escaped x t h)
]

token_end-escape_bytes :
    (s rest : Bytes) → token_end (escape_bytes s ++ (34 ∷ rest)) ≡ some (escape_bytes s, rest)
unfolding escape_bytes
token_end-escape_bytes [] [] = unfold token_end in refl
token_end-escape_bytes [] (d ∷ rest) = unfold token_end in refl
token_end-escape_bytes (c ∷ s) rest =
    rw (append_assoc (escape_byte c) (escape_bytes s) (34 ∷ rest))
      (token_end-escape_byte c (escape_bytes s ++ (34 ∷ rest)) (token_end-escape_bytes s rest))

escape_byte_some : (c : ℕ) → 1 ≤ length (escape_byte c)
escape_byte_some c = elim (escape_byte-Printed c) [
  | plain e low q b ↦ rw e (omega arith)
  | control e high ↦ rw e (unfold unicode_escape in omega arith)
  | letter x e r ↦ rw e (omega arith)
]

-- The bytes of a C string are not 0.
abbrev pub IsString : Bytes → Type 0
IsString s = All (λ c. 0 < c) s

-- One round of the loop.
unescape_step :
    (fuel x : ℕ) (u : Bytes) {out rest after : Bytes}
    → read_unit x u ≡ some (out, rest)
    → unescape_bytes fuel rest ≡ some after
    → unescape_bytes (suc fuel) (x ∷ u) ≡ some (out ++ after)
unfolding unescape_bytes
unescape_step fuel x u first next = rw (first, next)

unescape-escape :
    (fuel : ℕ) (s : Bytes)
    → IsString s
    → length (escape_bytes s) ≤ fuel
    → unescape_bytes fuel (escape_bytes s) ≡ some s
unfolding escape_bytes
unescape-escape fuel [] h enough = unfold unescape_bytes in refl
unescape-escape zero (c ∷ s) h enough =
    absurd (omega (arith, escape_byte_some c, length-append (escape_byte c) (escape_bytes s)))
unescape-escape (suc fuel) (c ∷ s) (low, h) enough =
    let (x, u, printed, read) = read_unit-escape_byte c (escape_bytes s) low in
    let shorter = escape_byte_some c in
    let sizes = length-append (escape_byte c) (escape_bytes s) in
    rw printed
      (unescape_step fuel x u read (unescape-escape fuel s h (omega (arith, shorter, sizes))))

before_quote-append : (s : Bytes) → before_quote (s ++ (34 ∷ [])) ≡ some s
unfolding before_quote
before_quote-append [] = refl
before_quote-append (c ∷ []) = refl
before_quote-append (c ∷ d ∷ s) = rw (before_quote-append (d ∷ s))

unescape_quoted :
    (s : Bytes) → IsString s → json_unescape (34 ∷ (escape_bytes s ++ (34 ∷ []))) ≡ some s
unfolding json_unescape
unescape_quoted s h =
    rw (json_unescape, before_quote-append (escape_bytes s))
      (unescape-escape (length (escape_bytes s)) s h (omega arith))

-- From what `json_escape` prints of a C string, whatever bytes it holds, `json_unescape` gives the string back; and with
-- anything behind it, `json_parse_str` reads the string and stops where the rest begins.
pub json_parse_str-json_escape :
    (s rest : Bytes)
    → IsString s
    → (json_unescape (json_escape (some s)) ≡ some s)
      × (json_parse_str (json_escape (some s) ++ rest) ≡ some (s, rest))
unfolding json_escape json_parse_str
json_parse_str-json_escape s rest h = (
  unescape_quoted s h,
  rw (
    json_parse_str,
    append_assoc (escape_bytes s) (34 ∷ []) rest,
    token_end-escape_bytes s rest,
    unescape_quoted s h,
  ),
)
