-- ===== src/Json/Parse.antt =====
-- `json_parse_value` with its helpers, over any dictionary. The outer option is a call that does not return, the
-- inner one the result NULL; either way the dictionary is what has been added to.
use librustyaxe.Prelude.{
  ℕ, zero, suc, ◌+◌, ◌/◌, ◌%◌, Bool, true, false, not, ◌||◌, Option, none, some, [], ◌∷◌, ◌++◌,
  Bytes, ltb, ◌==◌, if◌then◌else◌, codes, bytes_eq, pos,
}
use librustyaxe.Dict.Types.{Value, null, bool}
use librustyaxe.Json.Number.{number_value}

-- What the parser uses of a dictionary: whether a key is there (`dict_get_type` is not VAL_END), and adding a value,
-- which tells whether it was added.
pub record Keys : Type 1 where
  pub Dictionary : Type 0
  pub empty : Dictionary
  pub has : Dictionary → Bytes → Option Bool
  pub add : Dictionary → Bytes → Value → Option (Bool × Dictionary)

abbrev pub json_max_depth : ℕ
json_max_depth = 64

-- Whitespace of JSON.
abbrev pub is_ws : ℕ → Bool
is_ws c = c == 32 || c == 9 || c == 13 || c == 10

abbrev pub skip_ws : Bytes → Bytes
skip_ws [] = []
skip_ws (c ∷ s) = let rest = skip_ws s in if is_ws c then rest else c ∷ s

is_index : Bytes → Bool
is_index [] = false
is_index (c ∷ s) = c == b'['

unfoldable pub path_append : Bytes → Bytes → Bytes
unfolding is_index
path_append base suffix = elim (is_index suffix) [
  | true ↦ base ++ suffix
  | false ↦ elim base [ [] ↦ suffix | c ∷ rest ↦ (c ∷ rest) ++ (b'.' ∷ suffix) ]
]

-- The digits of `%u`, of which there are at most ten.
show_digits : ℕ → ℕ → Bytes
show_digits zero n = []
show_digits (suc fuel) n =
    let front = show_digits fuel (n / 10) in
    let last = 48 + n % 10 in if ltb n 10 then last ∷ [] else front ++ (last ∷ [])

-- `snprintf` of "[%u]" for an `unsigned`
unfoldable pub index_text : ℕ → Bytes
unfolding show_digits
index_text idx = b'[' ∷ (show_digits 10 (idx % 4294967296) ++ (b']' ∷ []))

-- A byte that ends a primitive.
abbrev pub ends_primitive : ℕ → Bool
ends_primitive c = c == b',' || c == b']' || c == b'}' || is_ws c

abbrev pub primitive_part : Bytes → Bytes × Bytes
primitive_part [] = ([], [])
primitive_part (c ∷ s) =
    let (text, rest) = primitive_part s in
    if ends_primitive c then ([], c ∷ s) else (c ∷ text, rest)

unfoldable pub json_parse_primitive : Bytes → Option (Bytes × Bytes)
json_parse_primitive s = elim (primitive_part s).0 [
  | [] ↦ none
  | c ∷ text ↦ some (c ∷ text, (primitive_part s).1)
]

-- The value of a primitive.
unfoldable pub primitive_value : (Bytes → Option ℕ) → Bytes → Option Value
unfolding number_value bytes_eq
primitive_value to_double text =
    if bytes_eq text (codes "null")
    then some null
    else if bytes_eq text (codes "true")
    then some (bool (pos 1))
    else if bytes_eq text (codes "false")
    then some (bool (pos 0))
    else number_value to_double text

-- What stands at the start of a value.
pub data Start : Type 0 where
  at_end at_quote at_brace at_bracket at_other : Start

abbrev pub start_of : Bytes → Start
start_of [] = at_end
start_of (c ∷ s) =
    if c == 34
    then at_quote
    else if c == b'{'
    then at_brace
    else if c == b'['
    then at_bracket
    else at_other

-- `s + 1`
abbrev pub next : Bytes → Bytes
next [] = []
next (c ∷ s) = s

-- `*s == c`
abbrev pub starts : ℕ → Bytes → Bool
starts c [] = false
starts c (x ∷ s) = x == c

-- What stands behind a member or an item: the end of the list, or a comma and then another one; none is an error.
unfoldable pub separator : ℕ → Bytes → Option (Bool × Bytes)
separator close s =
    let after = skip_ws s in
    if starts close after
    then some (true, next after)
    else if not (starts b',' after)
    then none
    else if starts close (skip_ws (next after))
    then none
    else some (false, skip_ws (next after))
