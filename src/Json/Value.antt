-- ===== src/Json/Value.antt =====
-- The recursive part of `json_parse_value`, `json_parse_obj` and `json_parse_array`, and `json2dict`.
use librustyaxe.Prelude.{
  ℕ, zero, suc, ◌+◌, ◌*◌, Bool, true, false, ◌&&◌, ◌||◌, Option, none, some, [], ◌∷◌, Bytes, ltb,
  if◌then◌else◌, ◌>>=◌, pos, length,
}
use librustyaxe.Dict.Types.{str, bool}
use librustyaxe.Json.Strings.{json_parse_str}
use librustyaxe.Json.Parse.{
  Keys, json_max_depth, skip_ws, path_append, index_text, json_parse_primitive, primitive_value,
  Start, at_quote, at_brace, at_bracket, start_of, next, starts, separator,
}

abbrev pub is_end : Bytes → Bool
is_end [] = true
is_end (c ∷ s) = false

module _ (keys : Keys) (to_double : Bytes → Option ℕ) where
  -- The dictionary, and what stands behind the value; none is NULL.
  abbrev pub Outcome : Type 0
  Outcome = keys.Dictionary × Option Bytes

  -- The result of adding a value, in front of the rest.
  unfoldable pub added : Bytes → Bool × keys.Dictionary → Outcome
  added rest (ok, d) = (d, if ok then some rest else none)

  unfoldable pub add_string : Bytes → Bytes → keys.Dictionary → Option Outcome
  unfolding added
  add_string s path d = elim (json_parse_str s) [
    | none ↦ some (d, none)
    | some (text, rest) ↦ (do r ← keys.add d path (str (some text)); some (added rest r))
  ]

  unfoldable pub add_primitive : Bytes → Bytes → keys.Dictionary → Option Outcome
  unfolding added
  add_primitive s path d = elim (json_parse_primitive s) [
    | none ↦ some (d, none)
    | some (text, rest) ↦ elim (primitive_value to_double text) [
      | none ↦ some (d, none)
      | some v ↦ (do r ← keys.add d path v; some (added rest r))
    ]
  ]

  -- The key of a member and what stands behind it, if it is new to the object, with the keys so far.
  unfoldable pub member_key :
      Bytes → keys.Dictionary → Option (Option (Bytes × Bytes × keys.Dictionary))
  member_key s seen = elim (json_parse_str s) [
    | none ↦ some none
    | some (key, rest) ↦ (do
      known ← keys.has seen key
      elim known [
        | true ↦ some none
        | false ↦ (do
          (ok, seen') ← keys.add seen key (bool (pos 1))
          some (
              if ok && starts b':' (skip_ws rest)
              then some (key, next (skip_ws rest), seen')
              else none))
      ])
  ]

  -- The value after its first byte is seen; the last arguments read what stands behind a brace or a bracket.
  unfoldable pub at_start :
      Start
      → Bytes
      → Bytes
      → keys.Dictionary
      → (Bytes → Option Outcome)
      → (Bytes → Option Outcome)
      → Option Outcome
  unfolding add_string add_primitive
  at_start at_quote s path d members items = add_string s path d
  at_start at_brace s path d members items =
      let inside = skip_ws (next s) in
      if starts b'}' inside then some (d, some (next inside)) else members inside
  at_start at_bracket s path d members items =
      let inside = skip_ws (next s) in
      if starts b']' inside then some (d, some (next inside)) else items inside
  at_start _ s path d members items = add_primitive s path d

  -- After the value of a member or an item: the end of the list, or another one.
  unfoldable pub proceed : ℕ → Outcome → (Bytes → Option Outcome) → Option Outcome
  unfolding separator
  proceed close (d, none) continue = some (d, none)
  proceed close (d, some after) continue = elim (separator close after) [
    | none ↦ some (d, none)
    | some (true, end) ↦ some (d, some end)
    | some (false, more) ↦ continue more
  ]

  unfoldable mutual
    pub json_parse_value : ℕ → Bytes → Bytes → keys.Dictionary → ℕ → Option Outcome
    json_parse_value zero s path d depth = none
    json_parse_value (suc n) s path d depth =
        elim (is_end (skip_ws s) || ltb json_max_depth depth) [
          | true ↦ some (d, none)
          | false ↦ (do
            known ← keys.has d path
            elim known [
              | true ↦ some (d, none)
              | false ↦
                  at_start (start_of (skip_ws s)) (skip_ws s) path d
                    (λ inside. json_parse_obj n inside path keys.empty d depth)
                    (λ inside. json_parse_array n 0 inside path d depth)
            ])
        ]

    -- The loop over the members; `seen` holds the keys of the object.
    pub json_parse_obj : ℕ → Bytes → Bytes → keys.Dictionary → keys.Dictionary → ℕ → Option Outcome
    json_parse_obj zero s path seen d depth = none
    json_parse_obj (suc n) s path seen d depth = do
      member ← member_key s seen
      elim member [
        | none ↦ some (d, none)
        | some (key, rest, seen') ↦ (do
          r ← json_parse_value n rest (path_append path key) d (depth + 1)
          proceed b'}' r (λ more. json_parse_obj n more path seen' r.0 depth))
      ]

    -- The loop over the items, with the index of the next one.
    pub json_parse_array : ℕ → ℕ → Bytes → Bytes → keys.Dictionary → ℕ → Option Outcome
    json_parse_array zero idx s path d depth = none
    json_parse_array (suc n) idx [] path d depth = some (d, none)
    json_parse_array (suc n) idx (c ∷ s) path d depth = do
      r ← json_parse_value n (c ∷ s) (path_append path (index_text idx)) d (depth + 1)
      proceed b']' r (λ more. json_parse_array n (idx + 1) more path r.0 depth)

  -- Only whitespace may follow the value.
  unfoldable pub whole : keys.Dictionary → Option Bytes → Option keys.Dictionary
  whole d none = none
  whole d (some rest) = if is_end (skip_ws rest) then some d else none

  -- None is NULL. The fuel is twice the length of the text, as of two nested calls one reads a byte at least.
  unfoldable pub json2dict : Bytes → Option (Option keys.Dictionary)
  unfolding json_parse_value whole
  json2dict [] = some none
  json2dict (c ∷ s) = do
    (d, result) ← json_parse_value (2 * length (c ∷ s) + 1) (c ∷ s) [] keys.empty 0
    some (whole d result)
