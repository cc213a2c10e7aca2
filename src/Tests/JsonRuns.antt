-- ===== src/Tests/JsonRuns.antt =====
-- Runs of json.c, and its theorems at concrete texts.
use librustyaxe.Prelude.{
  ℕ, ◌≡◌, ◌<◌, refl, Bool, true, false, Option, none, some, List, [], ◌∷◌, ◌++◌, ◌>>=◌, Bytes,
  codes, arith, bytes_eq, if◌then◌else◌, pos,
}
use librustyaxe.Dict.Types.{Value, str, int}
use librustyaxe.Dict.Access.{dict_get}
use librustyaxe.Dict.Number.Exact.{decimal}
use librustyaxe.Json.Strings.{json_escape, json_unescape, json_parse_str, read_unit}
use librustyaxe.Dict.Number.Strings.{strtoll}
use librustyaxe.Json.Quoted.{json_parse_str-json_escape}
use librustyaxe.Json.Number.{number_value, narrowest, number_value-digits}
use librustyaxe.Json.Parse.{Keys, path_append, index_text, json_parse_primitive, primitive_value}
use librustyaxe.Json.Value.{json2dict, at_start, member_key, proceed}
use librustyaxe.Json.Keyed.{dict_keys}
use librustyaxe.Json.Returned.{json2dict_total}
use librustyaxe.Dict.Types.{Dict}
use librustyaxe.Dict.Tidy.{IsTidy}
use librustyaxe.Dict.Counts.{unused_count}
use librustyaxe.Tests.DictRuns.{program}

-- What a test of json.c computes with.
unfoldable reader : Unit {0}
unfolding json2dict at_start member_key proceed path_append index_text json_parse_primitive
    primitive_value json_parse_str read_unit strtoll bytes_eq
reader = tt

-- A quote, a line feed, a backslash and the byte 1.
abbrev tricky : Bytes
tricky = 34 ∷ 10 ∷ 92 ∷ 1 ∷ 200 ∷ []

printed : json_escape (some tricky) ≡ codes "\"\\\"\\n\\\\\\u0001" ++ (200 ∷ 34 ∷ [])
unfolding json_escape
printed = refl

json_parse_str-json_escape_example :
    (json_unescape (json_escape (some tricky)) ≡ some tricky)
    × (json_parse_str (json_escape (some tricky) ++ codes ",1]") ≡ some (tricky, codes ",1]"))
json_parse_str-json_escape_example =
    json_parse_str-json_escape tricky (codes ",1]")
      (omega arith, (omega arith, (omega arith, (omega arith, (omega arith, tt)))))

-- A surrogate pair becomes one code point of four bytes.
pair : json_unescape (codes "\"\\ud83d\\ude00\"") ≡ some (240 ∷ 159 ∷ 152 ∷ 128 ∷ [])
unfolding reader
pair = refl

abbrev no_double : Bytes → Option ℕ
no_double s = none

number_value-digits_example :
    number_value no_double (codes "18446744073709551615")
    ≡ narrowest (decimal 0 (codes "18446744073709551615"))
number_value-digits_example =
    number_value-digits no_double b'1' (codes "8446744073709551615") refl refl

leading_zero : number_value no_double (codes "012") ≡ none
unfolding number_value
leading_zero = refl

-- A dictionary as a list of pairs.
abbrev lookup : Bytes → List (Bytes × Value) → Bool
lookup k [] = false
lookup k ((j, v) ∷ m) = if bytes_eq j k then true else lookup k m

abbrev pairs : Keys
pairs = record {
  Dictionary = List (Bytes × Value);
  empty = [];
  has = λ d k. some (lookup k d);
  add = λ d k v. some (true, (k, v) ∷ d);
}

abbrev text : Bytes
text = codes "{\"a\": {\"b\": [1, \"x\"]}} "

json2dict_total_example :
    (r : Option Dict) × (json2dict dict_keys no_double text ≡ some r)
    × ((d : Dict) → r ≡ some d → IsTidy d × (0 < unused_count d))
json2dict_total_example = json2dict_total no_double text (omega arith)

flattened :
    json2dict pairs no_double text
    ≡ some (some ((codes "a.b[1]", str (some (codes "x"))) ∷ (codes "a.b[0]", int (pos 1)) ∷ []))
unfolding reader
flattened = refl

duplicate : json2dict pairs no_double (codes "{\"a\":1,\"a\":2}") ≡ some none
unfolding reader
duplicate = refl

stored :
    (do
      d ← json2dict dict_keys no_double text
      elim d [ none ↦ some none | some d' ↦ dict_get d' (codes "a.b[1]") none ])
    ≡ some (some (codes "x"))
unfolding reader program
stored = refl
