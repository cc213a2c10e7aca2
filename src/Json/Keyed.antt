-- ===== src/Json/Keyed.antt =====
-- The JSON parser over the dictionary of dict.c.
use librustyaxe.Prelude.{Bool, true, false, some, ◌>>=◌}
use librustyaxe.Dict.Types.{ValType, val_end, Dict, Status, done, failed}
use librustyaxe.Dict.Store.{all_granted, dict_new, dict_store}
use librustyaxe.Dict.Access.{dict_get_type}
use librustyaxe.Json.Parse.{Keys}

abbrev pub is_there : ValType → Bool
is_there val_end = false
is_there _ = true

abbrev pub is_done : Status → Bool
is_done done = true
is_done failed = false

abbrev pub dict_keys : Keys
dict_keys = record {
  Dictionary = Dict;
  empty = dict_new;
  has = λ d key. (do type ← dict_get_type d key; some (is_there type));
  add =
      λ d key val. (do (status, d') ← dict_store all_granted d key val; some (is_done status, d'));
}
