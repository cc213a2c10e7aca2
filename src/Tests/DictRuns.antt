-- ===== src/Tests/DictRuns.antt =====
-- Runs of dict.c on concrete keys.
use librustyaxe.Prelude.{
  ◌≡◌, refl, Option, none, some, List, [], ◌∷◌, ◌>>=◌, codes, Bytes, bytes_eq, map,
}
use librustyaxe.Dict.Types.{Value, str, int, Dict, dummy, null, Status, type_of, val_int}
use librustyaxe.Prelude.{pos}
use mathlib.Core.Option
use librustyaxe.Dict.Hash.{dict_hash}
use librustyaxe.Dict.Lookup.{dict_lookup}
use librustyaxe.Dict.Counts.{weigh}
use librustyaxe.Dict.Store.{
  all_granted, dict_new, dict_free_value, dict_add_p, grow_size, growth_factor, move_entries,
  dict_resize, commit, dict_store,
}
use librustyaxe.Dict.Access.{dict_get, dict_get_type, dict_del, string_or}

-- What a test of dict.c computes with.
unfoldable pub program : Unit {0}
unfolding bytes_eq type_of dict_hash dict_lookup dict_new dict_free_value dict_add_p grow_size
    growth_factor move_entries dict_resize commit dict_store dict_get dict_get_type dict_del
    string_or weigh
program = tt

hash_hello : dict_hash (codes "hello") ≡ 2098668487
unfolding program
hash_hello = refl

abbrev pub dict_of : Option (Status × Dict) → Dict
dict_of none = dict_new
dict_of (some (s, d)) = d

abbrev pub add : Bytes → Value → Dict → Option Dict
add key val d = do (status, d') ← dict_store all_granted d key val; some d'

abbrev pub del : Bytes → Dict → Option Dict
del key d = do (status, d') ← dict_del d key; some d'

-- Six keys make the table grow from 8 entries to 32, and stay readable.
abbrev six : Option Dict
six = do
  a ← add (codes "callsign") (str (some (codes "N0CALL"))) dict_new
  b ← add (codes "gridsquare") (str (some (codes "EM79"))) a
  c ← add (codes "volume") (int (pos 40)) b
  d ← add (codes "mode") (str (some (codes "USB"))) c
  e ← add (codes "mode") (str (some (codes "LSB"))) d
  add (codes "freq") (str (some (codes "7074"))) e

six_size : Option.map (λ d. d.size) six ≡ some 32
unfolding program
six_size = refl

six_reads : six >>= (λ d. dict_get d (codes "mode") none) ≡ some (some (codes "LSB"))
unfolding program
six_reads = refl

six_type : six >>= (λ d. dict_get_type d (codes "volume")) ≡ some val_int
unfolding program
six_type = refl

-- Each key is added and deleted before the next, and each has a home slot of its own.
abbrev churn : List Bytes → Dict → Option Dict
churn [] d = some d
churn (k ∷ rest) d = add k (int (pos 1)) d >>= λ d'. del k d' >>= churn rest

abbrev homes : List Bytes
homes =
    codes "x"
    ∷ codes "o"
    ∷ codes "c"
    ∷ codes "f"
    ∷ codes "b"
    ∷ codes "e"
    ∷ codes "z"
    ∷ codes "a"
    ∷ []

-- No resize has purged the deleted entries: every entry of the table is one.
abbrev pub buried : Dict
buried = record {
  fill = 8;
  used = 0;
  size = 8;
  table = map (λ k. record { key = dummy; hash = dict_hash k; val = null }) homes;
}

churned : churn homes dict_new ≡ some buried
unfolding program
churned = refl
