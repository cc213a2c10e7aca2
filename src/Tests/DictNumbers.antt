-- ===== src/Tests/DictNumbers.antt =====
-- The theorems about the typed getters of dict.c at concrete values.
use librustyaxe.Prelude.{ℕ, true, ◌-◌, ◌^◌, ◌<◌, ◌≡◌, refl, none, some, arith, codes, pos, negsuc}
use librustyaxe.Dict.Types.{llong, double, str, Dict, done}
use librustyaxe.Dict.View.{view}
use librustyaxe.Dict.Counts.{unused_count}
use librustyaxe.Dict.Store.{all_granted, dict_new, dict_store}
use librustyaxe.Dict.Add.{dict_add_llong}
use librustyaxe.Dict.Number.Getters.{
  get_as, int_value, ulong_value, ullong_value, uint_value, bool_value, dict_get_int,
}
use librustyaxe.Dict.Number.Exact.{Gets, digits-Gets}
use librustyaxe.Dict.Number.Bounds.{InRange, value-InRange}
use librustyaxe.Dict.Number.Blank.{blank-Gets}
use librustyaxe.Dict.Number.Minus.{ulong_value-minus}
use librustyaxe.Dict.Number.Reads.{read_in, get_as-view, GetsFit, dict_store-GetsFit}
use librustyaxe.Tests.DictRuns.{program, dict_of}
use librustyaxe.Tests.DictWitnesses.{new-IsDict, room-new, two, two-IsDict, room-two}

-- 5000000000 fits `long` but not `int`.
abbrev big : Dict
big = dict_of (dict_store all_granted dict_new (codes "freq") (llong (pos 5000000000)))

run-big : dict_store all_granted dict_new (codes "freq") (llong (pos 5000000000)) ≡ some (done, big)
unfolding program
run-big = refl

room-big : 0 < unused_count big
unfolding program
room-big = omega arith

dict_store-GetsFit_example : GetsFit big (codes "freq") (pos 5000000000) (pos 7) 8
dict_store-GetsFit_example =
    dict_store-GetsFit all_granted dict_new big (codes "freq") (llong (pos 5000000000))
      (pos 5000000000) (pos 7) 8 new-IsDict room-new refl refl run-big room-big

int_of_big : dict_get_int big (codes "freq") (pos 7) ≡ some (pos 7)
int_of_big = dict_store-GetsFit_example.as_int

get_as-view_example :
    get_as bool_value two (codes "volume") true
    ≡ some (read_in bool_value (view two (codes "volume")) true)
get_as-view_example = get_as-view bool_value (codes "volume") true two-IsDict.sound room-two

-- The bits of -2.5
abbrev minus_two_and_a_half : ℕ
minus_two_and_a_half = 13836183955189006336

cut_to_int : int_value (double minus_two_and_a_half) ≡ some (negsuc 1)
unfolding int_value
cut_to_int = refl

value-InRange_example : InRange (double minus_two_and_a_half)
value-InRange_example = value-InRange (double minus_two_and_a_half) tt

digits-Gets_example : Gets (str (some (codes "4294967296"))) (pos 4294967296)
digits-Gets_example = digits-Gets (codes "4294967296") refl (λ e. cc e)

ulong_value-minus_example :
    (ulong_value (str (some (codes "-1"))) ≡ some (2 ^ 64 - 1))
    × (ullong_value (str (some (codes "-1"))) ≡ some (2 ^ 64 - 1))
ulong_value-minus_example =
    ulong_value-minus (codes "1") refl (λ e. cc e) (omega arith) (omega arith)

-- A magnitude that wraps to a small number passes the range check of `dict_get_uint`.
wraps_to_one : uint_value (str (some (codes "-18446744073709551615"))) ≡ some 1
unfolding uint_value
wraps_to_one = refl

trailing_space : int_value (str (some (codes " 42 "))) ≡ some (pos 42)
unfolding int_value
trailing_space = refl

trailing_letter : int_value (str (some (codes "42x"))) ≡ none
unfolding int_value
trailing_letter = refl

blank-Gets_example : Gets (str (some (codes "  "))) (pos 0)
blank-Gets_example = blank-Gets (codes "  ") refl (λ e. cc e)

added_big : dict_add_llong all_granted dict_new (codes "freq") (pos 5000000000) ≡ some (done, big)
unfolding program dict_add_llong
added_big = refl
