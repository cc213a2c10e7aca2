-- ===== src/Dict/Number/Blank.antt =====
-- Strings of spaces in the integer getters of dict.c.
use librustyaxe.Prelude.{
  ◌≡◌, refl, ◌≢◌, true, some, [], ◌∷◌, arith, Bytes, is_space, all_bytes, pos, length, false, ◌==◌,
}
use librustyaxe.Dict.Types.{str}
use librustyaxe.Dict.Number.Strings.{
  skip_spaces, read_signed, strtoll, strtoull, parse_ll, parse_ull,
}
use librustyaxe.Dict.Number.Getters.{
  int_value, uint_value, ulong_value, long_value, llong_value, ullong_value,
}
use librustyaxe.Dict.Number.Exact.{Gets}

skip_spaces-all : (s : Bytes) → all_bytes is_space s ≡ true → skip_spaces s ≡ []
skip_spaces-all [] h = refl
skip_spaces-all (c ∷ s) h = ground (arith, skip_spaces-all s)

nonzero : (s : Bytes) → s ≢ [] → (0 == length s) ≡ false
nonzero [] ne = absurd (ne refl)
nonzero (c ∷ s) ne = ground arith

module _ (s : Bytes) (h : all_bytes is_space s ≡ true) (ne : s ≢ []) where
  parse_ll-blank : parse_ll (some s) ≡ some (pos 0)
  unfolding parse_ll read_signed
  parse_ll-blank =
      rw (parse_ll, strtoll, skip_spaces-all s h) (rw (skip_spaces-all s h, nonzero s ne))

  parse_ull-blank : parse_ull (some s) ≡ some 0
  unfolding parse_ull read_signed
  parse_ull-blank =
      rw (parse_ull, strtoull, skip_spaces-all s h) (rw (skip_spaces-all s h, nonzero s ne))

  -- A string that is not empty and holds nothing but spaces spells no number, yet each of the six integer
  -- getters reads 0 from it.
  pub blank-Gets : Gets (str (some s)) (pos 0)
  unfolding int_value uint_value long_value ulong_value llong_value ullong_value
  blank-Gets = record {
    as_int = rw parse_ll-blank (ground arith);
    as_uint = rw parse_ull-blank (ground arith);
    as_long = rw parse_ll-blank (ground arith);
    as_ulong = rw parse_ull-blank (ground arith);
    as_llong = rw parse_ll-blank (ground arith);
    as_ullong = rw parse_ull-blank (ground arith);
  }
