-- ===== src/Dict/Number/Minus.antt =====
-- Strings with a minus sign in the unsigned getters of dict.c.
use librustyaxe.Prelude.{
  ◌-◌, ◌^◌, ◌≤◌, ◌<◌, ◌≡◌, ◌≢◌, true, some, [], ◌∷◌, arith, Bytes, is_digit, all_bytes,
}
use librustyaxe.Dict.Types.{str}
use librustyaxe.Dict.Number.Strings.{read_signed, strtoull, parse_ull}
use librustyaxe.Dict.Number.Getters.{ulong_max, ulong_value, ullong_value}
use librustyaxe.Dict.Number.Exact.{decimal, read_unsigned-decimal}

module _ (s : Bytes) (h : all_bytes is_digit s ≡ true) (ne : s ≢ []) (low : 0 < decimal 0 s)
    (high : decimal 0 s ≤ ulong_max) where
  parse_ull-minus : parse_ull (some (b'-' ∷ s)) ≡ some (2 ^ 64 - decimal 0 s)
  unfolding parse_ull read_signed
  parse_ull-minus =
      rw (parse_ull, strtoull, read_signed, read_unsigned-decimal true s h ne) (ground arith)

  -- A string of a minus sign and digits that spell a number from 1 to 2^64 - 1 does not fail in
  -- `dict_get_ulong` and `dict_get_ullong`, whose types hold no negative number: they read 2^64 less the number.
  pub ulong_value-minus :
      (ulong_value (str (some (b'-' ∷ s))) ≡ some (2 ^ 64 - decimal 0 s))
      × (ullong_value (str (some (b'-' ∷ s))) ≡ some (2 ^ 64 - decimal 0 s))
  unfolding ulong_value ullong_value
  ulong_value-minus = (rw parse_ull-minus (ground arith), parse_ull-minus)
