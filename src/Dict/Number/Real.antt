-- ===== src/Dict/Number/Real.antt =====
-- The values of IEEE floating-point bit patterns, and the comparisons and conversions that the getters
-- of dict.c make.
use librustyaxe.Prelude.{
  ℕ, zero, suc, ◌+◌, ◌-◌, ◌*◌, ◌/◌, ◌%◌, ◌^◌, Bool, true, false, Option, none, some, ltb, leb, ◌==◌,
  max, if◌then◌else◌, ℤ, pos, negsuc,
}

-- A finite value: `num / 2 ^ scale` with a sign.
pub record Real : Type 0 where
  pub negative : Bool
  pub num : ℕ
  pub scale : ℕ

-- The value of a pattern with `e` bits of exponent and `f` bits of fraction; none for an infinity and
-- for what is no number.
unfoldable pub decode : ℕ → ℕ → ℕ → Option Real
decode e f bits =
    let fraction = bits % 2 ^ f in
    let exponent = bits / 2 ^ f % 2 ^ e in
    let significand = if exponent == 0 then fraction else 2 ^ f + fraction in
    if exponent == 2 ^ e - 1
    then none
    else some (record {
      negative = not_zero (bits / 2 ^ (f + e) % 2);
      num = significand * 2 ^ max 1 exponent;
      scale = 2 ^ (e - 1) - 1 + f;
    })
  where
    not_zero : ℕ → Bool
    not_zero zero = false
    not_zero (suc n) = true

-- `float` and `double`; the former converts to the latter exactly.
unfoldable pub float_value : ℕ → Option Real
unfolding decode
float_value bits = decode 8 23 bits

unfoldable pub double_value : ℕ → Option Real
unfolding decode
double_value bits = decode 11 52 bits

abbrev pub neg : ℕ → ℤ
neg zero = pos 0
neg (suc n) = negsuc n

-- The conversion to an integer type, which cuts towards 0.
unfoldable pub truncate : Real → ℤ
truncate x = if x.negative then neg (x.num / 2 ^ x.scale) else pos (x.num / 2 ^ x.scale)

-- `-low <= x && x <= high`
unfoldable pub within : ℕ → ℕ → Real → Bool
within low high x =
    if x.negative then leb x.num (low * 2 ^ x.scale) else leb x.num (high * 2 ^ x.scale)

-- `-low <= x && x < end`
unfoldable pub within_open : ℕ → ℕ → Real → Bool
within_open low end x =
    if x.negative then leb x.num (low * 2 ^ x.scale) else ltb x.num (end * 2 ^ x.scale)
