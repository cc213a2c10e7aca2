-- ===== src/Dict/Number/Checked.antt =====
-- The range of what the guards and the string parsers of dict.c let through.
use librustyaxe.Prelude.{
  ℕ, ◌^◌, true, false, Option, none, some, arith, Bytes, leb, ◌>>=◌, Option-cases, inl, inr,
  Bool-cases, ℤ, pos, negsuc,
}
use librustyaxe.Dict.Number.Cut.{Signed, Unsigned, between-neg}
use librustyaxe.Dict.Number.Strings.{
  read_signed, skip_spaces, strtoll, strtoull, parse_ll, parse_ull,
}
use librustyaxe.Dict.Number.Getters.{
  between, guarded, guarded_nat, natural_to, or_else, long_max, ulong_max,
}

pub guarded-Signed : (low high : ℕ) (z : ℤ) → Signed low high (guarded (between low high z) z)
guarded-Signed low high z = elim (Bool-cases (between low high z)) [
  | inl e ↦ rw e e
  | inr e ↦ rw e tt
]

pub guarded_pos-Signed : (low high n : ℕ) → Signed low high (guarded (leb n high) (pos n))
guarded_pos-Signed low high n = ground arith

pub guarded_nat-Unsigned : (high n : ℕ) → Unsigned high (guarded_nat (leb n high) n)
guarded_nat-Unsigned high n = ground arith

pub natural_to-Unsigned : (high : ℕ) (z : ℤ) → Unsigned high (natural_to high z)
natural_to-Unsigned high (pos n) = ground arith
natural_to-Unsigned high (negsuc n) = tt

-- Through a string: a parser and a check, or a second one.
module _ {ℓ} {A : Type ℓ} where
  pub bind-Signed :
      (low high : ℕ) (o : Option A) (f : A → Option ℤ)
      → ((a : A) → Signed low high (f a))
      → Signed low high (o >>= f)
  bind-Signed low high none f h = tt
  bind-Signed low high (some a) f h = h a

  pub bind-Unsigned :
      (high : ℕ) (o : Option A) (f : A → Option ℕ)
      → ((a : A) → Unsigned high (f a))
      → Unsigned high (o >>= f)
  bind-Unsigned high none f h = tt
  bind-Unsigned high (some a) f h = h a

pub or_else-Signed :
    (low high : ℕ) (o p : Option ℤ)
    → Signed low high o
    → Signed low high p
    → Signed low high (or_else o p)
or_else-Signed low high none p h k = k
or_else-Signed low high (some a) p h k = h

pub or_else-Unsigned :
    (high : ℕ) (o p : Option ℕ) → Unsigned high o → Unsigned high p → Unsigned high (or_else o p)
or_else-Unsigned high none p h k = k
or_else-Unsigned high (some a) p h k = h

pub parse_ll-Signed : (s : Option Bytes) → Signed (2 ^ 63) long_max (parse_ll s)
unfolding parse_ll
parse_ll-Signed none = tt
parse_ll-Signed (some s) = elim (Option-cases (read_signed (skip_spaces s))) [
  | inl e ↦ rw (parse_ll, strtoll, e) (ground arith)
  | inr ((true, n, rest), e) ↦
      rw (parse_ll, strtoll, e) (ground (arith, between-neg (2 ^ 63) long_max n))
  | inr ((false, n, rest), e) ↦ rw (parse_ll, strtoll, e) (ground arith)
]

pub parse_ull-Unsigned : (s : Option Bytes) → Unsigned ulong_max (parse_ull s)
unfolding parse_ull
parse_ull-Unsigned none = tt
parse_ull-Unsigned (some s) = elim (Option-cases (read_signed (skip_spaces s))) [
  | inl e ↦ rw (parse_ull, strtoull, e) (ground arith)
  | inr ((true, n, rest), e) ↦ rw (parse_ull, strtoull, e) (ground arith)
  | inr ((false, n, rest), e) ↦ rw (parse_ull, strtoull, e) (ground arith)
]
