-- ===== src/Dict/Types.antt =====
-- dict.h: values, table entries and the dictionary.
use librustyaxe.Prelude.{
  ℕ, ◌≡◌, refl, ◌⊎◌, inl, inr, Bytes, ℤ, List, Option, Bool, true, false, get_or,
}

-- `val_type_t`
pub data ValType : Type 0 where
  val_end val_null val_str val_int val_uint val_long val_ulong val_llong val_ullong : ValType
  val_float val_bool val_double val_floatp val_doublep val_char val_ptr : ValType

-- `val_type` with the member of `dict_value_t` that it selects. Floating-point values are their
-- bit patterns, pointers are addresses; a string may be NULL.
pub data Value : Type 0 where
  end : Value
  null : Value
  str : Option Bytes → Value
  int : ℤ → Value
  uint : ℕ → Value
  long : ℤ → Value
  ulong : ℕ → Value
  llong : ℤ → Value
  ullong : ℕ → Value
  float : ℕ → Value
  bool : ℤ → Value
  double : ℕ → Value
  floatp : ℕ → Value
  doublep : ℕ → Value
  char : ℤ → Value
  ptr : ℕ → Value

unfoldable pub type_of : Value → ValType
type_of end = val_end
type_of null = val_null
type_of (str s) = val_str
type_of (int n) = val_int
type_of (uint n) = val_uint
type_of (long n) = val_long
type_of (ulong n) = val_ulong
type_of (llong n) = val_llong
type_of (ullong n) = val_ullong
type_of (float n) = val_float
type_of (bool n) = val_bool
type_of (double n) = val_double
type_of (floatp n) = val_floatp
type_of (doublep n) = val_doublep
type_of (char n) = val_char
type_of (ptr n) = val_ptr

-- The `key` pointer of an entry: NULL, DUMMY_PTR, or a string that the entry owns.
pub data Key : Type 0 where
  unused : Key
  dummy : Key
  live : Bytes → Key

pub record KeyPair : Type 0 where
  pub key : Key
  pub hash : ℕ
  pub val : Value

-- What `calloc` leaves in an entry.
abbrev pub vacant : KeyPair
vacant = record { key = unused; hash = 0; val = end }

pub record Dict : Type 0 where
  pub fill : ℕ
  pub used : ℕ
  pub size : ℕ
  pub table : List KeyPair

-- `d->table[i]`
abbrev pub slot : Dict → ℕ → KeyPair
slot d i = get_or d.table i vacant

-- `kp->key && kp->key != DUMMY_PTR`
abbrev pub is_live : Key → Bool
is_live unused = false
is_live dummy = false
is_live (live k) = true

-- Results: 0 and -1.
pub data Status : Type 0 where
  done failed : Status

abbrev pub dict_min_sz : ℕ
dict_min_sz = 8

-- To split on the key of an entry and keep the equation.
pub Key-cases : (k : Key) → (k ≡ unused) ⊎ ((k ≡ dummy) ⊎ ((b : Bytes) × (k ≡ live b)))
Key-cases unused = inl refl
Key-cases dummy = inr (inl refl)
Key-cases (live b) = inr (inr (b, refl))
