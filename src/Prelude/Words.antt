-- ===== src/Prelude/Words.antt =====
-- Unsigned 32-bit arithmetic (`unsigned` in the C sources), with its wrap-around, and the signed
-- integers that the sources store.
use Prim.Native.Nat.{ℕ, ◌+◌, ◌-◌, ◌%◌, ◌^◌}

abbrev pub wrap32 : ℕ → ℕ
wrap32 x = x % 2 ^ 32

-- `x++` and `x--`
abbrev pub inc32 : ℕ → ℕ
inc32 x = wrap32 (x + 1)

abbrev pub dec32 : ℕ → ℕ
dec32 x = wrap32 (x + (2 ^ 32 - 1))

-- `negsuc n` is -(n + 1).
pub data ℤ : Type 0 where
  pos : ℕ → ℤ
  negsuc : ℕ → ℤ
