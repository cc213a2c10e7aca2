-- ===== src/Dict/Hash/Bounds.antt =====
-- The hash is a 32-bit word.
use librustyaxe.Prelude.{ℕ, ◌*◌, ◌/◌, ◌<◌, ◌^◌, arith, bit_xor, bit_xor-lt, wrap32, Bytes}
use librustyaxe.Dict.Hash.{dict_hash, finish}

finish-lt : (h : ℕ) → finish h < 2 ^ 32
unfolding finish
finish-lt h =
    let h₁ = wrap32 (bit_xor h (h / 2 ^ 13) * 0x5bd1e995) in
    bit_xor-lt 32 h₁ (h₁ / 2 ^ 15) (omega arith) (omega arith)

pub dict_hash-lt : (key : Bytes) → dict_hash key < 2 ^ 32
unfolding dict_hash
dict_hash-lt key = finish-lt _
