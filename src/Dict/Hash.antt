-- ===== src/Dict/Hash.antt =====
-- `dict_hash`, which is `dict_hash_murmur`. Words are 32 bits wide, and the four bytes of a block
-- are read in little-endian order. `dict_hash_dobbs` is never called.
pub mod Bounds
use librustyaxe.Prelude.{ℕ, ◌+◌, ◌*◌, ◌/◌, ◌^◌, List, [], ◌∷◌, bit_xor, wrap32, Bytes, length}

abbrev multiplier : ℕ
multiplier = 0x5bd1e995

-- `memcpy(&k, data, sizeof(k))`
load_word : ℕ → ℕ → ℕ → ℕ → ℕ
load_word a b c d = a + b * 2 ^ 8 + c * 2 ^ 16 + d * 2 ^ 24

-- The body of the `while` loop.
mix_word : ℕ → ℕ → ℕ
mix_word h k =
    let k₁ = wrap32 (k * multiplier) in
    let k₂ = bit_xor k₁ (k₁ / 2 ^ 24) in
    bit_xor (wrap32 (h * multiplier)) (wrap32 (k₂ * multiplier))

-- The loop over whole words, and the `switch` on the one to three bytes that are left.
murmur_rounds : ℕ → Bytes → ℕ
unfolding load_word mix_word
murmur_rounds h [] = h
murmur_rounds h (a ∷ []) = wrap32 (bit_xor h a * multiplier)
murmur_rounds h (a ∷ b ∷ []) = wrap32 (bit_xor (bit_xor h (b * 2 ^ 8)) a * multiplier)
murmur_rounds h (a ∷ b ∷ c ∷ []) =
    wrap32 (bit_xor (bit_xor (bit_xor h (c * 2 ^ 16)) (b * 2 ^ 8)) a * multiplier)
murmur_rounds h (a ∷ b ∷ c ∷ d ∷ rest) = murmur_rounds (mix_word h (load_word a b c d)) rest

finish : ℕ → ℕ
finish h = let h₁ = wrap32 (bit_xor h (h / 2 ^ 13) * multiplier) in bit_xor h₁ (h₁ / 2 ^ 15)

unfoldable pub dict_hash : Bytes → ℕ
unfolding murmur_rounds finish
dict_hash key = finish (murmur_rounds (bit_xor 0x0badcafe (wrap32 (length key))) key)
