-- ===== src/Json/Printed.antt =====
-- The ways in which `json_escape` prints a byte, and how `json_unescape` reads each.
use librustyaxe.Prelude.{
  ℕ, ◌+◌, ◌*◌, ◌/◌, ◌%◌, ◌<◌, ◌≤◌, ◌≡◌, refl, ap, inl, inr, true, false, some, [], ◌∷◌, ◌++◌, Bytes,
  ltb, ◌==◌, arith, Bool-cases,
}
use librustyaxe.Json.Strings.{
  hex_digit, unicode_escape, escape_byte, hex_value, hex_digits, json_hex4, read_unicode,
  read_escape, read_unit,
}

hex_value-hex_digit : (n : ℕ) → n < 16 → hex_value (hex_digit n) ≡ some n
unfolding hex_value
hex_value-hex_digit n h = ground arith

-- Four digits, of which the first two are 0.
json_hex4-digits :
    (a b : ℕ) (t : Bytes)
    → a < 16
    → b < 16
    → json_hex4 (48 ∷ 48 ∷ hex_digit a ∷ hex_digit b ∷ t) ≡ some (a * 16 + b, t)
unfolding json_hex4
json_hex4-digits a b t ha hb =
    rw (json_hex4, hex_digits, hex_value-hex_digit a ha, hex_value-hex_digit b hb)
      (ap (λ (n : ℕ). some (n, t)) (omega arith))

read_unicode-control :
    (c : ℕ) (t : Bytes)
    → 0 < c
    → c < 32
    → read_unicode (48 ∷ 48 ∷ hex_digit (c / 16) ∷ hex_digit (c % 16) ∷ t) ≡ some (c ∷ [], t)
unfolding read_unicode
read_unicode-control c t low high =
    let same : c / 16 * 16 + c % 16 ≡ c = omega arith in
    rw (read_unicode, json_hex4-digits (c / 16) (c % 16) t (omega arith) (omega arith), same)
      (ground arith)

-- The ways in which a byte is printed: as it is, by its code, or by a letter.
pub data Printed (c : ℕ) : Type 0 where
  plain : escape_byte c ≡ c ∷ [] → 32 ≤ c → (c == 34) ≡ false → (c == 92) ≡ false → Printed c
  control : escape_byte c ≡ unicode_escape c → c < 32 → Printed c
  letter :
      (x : ℕ)
      → escape_byte c ≡ 92 ∷ x ∷ []
      → ((t : Bytes) → read_escape (x ∷ t) ≡ some (c ∷ [], t))
      → Printed c

letter_of :
    (x c : ℕ)
    → escape_byte c ≡ 92 ∷ x ∷ []
    → ((t : Bytes) → read_escape (x ∷ t) ≡ some (c ∷ [], t))
    → (k : ℕ) → (k == c) ≡ true
    → Printed k
letter_of x c e r k h = let same : c ≡ k = ground arith in rw (← same) (letter x e r)

module _ (c : ℕ) where
  others-Printed :
      (c == 34) ≡ false
      → (c == 92) ≡ false
      → (c == 8) ≡ false
      → (c == 12) ≡ false
      → (c == 10) ≡ false
      → (c == 13) ≡ false
      → (c == 9) ≡ false
      → Printed c
  unfolding escape_byte
  others-Printed q b x1 x2 x3 x4 x5 = elim (Bool-cases (ltb c 32)) [
    | inl e ↦ control (rw (escape_byte, q, b, x1, x2, x3, x4, x5, e)) (ground arith)
    | inr e ↦ plain (rw (escape_byte, q, b, x1, x2, x3, x4, x5, e)) (ground arith) q b
  ]

  pub escape_byte-Printed : Printed c
  unfolding escape_byte read_escape
  escape_byte-Printed = elim (Bool-cases (c == 34)) [
    | inl e ↦ letter_of 34 34 refl (λ t. refl) c e
    | inr q ↦ elim (Bool-cases (c == 92)) [
      | inl e ↦ letter_of 92 92 refl (λ t. refl) c e
      | inr b ↦ elim (Bool-cases (c == 8)) [
        | inl e ↦ letter_of b'b' 8 refl (λ t. refl) c e
        | inr x1 ↦ elim (Bool-cases (c == 12)) [
          | inl e ↦ letter_of b'f' 12 refl (λ t. refl) c e
          | inr x2 ↦ elim (Bool-cases (c == 10)) [
            | inl e ↦ letter_of b'n' 10 refl (λ t. refl) c e
            | inr x3 ↦ elim (Bool-cases (c == 13)) [
              | inl e ↦ letter_of b'r' 13 refl (λ t. refl) c e
              | inr x4 ↦ elim (Bool-cases (c == 9)) [
                | inl e ↦ letter_of b't' 9 refl (λ t. refl) c e
                | inr x5 ↦ others-Printed q b x1 x2 x3 x4 x5
              ]
            ]
          ]
        ]
      ]
    ]
  ]

-- The first round on what was printed for a byte.
pub read_unit-escape_byte :
    (c : ℕ) (t : Bytes)
    → 0 < c
    → (x : ℕ) × (u : Bytes) × (escape_byte c ++ t ≡ x ∷ u) × (read_unit x u ≡ some (c ∷ [], t))
unfolding read_unit unicode_escape
read_unit-escape_byte c t h = elim (escape_byte-Printed c) [
  | plain e low q b ↦ (c, t, rw e, ground arith)
  | control e high ↦ (
    92,
    b'u' ∷ 48 ∷ 48 ∷ hex_digit (c / 16) ∷ hex_digit (c % 16) ∷ t,
    rw (e, unicode_escape),
    read_unicode-control c t h high,
  )
  | letter x e r ↦ (92, x ∷ t, rw e, r t)
]
