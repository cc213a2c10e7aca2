-- ===== src/Irc/Bounds.antt =====
-- How far `irc_color_parse` reads, and how large the colours are.
use librustyaxe.Prelude.{
  ℕ, zero, suc, ◌+◌, ◌*◌, ◌^◌, ◌≤◌, ◌<◌, Bool, true, false, not, ◌&&◌, ◌||◌, some, [], ◌∷◌, Bytes,
  ◌==◌, if◌then◌else◌, drop, length, length-drop, ◌≡◌, sym, inl, inr, arith, Bool-cases,
  Option-cases,
}
use native.Mathlib.Nat.{pow-zero, pow-suc, mul-le-mul_right, pow-le-pow_right}
use librustyaxe.Irc.Parse.{
  Color, base_of, digit_of, component_loop, limit_of, color_component, background_parse,
  irc_color_parse,
}

digit-lt : (hex : Bool) (c d : ℕ) → digit_of hex c ≡ some d → d < base_of hex
digit-lt hex c d h = ground arith

pub base_pos : (hex : Bool) → 0 < base_of hex
base_pos true = omega arith
base_pos false = omega arith

suc_add : (n : ℕ) → suc n ≡ n + 1
suc_add n = omega arith

-- One more digit keeps the value below the power of its count.
digit_step : (b count result d : ℕ) → result < b ^ count → d < b → result * b + d < b ^ (count + 1)
digit_step b count result d h k =
    let power : b ^ (count + 1) ≡ b ^ count * b = rw (sym (suc_add count)) (pow-suc b count) in
    let scaled : (result + 1) * b ≤ b ^ count * b = mul-le-mul_right b (omega arith) in
    let open_up : (result + 1) * b ≡ result * b + b = grind arith in omega arith

record Read (left : ℕ) (hex : Bool) (count : ℕ) (p : Bytes) (read : ℕ × ℕ) : Type 0 where
  limited : read.0 ≤ count + left
  inside : read.0 ≤ count + length p
  small : read.1 < base_of hex ^ read.0

component_loop-Read :
    (left : ℕ) (hex : Bool) (count result : ℕ) (p : Bytes)
    → result < base_of hex ^ count
    → Read left hex count p (component_loop left hex count result p)
unfolding component_loop
component_loop-Read zero hex count result p h = record {
  limited = omega arith;
  inside = omega arith;
  small = h;
}
component_loop-Read (suc left) hex count result [] h = record {
  limited = omega arith;
  inside = omega arith;
  small = h;
}
component_loop-Read (suc left) hex count result (c ∷ p) h = elim (Option-cases (digit_of hex c)) [
  | inl n ↦
      rw (component_loop, n) (record { limited = omega arith; inside = omega arith; small = h })
  | inr (d, e) ↦
      let rest =
        component_loop-Read left hex (count + 1) (result * base_of hex + d) p
          (digit_step (base_of hex) count result d h (digit-lt hex c d e)) in
      let limited = rest.limited in
      let inside = rest.inside in
      rw (component_loop, e)
        (record { limited = omega arith; inside = omega arith; small = rest.small })
]

-- The least number that is no colour.
abbrev pub color_end : Bool → ℕ
color_end hex = if hex then 2 ^ 24 else 100

end_pos : (hex : Bool) → 0 < color_end hex
end_pos true = omega arith
end_pos false = omega arith

power_end : (hex : Bool) (count : ℕ) → count ≤ limit_of hex → base_of hex ^ count ≤ color_end hex
power_end true count h = pow-le-pow_right (omega arith) h
power_end false count h = pow-le-pow_right (omega arith) h

pub color_component-bounds :
    (p : Bytes) (hex : Bool) (value : ℕ)
    → value < color_end hex
    → let (count, result) = color_component p hex value in
      (count ≤ limit_of hex) × (count ≤ length p) × (result < color_end hex)
unfolding color_component
color_component-bounds p hex value h =
    let unit = pow-zero (base_of hex) in
    let read = component_loop-Read (limit_of hex) hex 0 0 p (omega arith) in
    let limited = read.limited in
    let inside = read.inside in
    let small = read.small in
    let power = power_end hex (component_loop (limit_of hex) hex 0 0 p).0 (omega arith) in
    elim (Bool-cases (hex && not ((component_loop (limit_of hex) hex 0 0 p).0 == 6))) [
      | inl e ↦ rw (color_component, e) (omega arith, omega arith, h)
      | inr e ↦ rw (color_component, e) (omega arith, omega arith, omega arith)
    ]

-- Where a code of `total` bytes at most ends, and its colours.
pub record Bounded (total used : ℕ) (color : Color) : Type 0 where
  pub inside : used ≤ total
  pub limited : used ≤ 2 + limit_of color.hex + limit_of color.hex
  pub foreground : color.foreground < color_end color.hex
  pub bg : color.bg < color_end color.hex

background_parse-Bounded :
    (rest : Bytes) (used total : ℕ) (color : Color)
    → used + length rest ≤ total
    → used ≤ 1 + limit_of color.hex
    → color.foreground < color_end color.hex
    → color.bg < color_end color.hex
    → let (n, result) = background_parse rest used color in Bounded total n result
unfolding background_parse
background_parse-Bounded [] used total color inside limited f g = record {
  inside = omega arith;
  limited = omega arith;
  foreground = f;
  bg = g;
}
background_parse-Bounded (c ∷ rest) used total color inside limited f g =
    let (few, short, small) = color_component-bounds rest color.hex color.bg g in
    let count = (color_component rest color.hex color.bg).0 in
    elim (Bool-cases (c == b',')) [
      | inr e ↦
          rw (background_parse, e)
            (record { inside = omega arith; limited = omega arith; foreground = f; bg = g })
      | inl e ↦ elim (Bool-cases (count == 0)) [
        | inl z ↦
            rw (background_parse, e, z)
              (record { inside = omega arith; limited = omega arith; foreground = f; bg = small })
        | inr z ↦
            rw (background_parse, e, z)
              (record { inside = omega arith; limited = omega arith; foreground = f; bg = small })
      ]
    ]

-- The code that `irc_color_parse` finds ends within the text, is of 14 bytes at most (6 where its colours
-- are not hexadecimal), and has colours below 2^24 (below 100).
pub irc_color_parse-Bounded :
    (input : Bytes)
    → let (used, color) = irc_color_parse (some input) in Bounded (length input) used color
unfolding irc_color_parse
irc_color_parse-Bounded [] = record {
  inside = omega arith;
  limited = omega arith;
  foreground = omega arith;
  bg = omega arith;
}
irc_color_parse-Bounded (c ∷ input) =
    let hex = c == 4 in
    let zero_small : 0 < color_end hex = end_pos hex in
    let (few, short, small) = color_component-bounds input hex 0 zero_small in
    let count = (color_component input hex 0).0 in
    let left = length-drop count input in
    elim (Bool-cases (not (c == 3 || c == 4))) [
      | inl e ↦
          rw (irc_color_parse, e)
            (record {
              inside = omega arith;
              limited = omega arith;
              foreground = omega arith;
              bg = omega arith;
            })
      | inr e ↦ elim (Bool-cases (count == 0)) [
        | inl z ↦
            rw (irc_color_parse, e, z)
              (record {
                inside = omega arith;
                limited = omega arith;
                foreground = small;
                bg = zero_small;
              })
        | inr z ↦
            rw (irc_color_parse, e, z)
              (background_parse-Bounded (drop count input) (1 + count) (length (c ∷ input)) _
                (omega arith) (omega arith) small zero_small)
      ]
    ]
