-- ===== src/Irc/Parse.antt =====
-- `irc_color_parse`. A string is the list of its bytes; its end reads as a byte that is no digit and no
-- comma.
use librustyaxe.Prelude.{
  ℕ, zero, suc, ◌+◌, ◌-◌, ◌*◌, Bool, true, false, not, ◌&&◌, ◌||◌, Option, none, some, [], ◌∷◌,
  Bytes, leb, ◌==◌, if◌then◌else◌, drop,
}

-- `irc_color_t`
pub record Color : Type 0 where
  pub hex : Bool
  pub reset : Bool
  pub background : Bool
  pub foreground : ℕ
  pub bg : ℕ

abbrev pub base_of : Bool → ℕ
base_of hex = if hex then 16 else 10

-- The value of a digit, if the byte is one.
abbrev pub digit_of : Bool → ℕ → Option ℕ
digit_of hex c =
    if leb b'0' c && leb c b'9'
    then some (c - b'0')
    else if hex && leb b'a' c && leb c b'f'
    then some (c - b'a' + 10)
    else if hex && leb b'A' c && leb c b'F'
    then some (c - b'A' + 10)
    else none

-- The loop over the digits: the count and the value, from those so far.
unfoldable pub component_loop : ℕ → Bool → ℕ → ℕ → Bytes → ℕ × ℕ
component_loop zero hex count result p = (count, result)
component_loop (suc left) hex count result [] = (count, result)
component_loop (suc left) hex count result (c ∷ p) = elim (digit_of hex c) [
  | none ↦ (count, result)
  | some digit ↦ component_loop left hex (count + 1) (result * base_of hex + digit) p
]

abbrev pub limit_of : Bool → ℕ
limit_of hex = if hex then 6 else 2

-- The count and the value that is written; a count of 0 writes nothing.
unfoldable pub color_component : Bytes → Bool → ℕ → ℕ × ℕ
unfolding component_loop
color_component p hex value =
    let (count, result) = component_loop (limit_of hex) hex 0 0 p in
    if hex && not (count == 6) then (0, value) else (count, result)

abbrev pub no_color : Color
no_color = record { hex = false; reset = false; background = false; foreground = 0; bg = 0 }

-- The part behind the foreground, `rest`, where `used` bytes end.
unfoldable pub background_parse : Bytes → ℕ → Color → ℕ × Color
unfolding color_component
background_parse [] used color = (used, color)
background_parse (c ∷ rest) used color =
    if c == b','
    then (let (count, value) = color_component rest color.hex color.bg in
        if count == 0
        then (used, record color { bg = value })
        else (used + (1 + count), record color { bg = value; background = true }))
    else (used, color)

-- The count of bytes that the code takes, and the colour.
unfoldable pub irc_color_parse : Option Bytes → ℕ × Color
unfolding color_component background_parse
irc_color_parse none = (0, no_color)
irc_color_parse (some []) = (0, no_color)
irc_color_parse (some (c ∷ input)) =
    if not (c == 3 || c == 4)
    then (0, no_color)
    else (let hex = c == 4 in
        let (count, value) = color_component input hex 0 in
        if count == 0
        then (1, record no_color { hex = hex; reset = true; foreground = value })
        else background_parse (drop count input) (1 + count)
            (record no_color { hex = hex; foreground = value }))
