-- ===== src/Text/Width.antt =====
-- The widths of marked-up strings: `ansi_strlen` and `visible_length`.
use librustyaxe.Prelude.{ℕ, suc, Bool, true, false, ◌&&◌, [], ◌∷◌, Bytes, ◌==◌, if◌then◌else◌}

-- `inside` says that the loop over an escape sequence is running; it stops behind an `m`.
unfoldable pub ansi_width : Bool → Bytes → ℕ
ansi_width inside [] = 0
ansi_width true (c ∷ s) =
    let out = ansi_width false s in
    let go_on = ansi_width true s in if c == b'm' then out else go_on
ansi_width false (c ∷ s) =
    let escape = ansi_width true s in
    let rest = ansi_width false s in if c == 27 then escape else suc rest

unfoldable pub ansi_strlen : Bytes → ℕ
unfolding ansi_width
ansi_strlen s = ansi_width false s

-- Which loop of `visible_length` is running: the outer one, or the one over an escape sequence, whose
-- `[` is still ahead in `opening`, or the one over colour markup.
pub data Scan : Type 0 where
  text opening sequence markup : Scan

abbrev starts_sequence : Bytes → Bool
starts_sequence [] = false
starts_sequence (c ∷ s) = c == b'['

-- The loop over markup stops at the brace, which the outer loop then counts.
unfoldable pub visible_width : Scan → Bytes → ℕ
visible_width scan [] = 0
visible_width text (c ∷ s) =
    let escape = visible_width opening s in
    let mark = visible_width markup s in
    let rest = visible_width text s in
    if c == 27 && starts_sequence s then escape else if c == b'{' then mark else suc rest
visible_width opening (c ∷ s) = visible_width sequence s
visible_width sequence (c ∷ s) =
    let out = visible_width text s in
    let go_on = visible_width sequence s in if c == b'm' then out else go_on
visible_width markup (c ∷ s) =
    let out = visible_width text s in
    let go_on = visible_width markup s in if c == b'}' then suc out else go_on

unfoldable pub visible_length : Bytes → ℕ
unfolding visible_width
visible_length s = visible_width text s
