-- ===== src/Text/Skipped.antt =====
-- What `ansi_strlen` and `visible_length` leave out.
use librustyaxe.Prelude.{
  ℕ, suc, ◌+◌, true, false, [], ◌∷◌, ◌++◌, Bytes, ◌==◌, has_byte, length, ◌≡◌, refl, ap, ◌∙◌, arith,
}
use librustyaxe.Text.Width.{ansi_width, ansi_strlen, text, markup, visible_width, visible_length}

has_byte-none :
    (d c : ℕ) (s : Bytes) → has_byte d (c ∷ s) ≡ false → ((c == d) ≡ false) × (has_byte d s ≡ false)
unfolding has_byte
has_byte-none d c s h = ground arith

ansi_width-sequence :
    (code rest : Bytes)
    → has_byte b'm' code ≡ false
    → ansi_width true (code ++ b'm' ∷ rest) ≡ ansi_width false rest
unfolding ansi_width has_byte
ansi_width-sequence [] rest h = refl
ansi_width-sequence (c ∷ code) rest h =
    let (here, later) = has_byte-none b'm' c code h in
    rw (ansi_width, here) (ansi_width-sequence code rest later)

-- `ansi_strlen` counts the bytes before an escape sequence, which ends at its first `m`, and those
-- behind it, if no escape byte stands before it.
pub ansi_strlen-sequence :
    (plain code rest : Bytes)
    → has_byte 27 plain ≡ false
    → has_byte b'm' code ≡ false
    → ansi_strlen (plain ++ 27 ∷ (code ++ b'm' ∷ rest)) ≡ length plain + ansi_strlen rest
unfolding ansi_strlen ansi_width has_byte
ansi_strlen-sequence [] code rest h k = ansi_width-sequence code rest k ∙ omega arith
ansi_strlen-sequence (c ∷ plain) code rest h k =
    let (here, later) = has_byte-none 27 c plain h in
    let tail = ansi_strlen-sequence plain code rest later k in
    rw (ansi_strlen, ansi_width, here) (ap suc tail ∙ omega arith)

visible_width-markup :
    (name rest : Bytes)
    → has_byte b'}' name ≡ false
    → visible_width markup (name ++ b'}' ∷ rest) ≡ suc (visible_width text rest)
unfolding visible_width has_byte
visible_width-markup [] rest h = refl
visible_width-markup (c ∷ name) rest h =
    let (here, later) = has_byte-none b'}' c name h in
    rw (visible_width, here) (visible_width-markup name rest later)

-- `visible_length` counts the bytes before colour markup in braces and those behind it, and one byte
-- for the markup, its closing brace, if no escape byte and no opening brace stands before it.
pub visible_length-markup :
    (plain name rest : Bytes)
    → has_byte 27 plain ≡ false
    → has_byte b'{' plain ≡ false
    → has_byte b'}' name ≡ false
    → visible_length (plain ++ b'{' ∷ (name ++ b'}' ∷ rest))
      ≡ length plain + 1 + visible_length rest
unfolding visible_length visible_width has_byte
visible_length-markup [] name rest h b k = visible_width-markup name rest k ∙ omega arith
visible_length-markup (c ∷ plain) name rest h b k =
    let (no_escape, later) = has_byte-none 27 c plain h in
    let (no_brace, later') = has_byte-none b'{' c plain b in
    let tail = visible_length-markup plain name rest later later' k in
    rw (visible_length, visible_width, no_escape, no_brace) (ap suc tail ∙ omega arith)
