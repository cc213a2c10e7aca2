-- ===== src/Tests/TextRuns.antt =====
-- Runs of util.string.c, and its theorems at strings of a chat.
use librustyaxe.Prelude.{
  ◌+◌, ◌≤◌, ◌≡◌, refl, true, false, some, ◌∷◌, ◌++◌, All, Bytes, codes, arith, length, has_byte,
  bytes_eq,
}
use librustyaxe.Text.Html.{escape_loop, escape_html, read_entity, unescape_loop, unescape_html}
use librustyaxe.Text.Escaped.{Escapes, IsHarmless, escape_html-unescape_html}
use librustyaxe.Text.Unescaped.{unescape_html_total}
use librustyaxe.Text.Width.{ansi_width, ansi_strlen, visible_width, visible_length}
use librustyaxe.Text.Skipped.{ansi_strlen-sequence, visible_length-markup}

-- What a test of util.string.c computes with.
unfoldable pub text_program : Unit {0}
unfolding bytes_eq has_byte escape_loop escape_html read_entity unescape_loop unescape_html
    ansi_width ansi_strlen visible_width visible_length
text_program = tt

tag : escape_html true (some (codes "<b>73 & '88'")) ≡ some (codes "&lt;b&gt;73 &amp; &#39;88&#39;")
unfolding text_program
tag = refl

unknown_entity : unescape_html (codes "a &copy; b&nbsp;c &lt") ≡ codes "a &copy; b c &lt"
unfolding text_program
unknown_entity = refl

-- An entity that was text before stays text.
escaped_twice : unescape_html (codes "&amp;lt;") ≡ codes "&lt;"
unfolding text_program
escaped_twice = refl

escape_html-unescape_html_example :
    (o : Bytes) × (escape_html true (some (codes "a<b")) ≡ some o)
    × Escapes (codes "a<b") o
    × All IsHarmless o
    × (unescape_html o ≡ codes "a<b")
escape_html-unescape_html_example = escape_html-unescape_html (codes "a<b")

unescape_html_total_example :
    (unescape_loop 20 (codes "a&lt;b") ≡ unescape_html (codes "a&lt;b"))
    × (length (unescape_html (codes "a&lt;b")) ≤ length (codes "a&lt;b"))
unescape_html_total_example = unescape_html_total (codes "a&lt;b") 20 (omega arith)

no_escape : has_byte 27 (codes "on") ≡ false
unfolding text_program
no_escape = refl

no_end : has_byte b'm' (codes "[1;31") ≡ false
unfolding text_program
no_end = refl

ansi_strlen-sequence_example :
    ansi_strlen (codes "on" ++ 27 ∷ (codes "[1;31" ++ b'm' ∷ codes " air"))
    ≡ length (codes "on") + ansi_strlen (codes " air")
ansi_strlen-sequence_example =
    ansi_strlen-sequence (codes "on") (codes "[1;31") (codes " air") no_escape no_end

no_open : has_byte b'{' (codes "on") ≡ false
unfolding text_program
no_open = refl

no_close : has_byte b'}' (codes "red") ≡ false
unfolding text_program
no_close = refl

length_of_markup :
    visible_length (codes "on" ++ b'{' ∷ (codes "red" ++ b'}' ∷ codes " air"))
    ≡ length (codes "on") + 1 + visible_length (codes " air")
length_of_markup =
    visible_length-markup (codes "on") (codes "red") (codes " air") no_escape no_open no_close
