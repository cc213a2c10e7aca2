-- ===== src/Text/Html.antt =====
-- `escape_html` and `unescape_html`.
use librustyaxe.Prelude.{
  ℕ, zero, suc, ◌+◌, ◌-◌, ◌*◌, Bool, Option, none, some, [], ◌∷◌, ◌++◌, Bytes, codes, leb, ◌==◌,
  if◌then◌else◌, take, drop, length, bytes_eq,
}

-- What is written for a byte.
abbrev pub entity : ℕ → Bytes
entity c =
    if c == b'<'
    then codes "&lt;"
    else if c == b'>'
    then codes "&gt;"
    else if c == b'&'
    then codes "&amp;"
    else if c == 34
    then codes "&quot;"
    else if c == 39
    then codes "&#39;"
    else c ∷ []

-- The loop over the input, with what stands in the buffer of `size` bytes.
unfoldable pub escape_loop : ℕ → Bytes → Bytes → Bytes
escape_loop size output [] = output
escape_loop size output (c ∷ input) =
    let written = output ++ entity c in
    let rest = escape_loop size written input in
    if leb size (length written) then take (size - 1) written else rest

-- `granted` says whether the allocation succeeds.
unfoldable pub escape_html : Bool → Option Bytes → Option Bytes
unfolding escape_loop
escape_html granted none = none
escape_html granted (some input) =
    if granted then some (escape_loop (length input * 6 + 1) [] input) else none

-- `!strncmp(r, text, strlen(text))`
abbrev pub starts_with : Bytes → Bytes → Bool
starts_with text r = bytes_eq (take (length text) r) text

-- One round at the read pointer: the byte that is written, and the count of bytes that are read.
unfoldable pub read_entity : Bytes → ℕ → ℕ × ℕ
unfolding bytes_eq
read_entity r c =
    if c == b'&'
    then (if starts_with (codes "&lt;") r
        then (b'<', 4)
        else if starts_with (codes "&gt;") r
        then (b'>', 4)
        else if starts_with (codes "&amp;") r
        then (b'&', 5)
        else if starts_with (codes "&quot;") r
        then (34, 6)
        else if starts_with (codes "&#39;") r
        then (39, 5)
        else if starts_with (codes "&nbsp;") r
        then (b' ', 6)
        else (c, 1))
    else (c, 1)

-- The loop, on fuel.
unfoldable pub unescape_loop : ℕ → Bytes → Bytes
unfolding read_entity
unescape_loop zero r = []
unescape_loop (suc fuel) [] = []
unescape_loop (suc fuel) (c ∷ r) =
    let (byte, count) = read_entity (c ∷ r) c in byte ∷ unescape_loop fuel (drop count (c ∷ r))

-- Each round reads a byte at least, so the length is enough fuel.
unfoldable pub unescape_html : Bytes → Bytes
unfolding unescape_loop
unescape_html s = unescape_loop (length s) s
