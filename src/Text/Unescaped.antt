-- ===== src/Text/Unescaped.antt =====
-- The end of `unescape_html`.
use librustyaxe.Prelude.{
  ℕ, zero, suc, ◌≤◌, Bool, true, false, [], ◌∷◌, Bytes, codes, ◌==◌, if◌then◌else◌, drop, length,
  length-drop, ◌≡◌, refl, ap, arith,
}
use librustyaxe.Text.Html.{starts_with, read_entity, unescape_loop, unescape_html}

-- A round that reads a byte at least.
data Reads (round : ℕ × ℕ) : Type 0 where
  reads : 1 ≤ round.1 → Reads round

if-Reads : (b : Bool) {x y : ℕ × ℕ} → Reads x → Reads y → Reads (if b then x else y)
if-Reads true p q = p
if-Reads false p q = q

one-Reads : (byte n : ℕ) → Reads (byte, suc n)
one-Reads byte n = reads (omega arith)

read_entity-Reads : (r : Bytes) (c : ℕ) → Reads (read_entity r c)
unfolding read_entity
read_entity-Reads r c =
    if-Reads (c == b'&')
      (if-Reads (starts_with (codes "&lt;") r) (one-Reads b'<' 3) (
        if-Reads (starts_with (codes "&gt;") r) (one-Reads b'>' 3) (
          if-Reads (starts_with (codes "&amp;") r) (one-Reads b'&' 4) (
            if-Reads (starts_with (codes "&quot;") r) (one-Reads 34 5) (
              if-Reads (starts_with (codes "&#39;") r) (one-Reads 39 4)
                (if-Reads (starts_with (codes "&nbsp;") r) (one-Reads b' ' 5) (one-Reads c 0)))))))
      (one-Reads c 0)

read_entity-read : (r : Bytes) (c : ℕ) → 1 ≤ (read_entity r c).1
read_entity-read r c = elim (read_entity-Reads r c) [ reads h ↦ h ]

-- The loop writes no more bytes than it reads.
unescape_loop-length : (fuel : ℕ) (r : Bytes) → length (unescape_loop fuel r) ≤ length r
unfolding unescape_loop
unescape_loop-length zero r = omega arith
unescape_loop-length (suc fuel) [] = omega arith
unescape_loop-length (suc fuel) (c ∷ r) =
    let count = (read_entity (c ∷ r) c).1 in
    let progress = read_entity-read (c ∷ r) c in
    let left = length-drop count (c ∷ r) in
    let rest = unescape_loop-length fuel (drop count (c ∷ r)) in omega arith

unescape_loop_same :
    (f g : ℕ) (r : Bytes) → length r ≤ f → length r ≤ g → unescape_loop f r ≡ unescape_loop g r
unfolding unescape_loop
unescape_loop_same zero zero r h k = refl
unescape_loop_same zero (suc g) [] h k = refl
unescape_loop_same zero (suc g) (c ∷ r) h k = absurd (omega arith)
unescape_loop_same (suc f) zero [] h k = refl
unescape_loop_same (suc f) zero (c ∷ r) h k = absurd (omega arith)
unescape_loop_same (suc f) (suc g) [] h k = refl
unescape_loop_same (suc f) (suc g) (c ∷ r) h k =
    let (byte, count) = read_entity (c ∷ r) c in
    let progress = read_entity-read (c ∷ r) c in
    let left = length-drop count (c ∷ r) in
    ap (λ t. byte ∷ t) (unescape_loop_same f g (drop count (c ∷ r)) (omega arith) (omega arith))

-- As many rounds as the string has bytes are enough for `unescape_html`, since more give the same; and
-- what it writes fits in the string that it reads.
pub unescape_html_total :
    (s : Bytes) (fuel : ℕ)
    → length s ≤ fuel
    → (unescape_loop fuel s ≡ unescape_html s) × (length (unescape_html s) ≤ length s)
unfolding unescape_html
unescape_html_total s fuel h =
    (unescape_loop_same fuel (length s) s h (omega arith), unescape_loop-length (length s) s)
