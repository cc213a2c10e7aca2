-- ===== src/Text/Escaped.antt =====
-- `escape_html` never fills its buffer, and `unescape_html` takes back what it wrote.
use librustyaxe.Prelude.{
  ℕ, zero, suc, ◌+◌, ◌*◌, ◌≤◌, ◌<◌, true, false, some, [], ◌∷◌, ◌++◌, Bytes, codes, leb, ◌==◌,
  length, length-append, bytes_eq, ◌≡◌, refl, sym, ap, ◌∙◌, arith, All,
}
use native.Mathlib.Decide.{ℕ_discrete}
use librustyaxe.Text.Html.{
  entity, escape_loop, escape_html, read_entity, unescape_loop, unescape_html,
}

-- The input with each byte as it is written.
abbrev escaped : Bytes → Bytes
escaped [] = []
escaped (c ∷ input) = entity c ++ escaped input

length-entity : (c : ℕ) → (1 ≤ length (entity c)) × (length (entity c) ≤ 6)
length-entity c = ground arith

append_assoc : (a b c : Bytes) → (a ++ b) ++ c ≡ a ++ (b ++ c)
append_assoc [] b c = refl
append_assoc (x ∷ a) b c = ap (λ t. x ∷ t) (append_assoc a b c)

append_nil : (a : Bytes) → a ++ [] ≡ a
append_nil [] = refl
append_nil (x ∷ a) = ap (λ t. x ∷ t) (append_nil a)

below : (size n : ℕ) → n < size → leb size n ≡ false
below size n h = ground arith

escape_loop-escaped :
    (size : ℕ) (output input : Bytes)
    → length output + length input * 6 < size
    → escape_loop size output input ≡ output ++ escaped input
unfolding escape_loop
escape_loop-escaped size output [] h = sym (append_nil output)
escape_loop-escaped size output (c ∷ input) h =
    let (_, wide) = length-entity c in
    let len = length-append output (entity c) in
    let room : leb size (length (output ++ entity c)) ≡ false =
      below size (length (output ++ entity c)) (omega arith) in
    rw (escape_loop, room)
      (escape_loop-escaped size (output ++ entity c) input (omega arith)
        ∙ append_assoc output (entity c) (escaped input))

differs : (c d : ℕ) → ¬ (c ≡ d) → (c == d) ≡ false
differs c d h = ground arith

-- A byte with no entity of its own.
plain_byte :
    (c : ℕ)
    → ¬ (c ≡ b'<')
    → ¬ (c ≡ b'>')
    → ¬ (c ≡ b'&')
    → ¬ (c ≡ 34)
    → ¬ (c ≡ 39)
    → entity c ≡ c ∷ []
plain_byte c lt gt amp quot apos =
    rw
      (
        differs c b'<' lt,
        differs c b'>' gt,
        differs c b'&' amp,
        differs c 34 quot,
        differs c 39 apos,
      )
      refl

read-plain :
    (c : ℕ) (rest : Bytes) (fuel : ℕ)
    → ¬ (c ≡ b'&')
    → unescape_loop (suc fuel) (c ∷ rest) ≡ c ∷ unescape_loop fuel rest
unfolding unescape_loop read_entity bytes_eq
read-plain c rest fuel amp = rw (unescape_loop, read_entity, differs c b'&' amp) refl

read-entity :
    (c : ℕ) (rest : Bytes) (fuel : ℕ)
    → unescape_loop (suc fuel) (entity c ++ rest) ≡ c ∷ unescape_loop fuel rest
unfolding unescape_loop read_entity bytes_eq
read-entity c rest fuel = elim (ℕ_discrete c b'<') [
  | yes e ↦ rw e refl
  | no lt ↦ elim (ℕ_discrete c b'>') [
    | yes e ↦ rw e refl
    | no gt ↦ elim (ℕ_discrete c b'&') [
      | yes e ↦ rw e refl
      | no amp ↦ elim (ℕ_discrete c 34) [
        | yes e ↦ rw e refl
        | no quot ↦ elim (ℕ_discrete c 39) [
          | yes e ↦ rw e refl
          | no apos ↦
              ap (λ t. unescape_loop (suc fuel) (t ++ rest)) (plain_byte c lt gt amp quot apos)
              ∙ read-plain c rest fuel amp
        ]
      ]
    ]
  ]
]

unescape_loop-escaped :
    (s : Bytes) (fuel : ℕ) → length (escaped s) ≤ fuel → unescape_loop fuel (escaped s) ≡ s
unfolding unescape_loop
unescape_loop-escaped [] zero h = refl
unescape_loop-escaped [] (suc fuel) h = refl
unescape_loop-escaped (c ∷ s) zero h =
    let (one, _) = length-entity c in
    let len = length-append (entity c) (escaped s) in absurd (omega arith)
unescape_loop-escaped (c ∷ s) (suc fuel) h =
    let (one, _) = length-entity c in
    let len = length-append (entity c) (escaped s) in
    read-entity c (escaped s) fuel ∙ ap (λ t. c ∷ t) (unescape_loop-escaped s fuel (omega arith))

-- The entity of a byte that is special in HTML, and any other byte as it is.
pub data Entity (c : ℕ) (e : Bytes) : Type 0 where
  less : c ≡ b'<' → e ≡ codes "&lt;" → Entity c e
  greater : c ≡ b'>' → e ≡ codes "&gt;" → Entity c e
  ampersand : c ≡ b'&' → e ≡ codes "&amp;" → Entity c e
  quote : c ≡ 34 → e ≡ codes "&quot;" → Entity c e
  apostrophe : c ≡ 39 → e ≡ codes "&#39;" → Entity c e
  plain :
      ¬ (c ≡ b'<') → ¬ (c ≡ b'>') → ¬ (c ≡ b'&') → ¬ (c ≡ 34) → ¬ (c ≡ 39) → e ≡ c ∷ [] → Entity c e

-- A text in which each byte of the first list stands as its entity.
pub data Escapes : Bytes → Bytes → Type 0 where
  nothing : Escapes [] []
  byte : {c : ℕ} {e s o : Bytes} → Entity c e → Escapes s o → Escapes (c ∷ s) (e ++ o)

-- A byte that neither opens or closes a tag nor ends a quoted attribute.
abbrev pub IsHarmless : ℕ → Type 0
IsHarmless c = ¬ (c ≡ b'<') × ¬ (c ≡ b'>') × ¬ (c ≡ 34) × ¬ (c ≡ 39)

entity-Entity : (c : ℕ) → Entity c (entity c)
entity-Entity c = elim (ℕ_discrete c b'<') [
  | yes e ↦ less e (rw e refl)
  | no lt ↦ elim (ℕ_discrete c b'>') [
    | yes e ↦ greater e (rw e refl)
    | no gt ↦ elim (ℕ_discrete c b'&') [
      | yes e ↦ ampersand e (rw e refl)
      | no amp ↦ elim (ℕ_discrete c 34) [
        | yes e ↦ quote e (rw e refl)
        | no quot ↦ elim (ℕ_discrete c 39) [
          | yes e ↦ apostrophe e (rw e refl)
          | no apos ↦ plain lt gt amp quot apos (plain_byte c lt gt amp quot apos)
        ]
      ]
    ]
  ]
]

escaped-Escapes : (s : Bytes) → Escapes s (escaped s)
escaped-Escapes [] = nothing
escaped-Escapes (c ∷ s) = byte (entity-Entity c) (escaped-Escapes s)

Entity-IsHarmless : {c : ℕ} {e : Bytes} → Entity c e → All IsHarmless e
Entity-IsHarmless (less x y) = rw y (ground arith)
Entity-IsHarmless (greater x y) = rw y (ground arith)
Entity-IsHarmless (ampersand x y) = rw y (ground arith)
Entity-IsHarmless (quote x y) = rw y (ground arith)
Entity-IsHarmless (apostrophe x y) = rw y (ground arith)
Entity-IsHarmless (plain lt gt amp quot apos y) = rw y ((lt, gt, quot, apos), tt)

All-append : (xs ys : Bytes) → All IsHarmless xs → All IsHarmless ys → All IsHarmless (xs ++ ys)
All-append [] ys hx hy = hy
All-append (x ∷ xs) ys (h, hx) hy = (h, All-append xs ys hx hy)

Escapes-IsHarmless : {s o : Bytes} → Escapes s o → All IsHarmless o
Escapes-IsHarmless nothing = tt
Escapes-IsHarmless (byte {e = e} {o = o} entity rest) =
    All-append e o (Entity-IsHarmless entity) (Escapes-IsHarmless rest)

-- `escape_html` with memory writes each of the bytes <, >, &, " and ' as its entity and every other
-- byte as it is, so that no <, >, " or ' is in what it writes; and `unescape_html` gives the input back.
pub escape_html-unescape_html :
    (s : Bytes)
    → (o : Bytes) × (escape_html true (some s) ≡ some o)
      × Escapes s o
      × All IsHarmless o
      × (unescape_html o ≡ s)
unfolding escape_html unescape_html
escape_html-unescape_html s = (
  escaped s,
  ap some (escape_loop-escaped (length s * 6 + 1) [] s (omega arith)),
  escaped-Escapes s,
  Escapes-IsHarmless (escaped-Escapes s),
  unescape_loop-escaped s (length (escaped s)) (omega arith),
)
