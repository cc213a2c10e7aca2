-- ===== src/Json/Shorter.antt =====
-- What the parts of the JSON parser leave is shorter than what they were given.
use librustyaxe.Prelude.{
  ℕ, ◌+◌, ◌≤◌, ◌<◌, ◌≡◌, refl, inl, inr, Bool, true, false, not, Option, none, some, [], ◌∷◌, ◌++◌,
  Bytes, ltb, ◌==◌, if◌then◌else◌, ◌>>=◌, length, arith, Bool-cases, >>=-eq-some, guard-eq-some,
  if-cases, some-pair,
}
use librustyaxe.Json.Strings.{json_parse_str, token_end, json_unescape}
use librustyaxe.Json.Parse.{separator, skip_ws, next, starts, json_parse_primitive, primitive_part}

pub skip_ws-le : (s : Bytes) → length (skip_ws s) ≤ length s
skip_ws-le [] = omega arith
skip_ws-le (c ∷ s) = ground (arith, skip_ws-le s)

pub next-lt : (c : ℕ) (s : Bytes) → starts c s ≡ true → length (next s) < length s
next-lt c [] h = absurd (cc h)
next-lt c (x ∷ s) h = omega arith

-- The bytes of a text, and what is left of it.
abbrev Left : Bytes → Option (Bytes × Bytes) → Type 0
Left s none = Unit
Left s (some (text, rest)) = length rest < length s

Left-map :
    (s t : Bytes) (o : Option (Bytes × Bytes)) (f : Bytes → Bytes)
    → length t ≤ length s
    → Left t o
    → Left s (do (inner, rest) ← o; some (f inner, rest))
Left-map s t none f h l = tt
Left-map s t (some (inner, rest)) f h l = omega (arith, l)

token_end-Left : (s : Bytes) → Left s (token_end s)
unfolding token_end
token_end-Left [] = tt
token_end-Left (c ∷ []) = ground arith
token_end-Left (c ∷ d ∷ s) = elim (Bool-cases (c == 34)) [
  | inl q ↦ rw (token_end, q) (omega arith)
  | inr q ↦ elim (Bool-cases (ltb c 32)) [
    | inl l ↦ rw (token_end, q, l) tt
    | inr l ↦ elim (Bool-cases (c == 92)) [
      | inl b ↦
          rw (token_end, q, l, b)
            (Left-map (c ∷ d ∷ s) s (token_end s) (λ i. c ∷ d ∷ i) (omega arith) (token_end-Left s))
      | inr b ↦
          rw (token_end, q, l, b)
            (Left-map (c ∷ d ∷ s) (d ∷ s) (token_end (d ∷ s)) (λ i. c ∷ i) (omega arith)
              (token_end-Left (d ∷ s)))
    ]
  ]
]

pub json_parse_str-lt :
    (s : Bytes) {text rest : Bytes} → json_parse_str s ≡ some (text, rest) → length rest < length s
unfolding json_parse_str
json_parse_str-lt [] h = absurd (ground arith)
json_parse_str-lt (c ∷ s) {text} {rest} h =
    let quoted : Option (Bytes × Bytes) = (do
      (inner, rest) ← token_end s
      text ← json_unescape (34 ∷ (inner ++ (34 ∷ [])))
      some (text, rest)) in
    elim (if-cases (c == 34) quoted none h) [
      | inr (e, run) ↦ absurd (ground (arith, run))
      | inl (e, run) ↦
          let (p, at, run₁) = >>=-eq-some (token_end s) _ run in
          let (t, read, run₂) = >>=-eq-some (json_unescape (34 ∷ (p.0 ++ (34 ∷ [])))) _ run₁ in
          let (x, y) = some-pair run₂ in
          let left : Left s (some p) = rw at at (token_end-Left s) in rw (← y) (omega (arith, left))
    ]

primitive_part-length :
    (s : Bytes) → length (primitive_part s).0 + length (primitive_part s).1 ≡ length s
primitive_part-length [] = refl
primitive_part-length (c ∷ s) = ground (arith, primitive_part-length s)

text_some :
    (first behind : Bytes) (size : ℕ) {text rest : Bytes}
    → length first + length behind ≡ size
    → elim first as (λ _. Option (Bytes × Bytes)) [ [] ↦ none | c ∷ t ↦ some (c ∷ t, behind) ]
      ≡ some (text, rest)
    → length rest < size
text_some [] behind size e h = absurd (ground (arith, h))
text_some (c ∷ t) behind size e h = let (x, y) = some-pair h in rw (← y) (omega (arith, e))

pub json_parse_primitive-lt :
    (s : Bytes) {text rest : Bytes}
    → json_parse_primitive s ≡ some (text, rest)
    → length rest < length s
unfolding json_parse_primitive
json_parse_primitive-lt s h =
    text_some (primitive_part s).0 (primitive_part s).1 (length s) (primitive_part-length s) h

pub separator-lt :
    (close : ℕ) (s : Bytes) {last : Bool} {rest : Bytes}
    → separator close s ≡ some (last, rest)
    → length rest < length s
unfolding separator
separator-lt close s {last} {rest} h =
    let after = skip_ws s in
    let more : Option (Bool × Bytes) =
      if starts close (skip_ws (next after)) then none else some (false, skip_ws (next after)) in
    elim (if-cases (starts close after) (some (true, next after))
      (if not (starts b',' after) then none else more) h) [
        | inl (e, run) ↦
            let (x, y) = some-pair run in
            rw (← y) (omega (arith, next-lt close after e, skip_ws-le s))
        | inr (e, run) ↦
            let (comma, run₁) = guard-eq-some (not (starts b',' after)) more run in
            let (open_end, run₂) = guard-eq-some (starts close (skip_ws (next after))) _ run₁ in
            let (x, y) = some-pair run₂ in
            let there : starts b',' after ≡ true = ground (arith, comma) in
            rw (← y)
              (omega (arith, next-lt b',' after there, skip_ws-le s, skip_ws-le (next after)))
      ]
