-- ===== src/Json/Room.antt =====
-- The parts of the JSON parser that use the dictionary: each byte that they read pays for an entry.
use librustyaxe.Prelude.{
  ℕ, suc, ◌≤◌, ◌<◌, ◌≡◌, inl, inr, Bool, true, false, ◌&&◌, Option, none, some, Bytes, length,
  arith, Bool-cases, Option-cases, pos,
}
use librustyaxe.Dict.Types.{Value, bool, str}
use librustyaxe.Json.Strings.{json_parse_str}
use librustyaxe.Json.Parse.{Keys, skip_ws, next, starts, json_parse_primitive, primitive_value}
use librustyaxe.Json.Shorter.{skip_ws-le, next-lt, json_parse_str-lt, json_parse_primitive-lt}
use librustyaxe.Json.Value.{Outcome, added, add_string, add_primitive, member_key}

-- The operations of a dictionary return while it has room: a dictionary with room for n more entries
-- is asked for a key, and is added to if n is not 0, which leaves room for one entry less. A new one has
-- room for `limit` entries.
pub record IsTotal (keys : Keys) : Type 1 where
  pub HasRoom : ℕ → keys.Dictionary → Type 0
  pub limit : ℕ
  pub empty : HasRoom limit keys.empty
  pub less : (m n : ℕ) (d : keys.Dictionary) → m ≤ n → HasRoom n d → HasRoom m d
  pub has :
      (n : ℕ) (d : keys.Dictionary) (k : Bytes) → HasRoom n d → (b : Bool) × (keys.has d k ≡ some b)
  pub add :
      (n : ℕ) (d : keys.Dictionary) (k : Bytes) (v : Value)
      → HasRoom (suc n) d
      → (r : Bool × keys.Dictionary) × (keys.add d k v ≡ some r) × HasRoom n r.1

module _ (keys : Keys) (to_double : Bytes → Option ℕ) (total : IsTotal keys) where
  -- A result that leaves less than the text, and a dictionary with room for the rest of it.
  abbrev pub Shorter : Bytes → Outcome keys to_double → Type 0
  Shorter s (d, none) = Unit
  Shorter s (d, some rest) = (length rest < length s) × total.HasRoom (length rest) d

  abbrev pub Returns : Bytes → Option (Outcome keys to_double) → Type 0
  Returns s o = (r : Outcome keys to_double) × (o ≡ some r) × Shorter s r

  added-Shorter :
      (s rest : Bytes) (r : Bool × keys.Dictionary)
      → length rest < length s
      → total.HasRoom (length rest) r.1
      → Shorter s (added keys to_double rest r)
  unfolding added
  added-Shorter s rest (true, d) h room = (h, room)
  added-Shorter s rest (false, d) h room = tt

  -- Adding what a part of the text stands for leaves room for the rest.
  adds :
      (s rest : Bytes) (d : keys.Dictionary) (k : Bytes) (v : Value)
      → length rest < length s
      → total.HasRoom (length s) d
      → (r : Bool × keys.Dictionary) × (keys.add d k v ≡ some r) × total.HasRoom (length rest) r.1
  adds s rest d k v h room =
      total.add (length rest) d k v
        (total.less (suc (length rest)) (length s) d (omega (arith, h)) room)

  pub add_string-Returns :
      (s path : Bytes) (d : keys.Dictionary)
      → total.HasRoom (length s) d
      → Returns s (add_string keys to_double s path d)
  unfolding add_string
  add_string-Returns s path d room = elim (Option-cases (json_parse_str s)) [
    | inl e ↦ ((d, none), rw (add_string, e), tt)
    | inr ((text, rest), e) ↦
        let (r, run, left) = adds s rest d path (str (some text)) (json_parse_str-lt s e) room in
        (
          added keys to_double rest r,
          rw (add_string, e, run),
          added-Shorter s rest r (json_parse_str-lt s e) left,
        )
  ]

  pub add_primitive-Returns :
      (s path : Bytes) (d : keys.Dictionary)
      → total.HasRoom (length s) d
      → Returns s (add_primitive keys to_double s path d)
  unfolding add_primitive
  add_primitive-Returns s path d room = elim (Option-cases (json_parse_primitive s)) [
    | inl e ↦ ((d, none), rw (add_primitive, e), tt)
    | inr ((text, rest), e) ↦ elim (Option-cases (primitive_value to_double text)) [
      | inl e' ↦ ((d, none), rw (add_primitive, e, e'), tt)
      | inr (v, e') ↦
          let (r, run, left) = adds s rest d path v (json_parse_primitive-lt s e) room in
          (
            added keys to_double rest r,
            rw (add_primitive, e, e', run),
            added-Shorter s rest r (json_parse_primitive-lt s e) left,
          )
    ]
  ]

  -- A member's key is read, or the object is refused.
  abbrev pub Member : Bytes → Option (Bytes × Bytes × keys.Dictionary) → Type 0
  Member s none = Unit
  Member s (some (key, rest, seen)) = (length rest < length s) × total.HasRoom (length rest) seen

  pub member_key-Member :
      (s : Bytes) (seen : keys.Dictionary)
      → total.HasRoom (length s) seen
      → (m : Option (Bytes × Bytes × keys.Dictionary)) × (member_key keys to_double s seen ≡ some m)
        × Member s m
  unfolding member_key
  member_key-Member s seen room = elim (Option-cases (json_parse_str s)) [
    | inl e ↦ (none, rw (member_key, e), tt)
    | inr ((key, rest), e) ↦
        let (known, run) = total.has (length s) seen key room in
        let less = json_parse_str-lt s e in
        let ((ok, seen'), run', left) = adds s rest seen key (bool (pos 1)) less room in
        elim (Bool-cases known) [
          | inl k ↦ (none, rw (member_key, e, run, k), tt)
          | inr k ↦ elim (Bool-cases (ok && starts b':' (skip_ws rest))) [
            | inl go ↦ (
              some (key, next (skip_ws rest), seen'),
              rw (member_key, e, run, k, run', go),
              (
                omega (arith, next-lt b':' (skip_ws rest) (ground arith), skip_ws-le rest, less),
                total.less (length (next (skip_ws rest))) (length rest) seen'
                    (omega (arith, next-lt b':' (skip_ws rest) (ground arith), skip_ws-le rest))
                    left,
              ),
            )
            | inr stop ↦ (none, rw (member_key, e, run, k, run', stop), tt)
          ]
        ]
  ]

  pub Returns-shorter :
      (s t : Bytes) (o : Option (Outcome keys to_double))
      → length t ≤ length s
      → Returns t o
      → Returns s o
  Returns-shorter s t o h ((d, none), run, l) = ((d, none), run, tt)
  Returns-shorter s t o h ((d, some rest), run, (l, room)) =
      ((d, some rest), run, (omega (arith, l), room))
