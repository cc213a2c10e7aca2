-- ===== src/Json/Total.antt =====
-- The JSON parser returns, whatever the text, over a dictionary whose operations return.
use librustyaxe.Prelude.{
  ℕ, zero, suc, ◌+◌, ◌*◌, ◌≤◌, ◌<◌, ◌≡◌, refl, inl, inr, true, false, ◌||◌, Option, none, some, [],
  ◌∷◌, Bytes, ltb, length, arith, Bool-cases, Option-cases,
}
use librustyaxe.Json.Parse.{
  Keys, json_max_depth, skip_ws, next, starts, Start, at_end, at_quote, at_brace, at_bracket,
  at_other, start_of, separator, path_append, index_text,
}
use librustyaxe.Json.Shorter.{skip_ws-le, next-lt, separator-lt}
use librustyaxe.Json.Value.{
  is_end, Outcome, member_key, at_start, proceed, json_parse_value, json_parse_obj,
  json_parse_array,
}
use librustyaxe.Json.Room.{
  IsTotal, Returns, Shorter, Member, add_string-Returns, add_primitive-Returns, member_key-Member,
  Returns-shorter,
}

module _ (keys : Keys) (to_double : Bytes → Option ℕ) (total : IsTotal keys) where
  -- What a value, the members of an object and the items of an array need of the fuel.
  abbrev ValueReturns : ℕ → Type 0
  ValueReturns n =
      (s path : Bytes) (d : keys.Dictionary) (depth : ℕ)
      → 2 * length s < n
      → length s ≤ total.limit
      → total.HasRoom (length s) d
      → Returns keys to_double total s (json_parse_value keys to_double n s path d depth)

  abbrev MembersReturn : ℕ → Type 0
  MembersReturn n =
      (s path : Bytes) (seen d : keys.Dictionary) (depth : ℕ)
      → 2 * length s < n
      → length s ≤ total.limit
      → total.HasRoom (length s) seen
      → total.HasRoom (length s) d
      → Returns keys to_double total s (json_parse_obj keys to_double n s path seen d depth)

  abbrev ItemsReturn : ℕ → Type 0
  ItemsReturn n =
      (idx : ℕ) (s path : Bytes) (d : keys.Dictionary) (depth : ℕ)
      → 2 * length s + 1 < n
      → length s ≤ total.limit
      → total.HasRoom (length s) d
      → Returns keys to_double total s (json_parse_array keys to_double n idx s path d depth)

  at_start-Returns :
      (start : Start) (s path : Bytes) (d : keys.Dictionary)
      (members items : Bytes → Option (Outcome keys to_double))
      → start_of s ≡ start
      → total.HasRoom (length s) d
      → ((t : Bytes) → length t < length s → Returns keys to_double total t (members t))
      → ((t : Bytes) → length t < length s → Returns keys to_double total t (items t))
      → Returns keys to_double total s (at_start keys to_double start s path d members items)
  unfolding at_start
  at_start-Returns at_end s path d members items e room m i =
      add_primitive-Returns keys to_double total s path d room
  at_start-Returns at_other s path d members items e room m i =
      add_primitive-Returns keys to_double total s path d room
  at_start-Returns at_quote s path d members items e room m i =
      add_string-Returns keys to_double total s path d room
  at_start-Returns at_brace [] path d members items e room m i = absurd (cc e)
  at_start-Returns at_brace (c ∷ s) path d members items e room m i =
      let inside = skip_ws s in
      let le = skip_ws-le s in
      elim (Bool-cases (starts b'}' inside)) [
        | inl closed ↦
            let after = next-lt b'}' inside closed in
            (
              (d, some (next inside)),
              rw closed,
              (
                omega (arith, after, le),
                total.less (length (next inside)) (length (c ∷ s)) d (omega (arith, after, le))
                    room,
              ),
            )
        | inr more ↦ rw more (
            Returns-shorter keys to_double total (c ∷ s) inside (members inside) (omega (arith, le))
              (m inside (omega (arith, le))))
      ]
  at_start-Returns at_bracket [] path d members items e room m i = absurd (cc e)
  at_start-Returns at_bracket (c ∷ s) path d members items e room m i =
      let inside = skip_ws s in
      let le = skip_ws-le s in
      elim (Bool-cases (starts b']' inside)) [
        | inl closed ↦
            let after = next-lt b']' inside closed in
            (
              (d, some (next inside)),
              rw closed,
              (
                omega (arith, after, le),
                total.less (length (next inside)) (length (c ∷ s)) d (omega (arith, after, le))
                    room,
              ),
            )
        | inr more ↦ rw more (
            Returns-shorter keys to_double total (c ∷ s) inside (items inside) (omega (arith, le))
              (i inside (omega (arith, le))))
      ]

  value_step : (n : ℕ) → MembersReturn n → ItemsReturn n → ValueReturns (suc n)
  unfolding json_parse_value
  value_step n members items s path d depth enough short room =
      elim (Bool-cases (is_end (skip_ws s) || ltb json_max_depth depth)) [
        | inl refused ↦ ((d, none), rw (json_parse_value, refused), tt)
        | inr fine ↦
            let (known, run) = total.has (length s) d path room in
            let le = skip_ws-le s in
            let within =
              λ (t : Bytes) (h : length t ≤ length s). total.less (length t) (length s) d h room in
            let obj = λ (t : Bytes). json_parse_obj keys to_double n t path keys.empty d depth in
            let array = λ (t : Bytes). json_parse_array keys to_double n 0 t path d depth in
            let first =
              at_start-Returns (start_of (skip_ws s)) (skip_ws s) path d obj array refl
                (within (skip_ws s) le)
                (λ t l.
                  members t path keys.empty d depth (omega (arith, l, le))
                    (omega (arith, l, le, short))
                    (total.less (length t) total.limit keys.empty (omega (arith, l, le, short))
                      total.empty)
                    (within t (omega (arith, l, le))))
                (λ t l.
                  items 0 t path d depth (omega (arith, l, le)) (omega (arith, l, le, short))
                    (within t (omega (arith, l, le)))) in
            let (r, go, l) = Returns-shorter keys to_double total s (skip_ws s) _ le first in
            elim (Bool-cases known) [
              | inl k ↦ ((d, none), rw (json_parse_value, fine, run, k), tt)
              | inr k ↦ (r, rw (json_parse_value, fine, run, k) go, l)
            ]
      ]

  proceed-Returns :
      (close : ℕ) (t : Bytes) (r : Outcome keys to_double)
      (continue : Bytes → Option (Outcome keys to_double))
      → Shorter keys to_double total t r
      → ((u : Bytes)
          → length u < length t
          → total.HasRoom (length u) r.0
          → Returns keys to_double total u (continue u))
      → Returns keys to_double total t (proceed keys to_double close r continue)
  unfolding proceed
  proceed-Returns close t (d, none) continue l go = ((d, none), refl, tt)
  proceed-Returns close t (d, some after) continue (l, room) go =
      elim (Option-cases (separator close after)) [
        | inl e ↦ ((d, none), rw (proceed, e), tt)
        | inr ((true, end), e) ↦
            let less = separator-lt close after e in
            (
              (d, some end),
              rw (proceed, e),
              (
                omega (arith, l, less),
                total.less (length end) (length after) d (omega (arith, less)) room,
              ),
            )
        | inr ((false, more), e) ↦
            let less = separator-lt close after e in
            let (r, run, l') =
              Returns-shorter keys to_double total t more (continue more) (omega (arith, l, less)) (
                go more (omega (arith, l, less))
                  (total.less (length more) (length after) d (omega (arith, less)) room)) in
            (r, rw (proceed, e) run, l')
      ]

  keyed_step :
      (n : ℕ) (s path : Bytes) (seen d : keys.Dictionary) (depth : ℕ)
      (m : Option (Bytes × Bytes × keys.Dictionary))
      → ValueReturns n
      → MembersReturn n
      → 2 * length s < suc n
      → length s ≤ total.limit
      → total.HasRoom (length s) d
      → member_key keys to_double s seen ≡ some m
      → Member keys to_double total s m
      → Returns keys to_double total s (json_parse_obj keys to_double (suc n) s path seen d depth)
  unfolding json_parse_obj
  keyed_step n s path seen d depth none value members enough short room run l =
      ((d, none), rw (json_parse_obj, run), tt)
  keyed_step n s path seen d depth (some (key, rest, seen')) value members enough short room run
        (l, left) =
      let (r, run', l') =
        value rest (path_append path key) d (depth + 1) (omega (arith, enough, l))
          (omega (arith, short, l))
          (total.less (length rest) (length s) d (omega (arith, l)) room) in
      let after =
        proceed-Returns b'}' rest r
          (λ more. json_parse_obj keys to_double n more path seen' r.0 depth) l'
          (λ u less fits.
            members u path seen' r.0 depth (omega (arith, enough, l, less))
              (omega (arith, short, l, less))
              (total.less (length u) (length rest) seen' (omega (arith, less)) left) fits) in
      let (o, run'', l'') =
        Returns-shorter keys to_double total s rest _ (omega (arith, l)) after in
      (o, rw (json_parse_obj, run, run') run'', l'')

  members_step : (n : ℕ) → ValueReturns n → MembersReturn n → MembersReturn (suc n)
  members_step n value members s path seen d depth enough short seen_room room =
      let (m, run, l) = member_key-Member keys to_double total s seen seen_room in
      keyed_step n s path seen d depth m value members enough short room run l

  items_step : (n : ℕ) → ValueReturns n → ItemsReturn n → ItemsReturn (suc n)
  unfolding json_parse_array
  items_step n value items idx [] path d depth enough short room = ((d, none), refl, tt)
  items_step n value items idx (c ∷ s) path d depth enough short room =
      let (r, run, l) =
        value (c ∷ s) (path_append path (index_text idx)) d (depth + 1) (omega (arith, enough))
          short room in
      let (o, run', l') =
        proceed-Returns b']' (c ∷ s) r
          (λ more. json_parse_array keys to_double n (idx + 1) more path r.0 depth) l
          (λ u less fits.
            items (idx + 1) u path r.0 depth (omega (arith, enough, less))
              (omega (arith, short, less)) fits) in
      (o, rw (json_parse_array, run) run', l')

  all_return : (n : ℕ) → ValueReturns n × MembersReturn n × ItemsReturn n
  all_return zero = (
    λ s path d depth h short room. absurd (omega (arith, h)),
    λ s path seen d depth h short seen_room room. absurd (omega (arith, h)),
    λ idx s path d depth h short room. absurd (omega (arith, h)),
  )
  all_return (suc n) =
      let (value, members, items) = all_return n in
      (value_step n members items, members_step n value members, items_step n value items)

  -- Over a dictionary with room for as many entries as the text has bytes, and whatever `strtod` gives,
  -- the parser returns for every text, whatever its nesting, if its fuel is more than twice the length of
  -- the text; what it leaves of the text is shorter, and the dictionary has room for it.
  pub json_parse_value_total :
      (n : ℕ) (s path : Bytes) (d : keys.Dictionary) (depth : ℕ)
      → 2 * length s < n
      → length s ≤ total.limit
      → total.HasRoom (length s) d
      → Returns keys to_double total s (json_parse_value keys to_double n s path d depth)
  json_parse_value_total n = (all_return n).0
